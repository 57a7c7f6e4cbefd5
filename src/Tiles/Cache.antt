-- ===== src/Tiles/Cache.antt =====
-- `TileCache` of src/meshchat/services/orcmaps.py: a bounded LRU cache. The `OrderedDict` is a list
-- of pairs from the least to the most recently used.
pub mod Bounds
pub mod Recency
pub mod Answers
use orc_mesh.Prelude.{
  ℕ, zero, suc, ◌+◌, ◌-◌, max, Option, none, some, List, [], ◌∷◌, ◌++◌, length, drop,
}
use orc_mesh.Prelude.Dict.{Eq, Dict, lookup, insert, remove}

pub record TileCache {ℓ κ} (K : Type ℓ) (V : Type κ) : Type (ℓ ⊔ κ) where
  pub capacity : ℕ
  pub entries : Dict K V
  pub hits : ℕ
  pub misses : ℕ

module _ {ℓ κ} {K : Type ℓ} {V : Type κ} where
  -- TileCache(capacity)
  unfoldable pub new_cache : ℕ → TileCache K V
  new_cache capacity = record { capacity = max 1 capacity; entries = []; hits = 0; misses = 0 }

  -- TileCache.clear
  unfoldable pub clear : TileCache K V → TileCache K V
  clear c = record c { entries = [] }

  -- `while len(entries) > capacity: popitem(last=False)`
  unfoldable pub evict : ℕ → Dict K V → Dict K V
  evict capacity entries = drop (length entries - capacity) entries

module _ {ℓ κ} {K : Type ℓ} {V : Type κ} ⦃e : Eq K⦄ where
  -- OrderedDict.move_to_end, for a key that is there with this value
  unfoldable pub move_to_end : K → V → Dict K V → Dict K V
  move_to_end key value entries = remove key entries ++ (key, value) ∷ []

  -- TileCache.get
  unfoldable pub get : K → TileCache K V → TileCache K V × Option V
  get key c = elim (lookup key c.entries) [
    | none ↦ (record c { misses = c.misses + 1 }, none)
    | some value ↦
        (record c { entries = move_to_end key value c.entries; hits = c.hits + 1 }, some value)
  ]

  -- TileCache.put
  unfoldable pub put : K → V → TileCache K V → TileCache K V
  unfolding evict move_to_end
  put key value c = record c {
    entries = evict c.capacity (move_to_end key value (insert key value c.entries));
  }

-- A call of `get` or of `put`.
pub data Call {ℓ κ} (K : Type ℓ) (V : Type κ) : Type (ℓ ⊔ κ) where
  getting : K → Call K V
  putting : K → V → Call K V

module _ {ℓ κ} {K : Type ℓ} {V : Type κ} where
  abbrev pub key_of : Call K V → K
  key_of (getting key) = key
  key_of (putting key value) = key

module _ {ℓ κ} {K : Type ℓ} {V : Type κ} ⦃e : Eq K⦄ where
  unfoldable pub call : Call K V → TileCache K V → TileCache K V
  unfolding get put
  call (getting key) c = (get key c).0
  call (putting key value) c = put key value c

  unfoldable pub calls : List (Call K V) → TileCache K V → TileCache K V
  calls [] c = c
  calls (one ∷ rest) c = calls rest (call one c)
