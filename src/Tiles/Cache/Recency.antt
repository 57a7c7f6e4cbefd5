-- ===== src/Tiles/Cache/Recency.antt =====
-- How long the tile cache keeps a tile: recency of use.
use mathlib.Core.List.{append_assoc}
use mathlib.Core.Path.{subst}
use orc_mesh.Prelude.{
  ℕ, suc, ◌+◌, ◌-◌, ◌≤◌, ◌<◌, ◌≡◌, refl, ap, ◌∙◌, false, some, List, [], ◌∷◌, ◌++◌, arith, length,
  drop, length-append, drop-append, All, Bool-cases, Option-cases, inl, inr,
}
use orc_mesh.Prelude.Dict.{Eq, Dict, lookup, insert, remove, IsDistinct, beq_refl}
use orc_mesh.Tiles.Cache.{
  TileCache, evict, move_to_end, get, put, Call, getting, putting, key_of, call, calls,
}
use orc_mesh.Tiles.Cache.Bounds.{IsCache, get-IsCache, put-IsCache, length-remove-le, remove-insert}

module _ {ℓ κ} {K : Type ℓ} {V : Type κ} ⦃e : Eq K⦄ where
  -- The key stands in the cache with this value, behind it at most `n` keys that were used later.
  record Recent (key : K) (v : V) (n : ℕ) (d : Dict K V) : Type (ℓ ⊔ κ) where
    older : Dict K V
    newer : Dict K V
    shape : d ≡ older ++ (key, v) ∷ newer
    near : length newer ≤ n

  -- removing another key leaves the tile in its place
  remove-append :
      (key k : K) (v : V) (older newer : Dict K V)
      → e.beq key k ≡ false
      → (older' newer' : Dict K V) × (remove k (older ++ (key, v) ∷ newer)
          ≡ older' ++ (key, v) ∷ newer')
        × (length newer' ≤ length newer)
  unfolding remove
  remove-append key k v [] newer h = ([], remove k newer, rw h, length-remove-le k newer)
  remove-append key k v ((j, w) ∷ older) newer h = elim (Bool-cases (e.beq j k)) [
    | inl same ↦ (older, newer, rw same, omega arith)
    | inr other ↦
        let (older', newer', shape, near) = remove-append key k v older newer h in
        ((j, w) ∷ older', newer', rw other (ap (λ (r : Dict K V). (j, w) ∷ r) shape), near)
  ]

  move_to_end-Recent :
      (key k : K) (v w : V) (n : ℕ) (d : Dict K V)
      → e.beq key k ≡ false
      → Recent key v n d
      → Recent key v (suc n) (move_to_end k w d)
  unfolding move_to_end
  move_to_end-Recent key k v w n d h r =
      let (older', newer', shape', near') = remove-append key k v r.older r.newer h in
      record {
        older = older';
        newer = newer' ++ (k, w) ∷ [];
        shape =
            ap (λ (l : Dict K V). remove k l ++ (k, w) ∷ []) r.shape
            ∙ ap (λ (l : Dict K V). l ++ (k, w) ∷ []) shape'
            ∙ append_assoc older' ((key, v) ∷ newer') ((k, w) ∷ []);
        near = omega (arith, length-append newer' ((k, w) ∷ []), near', r.near);
      }

  weaken : (key : K) (v : V) (n : ℕ) (d : Dict K V) → Recent key v n d → Recent key v (suc n) d
  weaken key v n d r = record {
    older = r.older;
    newer = r.newer;
    shape = r.shape;
    near = omega (arith, r.near);
  }

  evict-Recent :
      (key : K) (v : V) (n capacity : ℕ) (d : Dict K V)
      → suc n ≤ capacity
      → Recent key v n d
      → Recent key v n (evict capacity d)
  unfolding evict
  evict-Recent key v n capacity d room r =
      let size : length d ≡ length r.older + suc (length r.newer) =
        ap length r.shape ∙ length-append r.older ((key, v) ∷ r.newer) in
      record {
        older = drop (length d - capacity) r.older;
        newer = r.newer;
        shape =
            ap (drop (length d - capacity)) r.shape
            ∙ drop-append (length d - capacity) r.older ((key, v) ∷ r.newer)
                (omega (arith, size, r.near));
        near = r.near;
      }

  -- keys are distinct, so a lookup finds the entry
  lookup_of_append :
      (key : K) (v : V) (older newer : Dict K V)
      → IsDistinct (older ++ (key, v) ∷ newer)
      → lookup key (older ++ (key, v) ∷ newer) ≡ some v
  unfolding lookup
  lookup_of_append key v [] newer di = rw (beq_refl key)
  lookup_of_append key v ((j, w) ∷ older) newer di =
      ground (arith, lookup_of_append key v older newer di.1, e.beq_iff j key, di.0)

  record Holds (key : K) (v : V) (n : ℕ) (c : TileCache K V) : Type (ℓ ⊔ κ) where
    valid : IsCache c
    recent : Recent key v n c.entries

  get-Recent :
      (key k : K) (v : V) (n : ℕ) (c : TileCache K V)
      → e.beq key k ≡ false
      → Recent key v n c.entries
      → Recent key v (suc n) (get k c).0.entries
  unfolding get
  get-Recent key k v n c h r = elim (Option-cases (lookup k c.entries)) [
    | inl absent ↦ rw (absent, get) (weaken key v n c.entries r)
    | inr (w, present) ↦ rw (present, get) (move_to_end-Recent key k v w n c.entries h r)
  ]

  put-Recent :
      (key k : K) (v w : V) (n : ℕ) (c : TileCache K V)
      → e.beq key k ≡ false
      → suc (suc n) ≤ c.capacity
      → Recent key v n c.entries
      → Recent key v (suc n) (put k w c).entries
  unfolding put
  put-Recent key k v w n c h room r =
      evict-Recent key v (suc n) c.capacity _ room
        (rw (moved-insert k w c.entries) (move_to_end-Recent key k v w n c.entries h r))
    where
      moved-insert :
          (j : K) (x : V) (d : Dict K V) → move_to_end j x (insert j x d) ≡ move_to_end j x d
      moved-insert j x d =
          unfold move_to_end in ap (λ (l : Dict K V). l ++ (j, x) ∷ []) (remove-insert j x d)

  call-Holds :
      (key : K) (v : V) (n : ℕ) (one : Call K V) (c : TileCache K V)
      → e.beq key (key_of one) ≡ false
      → suc (suc n) ≤ c.capacity
      → Holds key v n c
      → Holds key v (suc n) (call one c)
  unfolding call
  call-Holds key v n (getting k) c h room held = record {
    valid = get-IsCache k c held.valid;
    recent = get-Recent key k v n c h held.recent;
  }
  call-Holds key v n (putting k w) c h room held = record {
    valid = put-IsCache k w c held.valid;
    recent = put-Recent key k v w n c h room held.recent;
  }

  capacity-call : (one : Call K V) (c : TileCache K V) → (call one c).capacity ≡ c.capacity
  unfolding call get put
  capacity-call (getting k) c = ground arith
  capacity-call (putting k w) c = refl

  calls-Holds :
      (key : K) (v : V) (n : ℕ) (rest : List (Call K V)) (c : TileCache K V)
      → All (λ one. e.beq key (key_of one) ≡ false) rest
      → length rest + n < c.capacity
      → Holds key v n c
      → Holds key v (length rest + n) (calls rest c)
  unfolding calls
  calls-Holds key v n [] c h room held = let z : 0 + n ≡ n = omega arith in rw z held
  calls-Holds key v n (one ∷ rest) c h room held =
      let z : suc (length rest) + n ≡ length rest + suc n = omega arith in
      rw z (
        calls-Holds key v (suc n) rest (call one c) h.1 (omega (arith, capacity-call one c))
          (call-Holds key v n one c h.0 (omega arith) held))

  found : (key : K) (v : V) (n : ℕ) (c : TileCache K V) → Holds key v n c → (get key c).1 ≡ some v
  unfolding get
  found key v n c held =
      let r = held.recent in
      let here : lookup key c.entries ≡ some v =
        ap (lookup key) r.shape
        ∙ lookup_of_append key v r.older r.newer (subst IsDistinct r.shape held.valid.distinct) in
      rw (here, get)

  put-Holds : (key : K) (v : V) (c : TileCache K V) → IsCache c → Holds key v 0 (put key v c)
  unfolding put
  put-Holds key v c h = record {
    valid = put-IsCache key v c h;
    recent = evict-Recent key v 0 c.capacity _ h.positive (
        unfold move_to_end in
        record {
          older = remove key (insert key v c.entries);
          newer = [];
          shape = refl;
          near = omega arith;
        });
  }

  -- A tile that was put in a cache with distinct keys, no more entries than its capacity and a positive
  -- capacity is found by `get` after any calls on other keys, as long as they are fewer than the
  -- capacity.
  pub get-put :
      (key : K) (v : V) (rest : List (Call K V)) (c : TileCache K V)
      → IsCache c
      → All (λ one. e.beq key (key_of one) ≡ false) rest
      → length rest < c.capacity
      → (get key (calls rest (put key v c))).1 ≡ some v
  get-put key v rest c h others few =
      found key v (length rest + 0) _
        (calls-Holds key v 0 rest (put key v c) others (omega (arith, same)) (put-Holds key v c h))
    where
      same : (put key v c).capacity ≡ c.capacity
      same = unfold put in refl
