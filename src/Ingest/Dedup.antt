-- ===== src/Ingest/Dedup.antt =====
-- The duplicate cache of src/meshchat/services/packet_ingestor.py: `_is_duplicate` and
-- `_prune_dedup`. The `OrderedDict` is a list of (key, expiry) in insertion order; the monotonic
-- clock counts milliseconds, so `_DEDUP_TTL_S = 120` is 120000.
pub mod Expiry
pub mod Window
use orc_mesh.Prelude.{
  ℕ, zero, suc, ◌+◌, Bool, true, false, List, [], ◌∷◌, ltb, is_some, length, drop, if◌then◌else◌,
}
use orc_mesh.Prelude.Dict.{Eq, Dict, lookup, insert}

abbrev pub dedup_ttl : ℕ
dedup_ttl = 120_000

abbrev pub max_entries : ℕ
max_entries = 5000

abbrev pub evicted : ℕ
evicted = 2500

module _ {ℓ} {K : Type ℓ} where
  -- the loop stops at the first entry that has not expired
  unfoldable pub prune_dedup : ℕ → Dict K ℕ → Dict K ℕ
  prune_dedup now [] = []
  prune_dedup now ((key, expiry) ∷ d) =
      if ltb now expiry then (key, expiry) ∷ d else prune_dedup now d

module _ {ℓ} {K : Type ℓ} ⦃e : Eq K⦄ where
  -- the branch after the lookup: a new key is stored, and a cache that is too large loses its oldest
  unfoldable pub remember : K → ℕ → Dict K ℕ → Dict K ℕ
  remember key now d =
      let d' = insert key (now + dedup_ttl) d in
      if ltb max_entries (length d') then drop evicted d' else d'

  unfoldable pub is_duplicate : K → ℕ → Dict K ℕ → Dict K ℕ × Bool
  is_duplicate key now d =
      let d' = prune_dedup now d in
      if is_some (lookup key d') then (d', true) else (remember key now d', false)

  -- The cache after a sequence of calls, each a key with the time of its call.
  unfoldable pub after_calls : List (K × ℕ) → Dict K ℕ → Dict K ℕ
  after_calls [] d = d
  after_calls ((key, now) ∷ calls) d = after_calls calls (is_duplicate key now d).0
