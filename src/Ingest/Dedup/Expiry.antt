-- ===== src/Ingest/Dedup/Expiry.antt =====
-- What the cache of packet keys holds between two calls, and when a key is reported as a duplicate.
use orc_mesh.Prelude.{
  ℕ, zero, suc, ◌+◌, ◌-◌, ◌≤◌, ◌<◌, ◌≡◌, refl, sym, ap, ◌↔◌, true, Option, none, some, [], ◌∷◌,
  ◌++◌, arith, ltb, ltb→lt, keep, is_some, length, drop, length-append, length-drop, All,
  All-append, All-map, All-drop, keep-All, Option-cases, if◌then◌else◌, Bool-cases, inl, inr,
}
use orc_mesh.Prelude.Dict.{
  Eq, Dict, lookup, insert, IsDistinct, insert_absent, IsDistinct-insert, IsDistinct-drop,
}
use orc_mesh.Ingest.Dedup.{prune_dedup, remember, is_duplicate, dedup_ttl, max_entries, evicted}

-- An entry that the pruning at `now` leaves.
abbrev live : ℕ → Option ℕ → Option ℕ
live now none = none
live now (some t) = if ltb now t then some t else none

live_iff :
    (now : ℕ) (o : Option ℕ) → (is_some (live now o) ≡ true) ↔ ((t : ℕ) × (o ≡ some t) × (now < t))
live_iff now none = (λ h. cc, λ h. cc (h.1))
live_iff now (some t) = elim (Bool-cases (ltb now t)) [
  | inl ahead ↦ rw ahead (λ h. (t, refl, ltb→lt now t ahead), λ h. refl)
  | inr gone ↦ rw gone (λ h. cc, λ h. ground arith)
]

module _ {ℓ} {K : Type ℓ} where
  -- Expiries do not decrease along the cache.
  abbrev pub IsAscending : Dict K ℕ → Type 0
  IsAscending [] = Unit
  IsAscending ((k, t) ∷ d) = All (λ entry. t ≤ entry.1) d × IsAscending d

  abbrev pub ExpireBy : ℕ → Dict K ℕ → Type 0
  ExpireBy t d = All (λ entry. entry.1 ≤ t) d

  -- With ascending expiries, pruning removes the expired entries and no other.
  pub prune_dedup-eq-keep :
      (now : ℕ) (d : Dict K ℕ)
      → IsAscending d
      → prune_dedup now d ≡ keep (λ entry. ltb now entry.1) d
  unfolding prune_dedup
  prune_dedup-eq-keep now [] h = refl
  prune_dedup-eq-keep now ((k, t) ∷ d) h = elim (Bool-cases (ltb now t)) [
    | inl live ↦ rw live (
        ap (λ (r : Dict K ℕ). (k, t) ∷ r)
          (sym (keep-All (λ entry. ltb now entry.1) d (All-map d (λ x le. ground arith) h.0))))
    | inr gone ↦ rw gone (prune_dedup-eq-keep now d h.1)
  ]

  All-prune_dedup :
      (P : K × ℕ → Type 0) (now : ℕ) (d : Dict K ℕ) → All P d → All P (prune_dedup now d)
  unfolding prune_dedup
  All-prune_dedup P now [] h = h
  All-prune_dedup P now ((k, t) ∷ d) h = elim (Bool-cases (ltb now t)) [
    | inl live ↦ rw live h
    | inr gone ↦ rw gone (All-prune_dedup P now d h.1)
  ]

  IsAscending-prune_dedup :
      (now : ℕ) (d : Dict K ℕ) → IsAscending d → IsAscending (prune_dedup now d)
  unfolding prune_dedup
  IsAscending-prune_dedup now [] h = h
  IsAscending-prune_dedup now ((k, t) ∷ d) h = elim (Bool-cases (ltb now t)) [
    | inl live ↦ rw live h
    | inr gone ↦ rw gone (IsAscending-prune_dedup now d h.1)
  ]

  length-prune_dedup : (now : ℕ) (d : Dict K ℕ) → length (prune_dedup now d) ≤ length d
  unfolding prune_dedup
  length-prune_dedup now [] = omega arith
  length-prune_dedup now ((k, t) ∷ d) = ground (arith, length-prune_dedup now d)

  IsAscending-append :
      (k : K) (t : ℕ) (d : Dict K ℕ) → IsAscending d → ExpireBy t d → IsAscending (d ++ (k, t) ∷ [])
  IsAscending-append k t [] a b = (tt, tt)
  IsAscending-append k t ((j, u) ∷ d) a b = (
    All-append (λ entry. u ≤ entry.1) d ((k, t) ∷ []) a.0 (b.0, tt),
    IsAscending-append k t d a.1 b.1,
  )

  IsAscending-drop : (n : ℕ) (d : Dict K ℕ) → IsAscending d → IsAscending (drop n d)
  IsAscending-drop zero d h = h
  IsAscending-drop (suc n) [] h = h
  IsAscending-drop (suc n) (x ∷ d) h = IsAscending-drop n d h.1

module _ {ℓ} {K : Type ℓ} ⦃e : Eq K⦄ where
  -- What holds of the cache after a call at time `now`.
  pub record IsCache (now : ℕ) (d : Dict K ℕ) : Type 0 where
    pub distinct : IsDistinct d
    pub ascending : IsAscending d
    pub expire_by : ExpireBy (now + dedup_ttl) d
    pub bounded : length d ≤ max_entries

  -- the invariant of a time holds at any later time
  pub weaken-IsCache :
      (before now : ℕ) (d : Dict K ℕ) → before ≤ now → IsCache before d → IsCache now d
  weaken-IsCache before now d le c = record {
    distinct = c.distinct;
    ascending = c.ascending;
    expire_by = All-map d (λ x h. omega arith) c.expire_by;
    bounded = c.bounded;
  }

  IsDistinct-prune_dedup : (now : ℕ) (d : Dict K ℕ) → IsDistinct d → IsDistinct (prune_dedup now d)
  unfolding prune_dedup
  IsDistinct-prune_dedup now [] h = h
  IsDistinct-prune_dedup now ((k, t) ∷ d) h = elim (Bool-cases (ltb now t)) [
    | inl live ↦ rw live h
    | inr gone ↦ rw gone (IsDistinct-prune_dedup now d h.1)
  ]

  prune_dedup-IsCache :
      (before now : ℕ) (d : Dict K ℕ)
      → before ≤ now
      → IsCache before d
      → IsCache now (prune_dedup now d)
  prune_dedup-IsCache before now d le c = record {
    distinct = IsDistinct-prune_dedup now d c.distinct;
    ascending = IsAscending-prune_dedup now d c.ascending;
    expire_by =
        All-prune_dedup (λ entry. entry.1 ≤ now + dedup_ttl) now d
          (All-map d (λ x h. omega arith) c.expire_by);
    bounded = omega (arith, length-prune_dedup now d, c.bounded);
  }

  drop-IsCache :
      (n now : ℕ) (d : Dict K ℕ)
      → IsDistinct d
      → IsAscending d
      → ExpireBy (now + dedup_ttl) d
      → length d - n ≤ max_entries
      → IsCache now (drop n d)
  drop-IsCache n now d di a b l = record {
    distinct = IsDistinct-drop n d di;
    ascending = IsAscending-drop n d a;
    expire_by = All-drop (λ entry. entry.1 ≤ now + dedup_ttl) n d b;
    bounded = omega (arith, length-drop n d);
  }

  remember-IsCache :
      (key : K) (now : ℕ) (d : Dict K ℕ)
      → lookup key d ≡ none
      → IsCache now d
      → IsCache now (remember key now d)
  unfolding remember
  remember-IsCache key now d fresh c = elim (Bool-cases (ltb max_entries (length stored))) [
    | inl full ↦ rw full (
        drop-IsCache evicted now stored distinct' ascending' expire_by'
          (omega (arith, size, c.bounded)))
    | inr room ↦ rw room (record {
      distinct = distinct';
      ascending = ascending';
      expire_by = expire_by';
      bounded = ground arith;
    })
  ]
    where
      stored : Dict K ℕ
      stored = insert key (now + dedup_ttl) d

      shape : stored ≡ d ++ (key, now + dedup_ttl) ∷ []
      shape = insert_absent key (now + dedup_ttl) d fresh

      size : length stored ≡ suc (length d)
      size = rw shape (omega (arith, length-append d ((key, now + dedup_ttl) ∷ [])))

      distinct' : IsDistinct stored
      distinct' = IsDistinct-insert key (now + dedup_ttl) d c.distinct

      ascending' : IsAscending stored
      ascending' = rw shape (IsAscending-append key (now + dedup_ttl) d c.ascending c.expire_by)

      expire_by' : ExpireBy (now + dedup_ttl) stored
      expire_by' = rw shape (
          All-append (λ entry. entry.1 ≤ now + dedup_ttl) d ((key, now + dedup_ttl) ∷ [])
            c.expire_by (omega arith, tt))

  -- Every call at a later time keeps the cache's invariant: distinct keys, expiries in order and at
  -- most one TTL ahead, and no more than 5000 entries.
  pub is_duplicate-IsCache :
      (key : K) (before now : ℕ) (d : Dict K ℕ)
      → before ≤ now
      → IsCache before d
      → IsCache now (is_duplicate key now d).0
  unfolding is_duplicate
  is_duplicate-IsCache key before now d le c =
      elim (Option-cases (lookup key (prune_dedup now d))) [
        | inl absent ↦ rw absent (
            remember-IsCache key now (prune_dedup now d) absent
              (prune_dedup-IsCache before now d le c))
        | inr (t, present) ↦ rw present (prune_dedup-IsCache before now d le c)
      ]

  le-lookup :
      (key : K) (t u : ℕ) (d : Dict K ℕ)
      → All (λ entry. t ≤ entry.1) d
      → lookup key d ≡ some u
      → t ≤ u
  unfolding lookup
  le-lookup key t u [] h p = cc
  le-lookup key t u ((k, v) ∷ d) h p = ground (arith, le-lookup key t u d h.1)

  lookup-prune_dedup :
      (key : K) (now : ℕ) (d : Dict K ℕ)
      → IsDistinct d
      → IsAscending d
      → lookup key (prune_dedup now d) ≡ live now (lookup key d)
  unfolding lookup prune_dedup
  lookup-prune_dedup key now [] di a = refl
  lookup-prune_dedup key now ((k, t) ∷ d) di a = elim (Option-cases (lookup key d)) [
    | inl absent ↦ ground (arith, lookup-prune_dedup key now d di.1 a.1, e.beq_iff k key)
    | inr (u, present) ↦ ground (
      arith,
      lookup-prune_dedup key now d di.1 a.1,
      e.beq_iff k key,
      le-lookup key t u d a.0 present,
    )
  ]

  pub is_duplicate_answer :
      (key : K) (now : ℕ) (d : Dict K ℕ)
      → (is_duplicate key now d).1 ≡ is_some (lookup key (prune_dedup now d))
  unfolding is_duplicate
  is_duplicate_answer key now d = ground arith

  -- a duplicate only prunes the cache
  pub is_duplicate_pruned :
      (key : K) (now : ℕ) (d : Dict K ℕ)
      → (is_duplicate key now d).1 ≡ true
      → (is_duplicate key now d).0 ≡ prune_dedup now d
  unfolding is_duplicate
  is_duplicate_pruned key now d seen = ground arith

  -- In a cache as the calls up to some time leave it (its keys distinct, its expiries ascending and no
  -- further ahead than the time to live, its size bounded), a key is reported as a duplicate exactly when
  -- the cache holds it with an expiry still ahead.
  pub is_duplicate_iff :
      (key : K) (before now : ℕ) (d : Dict K ℕ)
      → IsCache before d
      → ((is_duplicate key now d).1 ≡ true) ↔ ((t : ℕ) × (lookup key d ≡ some t) × (now < t))
  is_duplicate_iff key before now d c =
      rw (is_duplicate_answer key now d, lookup-prune_dedup key now d c.distinct c.ascending)
        (live_iff now (lookup key d))
