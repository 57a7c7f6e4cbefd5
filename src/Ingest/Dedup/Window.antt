-- ===== src/Ingest/Dedup/Window.antt =====
-- How long the cache of packet keys remembers a key that it has accepted.
use orc_mesh.Prelude.{
  ℕ, suc, ◌+◌, ◌≤◌, ◌<◌, ◌≡◌, ap, ◌∙◌, lt→ltb, ltb→lt, true, false, none, List, [], ◌∷◌, ◌++◌,
  arith, ltb, is_some, length, drop, length-append, drop-append, All, Bool-cases, Option-cases, inl,
  inr,
}
use mathlib.Core.List.{append_assoc}
use orc_mesh.Prelude.Dict.{Eq, Dict, lookup, insert, insert_absent, beq_refl}
use orc_mesh.Ingest.Dedup.Expiry.{is_duplicate_answer}
use orc_mesh.Ingest.Dedup.{
  prune_dedup, remember, is_duplicate, after_calls, dedup_ttl, max_entries, evicted,
}

module _ {ℓ} {K : Type ℓ} ⦃e : Eq K⦄ where
  -- The key stands in the cache with at most `n` entries behind it.
  record Recent (key : K) (expiry n : ℕ) (d : Dict K ℕ) : Type ℓ where
    older : Dict K ℕ
    newer : Dict K ℕ
    shape : d ≡ older ++ (key, expiry) ∷ newer
    near : length newer ≤ n

  lookup_of_append :
      (key : K) (expiry : ℕ) (older newer : Dict K ℕ)
      → is_some (lookup key (older ++ (key, expiry) ∷ newer)) ≡ true
  unfolding lookup
  lookup_of_append key expiry [] newer = rw (beq_refl key)
  lookup_of_append key expiry ((k, t) ∷ older) newer =
      ground (arith, lookup_of_append key expiry older newer)

  -- pruning stops at an unexpired key
  prune_dedup-append :
      (key : K) (expiry now : ℕ) (older newer : Dict K ℕ)
      → now < expiry
      → (older' : Dict K ℕ) × (prune_dedup now (older ++ (key, expiry) ∷ newer)
          ≡ older' ++ (key, expiry) ∷ newer)
  unfolding prune_dedup
  prune_dedup-append key expiry now [] newer h = ([], rw (lt→ltb now expiry h))
  prune_dedup-append key expiry now ((k, t) ∷ older) newer h = elim (Bool-cases (ltb now t)) [
    | inl ahead ↦ ((k, t) ∷ older, rw ahead)
    | inr gone ↦ rw gone (prune_dedup-append key expiry now older newer h)
  ]

  prune_dedup-Recent :
      (key : K) (expiry n now : ℕ) (d : Dict K ℕ)
      → now < expiry
      → Recent key expiry n d
      → Recent key expiry n (prune_dedup now d)
  prune_dedup-Recent key expiry n now d h r =
      let (older', shape') = prune_dedup-append key expiry now r.older r.newer h in
      record {
        older = older';
        newer = r.newer;
        shape = ap (prune_dedup now) r.shape ∙ shape';
        near = r.near;
      }

  drop-Recent :
      (key : K) (expiry n : ℕ) (d : Dict K ℕ)
      → n ≤ evicted
      → max_entries < length d
      → Recent key expiry n d
      → Recent key expiry n (drop evicted d)
  drop-Recent key expiry n d small full r = record {
    older = drop evicted r.older;
    newer = r.newer;
    shape = ap (drop evicted) r.shape ∙ drop-append evicted r.older ((key, expiry) ∷ r.newer) room;
    near = r.near;
  }
    where
      room : evicted ≤ length r.older
      room =
          omega (arith, ap length r.shape, length-append r.older ((key, expiry) ∷ r.newer), r.near)

  remember-Recent :
      (key other : K) (expiry n now : ℕ) (d : Dict K ℕ)
      → suc n ≤ evicted
      → lookup other d ≡ none
      → Recent key expiry n d
      → Recent key expiry (suc n) (remember other now d)
  unfolding remember
  remember-Recent key other expiry n now d small fresh r =
      elim (Bool-cases (ltb max_entries (length stored))) [
        | inl full ↦ rw full (drop-Recent key expiry (suc n) stored small (ltb→lt _ _ full) kept)
        | inr room ↦ rw room kept
      ]
    where
      stored : Dict K ℕ
      stored = insert other (now + dedup_ttl) d

      kept : Recent key expiry (suc n) stored
      kept = record {
        older = r.older;
        newer = r.newer ++ (other, now + dedup_ttl) ∷ [];
        shape =
            insert_absent other (now + dedup_ttl) d fresh
            ∙ ap (λ (l : Dict K ℕ). l ++ (other, now + dedup_ttl) ∷ []) r.shape
            ∙ append_assoc r.older ((key, expiry) ∷ r.newer) ((other, now + dedup_ttl) ∷ []);
        near = omega (arith, length-append r.newer ((other, now + dedup_ttl) ∷ []), r.near);
      }

  weaken :
      (key : K) (expiry n : ℕ) (d : Dict K ℕ) → Recent key expiry n d → Recent key expiry (suc n) d
  weaken key expiry n d r = record {
    older = r.older;
    newer = r.newer;
    shape = r.shape;
    near = omega (arith, r.near);
  }

  is_duplicate-Recent :
      (key other : K) (expiry n now : ℕ) (d : Dict K ℕ)
      → suc n ≤ evicted
      → now < expiry
      → Recent key expiry n d
      → Recent key expiry (suc n) (is_duplicate other now d).0
  unfolding is_duplicate
  is_duplicate-Recent key other expiry n now d small h r =
      elim (Option-cases (lookup other (prune_dedup now d))) [
        | inl absent ↦ rw absent (remember-Recent key other expiry n now _ small absent pruned)
        | inr (t, present) ↦ rw present (weaken key expiry n _ pruned)
      ]
    where
      pruned : Recent key expiry n (prune_dedup now d)
      pruned = prune_dedup-Recent key expiry n now d h r

  after_calls-Recent :
      (key : K) (expiry n : ℕ) (calls : List (K × ℕ)) (d : Dict K ℕ)
      → length calls + n ≤ evicted
      → All (λ call. call.1 < expiry) calls
      → Recent key expiry n d
      → Recent key expiry (length calls + n) (after_calls calls d)
  unfolding after_calls
  after_calls-Recent key expiry n [] d small h r = let z : 0 + n ≡ n = omega arith in rw z r
  after_calls-Recent key expiry n ((other, now) ∷ calls) d small h r =
      let z : suc (length calls) + n ≡ length calls + suc n = omega arith in
      rw z (
        after_calls-Recent key expiry (suc n) calls _ (omega arith) h.1
          (is_duplicate-Recent key other expiry n now d (omega arith) h.0 r))

  -- an accepted key is stored last
  accepted-Recent :
      (key : K) (now : ℕ) (d : Dict K ℕ)
      → (is_duplicate key now d).1 ≡ false
      → Recent key (now + dedup_ttl) 0 (is_duplicate key now d).0
  unfolding is_duplicate remember
  accepted-Recent key now d h = elim (Option-cases (lookup key (prune_dedup now d))) [
    | inl absent ↦ rw absent (elim (Bool-cases (ltb max_entries (length stored))) [
      | inl full ↦
          rw full (
            drop-Recent key (now + dedup_ttl) 0 stored (omega arith) (ltb→lt _ _ full)
              (last absent))
      | inr room ↦ rw room (last absent)
    ])
    | inr (t, present) ↦ absurd (ground arith)
  ]
    where
      stored : Dict K ℕ
      stored = insert key (now + dedup_ttl) (prune_dedup now d)

      last : lookup key (prune_dedup now d) ≡ none → Recent key (now + dedup_ttl) 0 stored
      last absent = record {
        older = prune_dedup now d;
        newer = [];
        shape = insert_absent key (now + dedup_ttl) (prune_dedup now d) absent;
        near = omega arith;
      }

  -- A key that was accepted at time `now` is a duplicate at any time before its TTL has passed, after
  -- any sequence of at most 2500 calls within that time, whatever their keys and whether or not the
  -- cache was emptied of its oldest half on the way.
  pub accepted_then_duplicate :
      (key : K) (now later : ℕ) (d : Dict K ℕ) (calls : List (K × ℕ))
      → (is_duplicate key now d).1 ≡ false
      → length calls ≤ evicted
      → All (λ call. call.1 < now + dedup_ttl) calls
      → later < now + dedup_ttl
      → (is_duplicate key later (after_calls calls (is_duplicate key now d).0)).1 ≡ true
  accepted_then_duplicate key now later d calls h small within soon =
      let r =
        after_calls-Recent key (now + dedup_ttl) 0 calls _ (omega arith) within
          (accepted-Recent key now d h) in
      let p = prune_dedup-Recent key (now + dedup_ttl) _ later _ soon r in
      reported p.older p.newer p.shape
    where
      cache : Dict K ℕ
      cache = after_calls calls (is_duplicate key now d).0

      reported :
          (older newer : Dict K ℕ)
          → prune_dedup later cache ≡ older ++ (key, now + dedup_ttl) ∷ newer
          → (is_duplicate key later cache).1 ≡ true
      reported older newer shape =
          is_duplicate_answer key later cache
          ∙ ap (λ (l : Dict K ℕ). is_some (lookup key l)) shape
          ∙ lookup_of_append key (now + dedup_ttl) older newer
