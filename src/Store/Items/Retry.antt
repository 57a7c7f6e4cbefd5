-- ===== src/Store/Items/Retry.antt =====
-- The retries of _write_item_with_retry in src/meshchat/services/monitor_store.py.
use orc_mesh.Prelude.{
  ℕ, zero, suc, ◌+◌, ◌*◌, ◌≡◌, ◌≤◌, ◌<◌, refl, ◌⊎◌, inl, inr, true, false, ◌&&◌, Option, none, some,
  arith, leb, Bool-cases, Option-cases,
}
use orc_mesh.Store.Items.{
  SqlError, Retried, succeeded, gave_up, no_fuel, attempt_from, write_item_with_retry, is_transient,
}

-- the delay after n retries, in milliseconds
backoff : ℕ → ℕ
backoff zero = 50
backoff (suc n) = backoff n * 2

backoff_le : (n : ℕ) → n ≤ 3 → backoff n ≤ 400
unfolding backoff
backoff_le zero h = omega arith
backoff_le (suc zero) h = omega arith
backoff_le (suc (suc zero)) h = omega arith
backoff_le (suc (suc (suc zero))) h = omega arith
backoff_le (suc (suc (suc (suc n)))) h = absurd (omega arith)

module _ (outcome : ℕ → Option SqlError) where
  -- the attempts 1 to n failed by a transient error
  pub IsTransient : ℕ → Type 0
  IsTransient zero = Unit
  IsTransient (suc n) =
      IsTransient n × ((e : SqlError) × (outcome (suc n) ≡ some e) × (is_transient e ≡ true))

  -- how an item may end, after n retries
  pub IsEnd : Retried → Type 0
  IsEnd no_fuel = ⊥
  IsEnd (succeeded slept) =
      (n : ℕ) × (n ≤ 3) × IsTransient n × (outcome (suc n) ≡ none) × (slept ≤ 350)
  IsEnd (gave_up e slept) =
      (n : ℕ) × (n ≤ 3)
      × IsTransient n
      × (outcome (suc n) ≡ some e)
      × ((is_transient e ≡ false) ⊎ (n ≡ 3))
      × (slept ≤ 350)

  attempt_from-IsEnd :
      (fuel n slept : ℕ)
      → fuel + n ≡ 4
      → 0 < fuel
      → slept + 50 ≡ backoff n
      → IsTransient n
      → IsEnd (attempt_from fuel (suc n) (backoff n) slept outcome)
  unfolding IsEnd IsTransient attempt_from backoff
  attempt_from-IsEnd zero n slept h positive s before = absurd (omega arith)
  attempt_from-IsEnd (suc fuel) n slept h positive s before =
      let within : slept ≤ 350 = omega (arith, backoff_le n (omega arith)) in
      elim (Option-cases (outcome (suc n))) [
        | inl fine ↦ rw (attempt_from, fine) (n, omega arith, before, fine, within)
        | inr (e, error) ↦ elim (Bool-cases (is_transient e && leb (suc n) 3)) [
          | inl again ↦
              rw (attempt_from, error, again)
                (attempt_from-IsEnd fuel (suc n) (slept + backoff n) (omega arith)
                  (ground (arith, again)) (omega arith) (before, (e, error, ground arith)))
          | inr never ↦
              rw (attempt_from, error, never) (n, omega arith, before, error, ground arith, within)
        ]
      ]

  -- Writing an item ends, whatever fails: after at most four attempts, of which all but the last failed
  -- by a transient error, it is stored by an attempt that did not fail, or given up for the error of
  -- the last attempt, which is not transient or is the fourth one's; and it has slept 350 ms at most.
  pub write_item_with_retry-IsEnd : IsEnd (write_item_with_retry outcome)
  unfolding write_item_with_retry IsTransient backoff
  write_item_with_retry-IsEnd = attempt_from-IsEnd 4 0 0 refl (omega arith) refl tt
