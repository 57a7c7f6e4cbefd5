-- ===== src/Supervisor/Outage.antt =====
-- The sequence of retries during an outage.
use native.Mathlib.Nat.{zero-add}
use orc_mesh.Prelude.{
  ℕ, zero, suc, ◌+◌, ◌*◌, ◌≡◌, refl, ap, ◌∙◌, true, false, none, some, List, [], ◌∷◌, ◌++◌, arith,
  min, length, ◌-◌,
}
use orc_mesh.Prelude.Text.{codes}
use orc_mesh.Supervisor.{
  Supervisor, ConnectionProfile, Event, ErrorCode, Action, enter_reconnecting, connect_tcp,
  connect_serial, connect_ble, connection_lost, error_occurred, timeout, reconnect, seconds_at,
  backoff_seconds, step, run,
}

-- each retry is started by the timer, and fails with an error of the controller
pub failed_retries : List ErrorCode → List Event
failed_retries [] = []
failed_retries (code ∷ codes) = timeout ∷ error_occurred code ∷ failed_retries codes

-- The call of the controller that a profile asks for, by its transport.
pub data Calls (p : ConnectionProfile) : Action → Type 0 where
  over_tcp : p.transport ≡ codes "tcp" → Calls p (connect_tcp p.tcp_host p.tcp_port)
  over_serial : p.transport ≡ codes "serial" → Calls p (connect_serial p.serial_port)
  over_ble : p.transport ≡ codes "ble" → Calls p (connect_ble p.ble_address)

reconnect-Calls : (p : ConnectionProfile) (call : Action) → Calls p call → reconnect p ≡ call ∷ []
unfolding reconnect
reconnect-Calls p _ (over_tcp e) = rw e refl
reconnect-Calls p _ (over_serial e) = rw e refl
reconnect-Calls p _ (over_ble e) = rw e refl

-- what is expected for failed retries: `call`, and the announcement of the attempt after it
pub expected_calls : Action → ℕ → List ErrorCode → List Action
expected_calls call n [] = []
expected_calls call n (code ∷ errors) =
    call ∷ enter_reconnecting (n + 2) ∷ expected_calls call (n + 1) errors

-- the delay before the retry that follows `n` failed ones, in milliseconds
abbrev pub delay_ms : ℕ → ℕ
delay_ms zero = 2_000
delay_ms (suc zero) = 5_000
delay_ms (suc (suc zero)) = 15_000
delay_ms (suc (suc (suc zero))) = 30_000
delay_ms (suc (suc (suc (suc n)))) = 60_000

-- The table of the code has these delays.
seconds_at-delay_ms :
    (n : ℕ) → seconds_at backoff_seconds (min n (length backoff_seconds - 1)) * 1000 ≡ delay_ms n
seconds_at-delay_ms zero = refl
seconds_at-delay_ms (suc zero) = refl
seconds_at-delay_ms (suc (suc zero)) = refl
seconds_at-delay_ms (suc (suc (suc zero))) = refl
seconds_at-delay_ms (suc (suc (suc (suc n)))) =
    let e : min (suc (suc (suc (suc n)))) 4 ≡ 4 = omega arith in rw e refl

record IsRetrying (p : ConnectionProfile) (n : ℕ) (s : Supervisor) : Type 0 where
  profile : s.profile ≡ some p
  active : s.active ≡ true
  attempt : s.attempt ≡ n
  timer : s.timer ≡ some (delay_ms n)

step-timeout :
    (p : ConnectionProfile) (n : ℕ) (s : Supervisor)
    → IsRetrying p n s
    → step timeout s ≡ (record s { timer = none }, reconnect p)
unfolding step
step-timeout p n s r = simp (r.timer, r.active, r.profile)

step-error_occurred :
    (code : ErrorCode) (s : Supervisor)
    → s.active ≡ true
    → step (error_occurred code) s ≡ (
      record s { attempt = s.attempt + 1; timer = some (delay_ms (s.attempt + 1)) },
      enter_reconnecting (s.attempt + 1 + 1) ∷ [],
    )
unfolding step
step-error_occurred code s h =
    simp (h, ap (λ (t : ℕ). some t) (seconds_at-delay_ms (s.attempt + 1)))

add_one_one : (n : ℕ) → n + 1 + 1 ≡ n + 2
add_one_one n = omega arith

-- the state after one failed retry
next : Supervisor → Supervisor
next s = record s { attempt = s.attempt + 1; timer = some (delay_ms (s.attempt + 1)) }

next-IsRetrying :
    (p : ConnectionProfile) (n : ℕ) (s : Supervisor)
    → IsRetrying p n s
    → IsRetrying p (n + 1) (next s)
unfolding next
next-IsRetrying p n s r = record {
  profile = r.profile;
  active = r.active;
  attempt = ap (λ (k : ℕ). k + 1) r.attempt;
  timer = ap (λ (k : ℕ). some (delay_ms (k + 1))) r.attempt;
}

two_steps :
    (p : ConnectionProfile) (n : ℕ) (code : ErrorCode) (s : Supervisor)
    → IsRetrying p n s
    → ((step timeout s).1 ≡ reconnect p)
      × (step (error_occurred code) (step timeout s).0 ≡ (next s, enter_reconnecting (n + 2) ∷ []))
unfolding next
two_steps p n code s r =
    let e : s.attempt + 1 + 1 ≡ n + 2 = omega (arith, r.attempt) in
    simp (step-timeout p n s r) (
      refl,
      step-error_occurred code (record s { timer = none }) r.active
          ∙ ap (λ (k : ℕ). (next s, enter_reconnecting k ∷ [])) e,
    )

run-cons :
    (e : Event) (es : List Event) (s : Supervisor)
    → run (e ∷ es) s ≡ ((run es (step e s).0).0, (step e s).1 ++ (run es (step e s).0).1)
unfolding run
run-cons e es s = refl

run-failed_retries :
    (p : ConnectionProfile) (n : ℕ) (code : ErrorCode) (codes : List ErrorCode) (s : Supervisor)
    → IsRetrying p n s
    → run (failed_retries (code ∷ codes)) s ≡ (
      (run (failed_retries codes) (next s)).0,
      reconnect p ++ enter_reconnecting (n + 2) ∷ (run (failed_retries codes) (next s)).1,
    )
unfolding failed_retries
run-failed_retries p n code codes s r =
    let (first, second) = two_steps p n code s r in simp (run-cons, first, second)

run_retries :
    (p : ConnectionProfile) (call : Action) (n : ℕ) (errors : List ErrorCode) (s : Supervisor)
    → Calls p call
    → IsRetrying p n s
    → let after = run (failed_retries errors) s in
      IsRetrying p (n + length errors) after.0 × (after.1 ≡ expected_calls call n errors)
unfolding expected_calls
run_retries p call n [] s made r =
    let e : n + 0 ≡ n = omega arith in
    (rw e (unfold run failed_retries in r), unfold run failed_retries in refl)
run_retries p call n (code ∷ errors) s made r =
    let (still, calls) =
      run_retries p call (n + 1) errors (next s) made (next-IsRetrying p n s r) in
    let e : n + suc (length errors) ≡ n + 1 + length errors = omega arith in
    simp (run-failed_retries p n code errors s r)
      (rw e still, rw (reconnect-Calls p call made, calls) refl)

-- When the connection is lost of a supervisor that has a profile for TCP, serial or BLE, was connected
-- and is not retrying, and the retries fail with any errors, the supervisor announces the attempts
-- 1, 2, … and calls the controller once for each timeout, for the transport of the profile with its host
-- and port, its serial port or its BLE address; after k failures it is still retrying, and waits
-- 2, 5, 15, 30 seconds for k = 0 to 3, and 60 seconds from k = 4 on.
pub lost_connection :
    (p : ConnectionProfile) (call : Action) (errors : List ErrorCode) (s : Supervisor)
    → Calls p call
    → s.profile ≡ some p
    → s.was_connected ≡ true
    → s.active ≡ false
    → let after = run (error_occurred connection_lost ∷ failed_retries errors) s in
      (after.0.active ≡ true)
      × (after.0.attempt ≡ length errors)
      × (after.0.timer ≡ some (delay_ms (length errors)))
      × (after.1 ≡ enter_reconnecting 1 ∷ expected_calls call 0 errors)
lost_connection p call errors s made hp hw ha =
    let (still, calls) =
      run_retries p call 0 errors lost made
        (record { profile = hp; active = refl; attempt = refl; timer = refl }) in
    simp (run-cons, first)
      (
        still.active,
        still.attempt ∙ omega arith,
        still.timer ∙ ap (λ (k : ℕ). some (delay_ms k)) (zero-add (length errors)),
        rw calls,
      )
  where
    lost : Supervisor
    lost = record s { active = true; attempt = 0; timer = some 2000 }

    first : step (error_occurred connection_lost) s ≡ (lost, enter_reconnecting 1 ∷ [])
    first = unfold step in simp (hp, hw, ha)
