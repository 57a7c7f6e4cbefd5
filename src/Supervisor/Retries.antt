-- ===== src/Supervisor/Retries.antt =====
-- When the supervisor retries, and when it keeps quiet.
use orc_mesh.Prelude.{◌≡◌, refl, Bool, true, false, List, [], ◌∷◌, arith, is_some, All}
use orc_mesh.Supervisor.{
  Supervisor, Event, set_profile, cancel, connected, disconnected, error_occurred, timeout,
  Settings, new_supervisor, step, run,
}

pub record Inv (s : Supervisor) : Type 0 where
  pub armed : is_some s.timer ≡ true → s.active ≡ true
  pub retrying : s.active ≡ true → (s.was_connected ≡ true) × (is_some s.profile ≡ true)

new_supervisor-Inv : (store : Settings) → Inv (new_supervisor store)
unfolding new_supervisor
new_supervisor-Inv store = ground arith

step-Inv : (e : Event) (s : Supervisor) → Inv s → Inv (step e s).0
unfolding step
step-Inv (disconnected reason) s h = ground arith
step-Inv _ s h = ground arith

run-Inv : (es : List Event) (s : Supervisor) → Inv s → Inv (run es s).0
unfolding run
run-Inv [] s h = h
run-Inv (e ∷ es) s h = run-Inv es (step e s).0 (step-Inv e s h)

-- After any events from a new supervisor, a pending retry implies that retrying is on, and that there
-- was a good connection, with a profile to connect to.
pub run_lem : (es : List Event) (store : Settings) → Inv (run es (new_supervisor store)).0
run_lem es store = run-Inv es (new_supervisor store) (new_supervisor-Inv store)

abbrev pub is_connected : Event → Bool
is_connected connected = true
is_connected _ = false

record IsQuiet (s : Supervisor) : Type 0 where
  idle : s.active ≡ false
  unconnected : s.was_connected ≡ false

step-IsQuiet :
    (e : Event) (s : Supervisor)
    → is_connected e ≡ false
    → IsQuiet s
    → ((step e s).1 ≡ []) × IsQuiet (step e s).0
unfolding step
step-IsQuiet (set_profile p) s h q = (refl, record { idle = q.idle; unconnected = q.unconnected })
step-IsQuiet cancel s h q = (refl, record { idle = refl; unconnected = refl })
step-IsQuiet connected s h q = absurd (ground arith)
step-IsQuiet (disconnected reason) s h q = (refl, ground arith)
step-IsQuiet (error_occurred code) s h q = (ground arith, ground arith)
step-IsQuiet timeout s h q = (ground arith, ground arith)

run-IsQuiet :
    (es : List Event) (s : Supervisor)
    → All (λ e. is_connected e ≡ false) es
    → IsQuiet s
    → (run es s).1 ≡ []
unfolding run
run-IsQuiet [] s h q = refl
run-IsQuiet (e ∷ es) s h q =
    let (none_now, q') = step-IsQuiet e s h.0 q in rw (none_now, run-IsQuiet es (step e s).0 h.1 q')

-- After `cancel` the supervisor asks the controller for nothing, whatever happens, until a connection
-- succeeds again.
pub run-cancel :
    (es : List Event) (s : Supervisor)
    → All (λ e. is_connected e ≡ false) es
    → (run (cancel ∷ es) s).1 ≡ []
unfolding run step
run-cancel es s h =
    run-IsQuiet es (step cancel s).0 h (unfold step in record { idle = refl; unconnected = refl })

-- A new supervisor never retries a first connection: it asks for nothing until one has succeeded.
run-new_supervisor :
    (es : List Event) (store : Settings)
    → All (λ e. is_connected e ≡ false) es
    → (run es (new_supervisor store)).1 ≡ []
run-new_supervisor es store h =
    run-IsQuiet es (new_supervisor store) h
      (unfold new_supervisor in record { idle = refl; unconnected = refl })
