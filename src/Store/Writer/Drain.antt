-- ===== src/Store/Writer/Drain.antt =====
-- The end of the writer of src/meshchat/services/monitor_store.py, after its shutdown.
use orc_mesh.Prelude.{
  ◌+◌, ◌≡◌, ◌≤◌, refl, arith, ap, sym, ◌∙◌, true, false, Option, none, some, List, [], ◌∷◌, ◌++◌,
  map, both_branches, leb, length, keep, keep-append, append-nil, append_assoc, if_true, if_false,
}
use orc_mesh.Prelude.Int.{ℤ}
use orc_mesh.Prelude.Text.{Text}
use orc_mesh.Store.Items.{Item, is_write}
use orc_mesh.Store.Writer.{
  Store, Environment, Event, flush_pending, finish, turn_on, turn, take_turn, step, run, batch_size,
}
use orc_mesh.Store.Writer.Log.{fated, fated-append, IsFrame}
use orc_mesh.Store.Writer.Fates.{IsSettled, flush-IsSettled}

-- the items before the sentinel
unfoldable pub before_sentinel : List (Option Item) → List Item
before_sentinel [] = []
before_sentinel (none ∷ queue) = []
before_sentinel (some item ∷ queue) = item ∷ before_sentinel queue

module _ (isoformat : ℤ → Text) where
  -- A batch was flushed and cleared, and the rest of the state kept.
  IsFlushed : List Item → Store → Store × List Event → Type 0
  IsFlushed batch s (s', events) =
      (fated events ≡ keep is_write batch)
      × (s'.batch ≡ [])
      × (s'.queue ≡ s.queue)
      × (s'.stop ≡ s.stop)
      × (s'.running ≡ s.running)

  flush_pending-IsFlushed :
      (env : Environment) (batch : List Item) (s : Store)
      → s.batch ≡ batch
      → IsFlushed batch s (flush_pending isoformat env batch s)
  unfolding IsFlushed flush_pending fated IsSettled IsFrame
  flush_pending-IsFlushed env [] s e = (refl, e, refl, refl, refl)
  flush_pending-IsFlushed env (item ∷ items) s e =
      let (a, b, (q, ba, st, ru, dr)) =
        flush-IsSettled isoformat env (item ∷ items) (record s { batch = [] }) in
      (a, ba, q, st, ru)

  -- the turn that takes an item
  IsTaken : Item → List (Option Item) → Store → Store × List Event → Type 0
  IsTaken item queue s (s', events) =
      (fated events ++ keep is_write s'.batch ≡ keep is_write (s.batch ++ item ∷ []))
      × (s'.queue ≡ queue)
      × (s'.stop ≡ s.stop)
      × (s'.running ≡ s.running)

  turn_on-IsTaken :
      (env : Environment) (item : Item) (queue : List (Option Item)) (s : Store)
      → IsTaken item queue s (turn_on isoformat env (some item ∷ queue) s)
  unfolding IsTaken turn_on fated IsFlushed
  turn_on-IsTaken env item queue s =
      let batch : List Item = s.batch ++ item ∷ [] in
      let s' : Store = record s { queue = queue; batch = batch } in
      let (a, ba, q, st, ru) = flush_pending-IsFlushed env batch s' refl in
      both_branches (IsTaken item queue s) (leb batch_size (length batch))
        (flush_pending isoformat env batch s') (s', [])
        (rw (a, ba) (append-nil (keep is_write batch)), q, st, ru) (refl, refl, refl, refl)

  -- the last turn
  IsLast : Store → Store × List Event → Type 0
  IsLast s (s', events) =
      (fated events ≡ keep is_write s.batch) × (s'.running ≡ false) × (s'.batch ≡ [])

  finish-IsLast : (env : Environment) (s : Store) → IsLast s (finish isoformat env s)
  unfolding IsLast finish IsFlushed
  finish-IsLast env s =
      let (a, ba, q, st, ru) =
        flush_pending-IsFlushed env s.batch (record s { running = false }) refl in
      (a, ru, ba)

  step-live :
      (env : Environment) (s : Store)
      → s.running ≡ true
      → step isoformat (take_turn env) s ≡ turn isoformat env s
  unfolding step
  step-live env s live = if_true s.running (turn isoformat env s) (s, []) live

  step-turn_on :
      (env : Environment) (queue : List (Option Item)) (s : Store)
      → s.running ≡ true
      → s.queue ≡ queue
      → step isoformat (take_turn env) s ≡ turn_on isoformat env queue s
  unfolding turn
  step-turn_on env queue s live e = step-live env s live ∙ ap (λ q. turn_on isoformat env q s) e

  turn_on-nil :
      (env : Environment) (s : Store)
      → s.stop ≡ true
      → turn_on isoformat env [] s ≡ finish isoformat env s
  unfolding turn_on
  turn_on-nil env s st =
      if_true s.stop (finish isoformat env s) (flush_pending isoformat env s.batch s) st

  step-ended :
      (env : Environment) (s : Store)
      → s.running ≡ false
      → step isoformat (take_turn env) s ≡ (s, [])
  unfolding step
  step-ended env s ended = if_false s.running (turn isoformat env s) (s, []) ended

  -- A writer that has ended does nothing.
  idle :
      (envs : List Environment) (s : Store)
      → s.running ≡ false
      → run isoformat (map take_turn envs) s ≡ (s, [])
  unfolding run
  idle [] s e = refl
  idle (env ∷ envs) s e = rw (step-ended env s e, idle envs s e) refl

  -- The writer has ended, with all that came before the sentinel.
  IsDrained : List Item → Store × List Event → Type 0
  IsDrained items (s, events) =
      (fated events ≡ keep is_write items) × (s.running ≡ false) × (s.batch ≡ [])

  -- the turns that follow the outcome of a first one
  then_turns : List Environment → Store × List Event → Store × List Event
  then_turns envs (s, events) =
      let (end, log) = run isoformat (map take_turn envs) s in (end, events ++ log)

  run-take_turn :
      (env : Environment) (envs : List Environment) (s : Store) (t : Store × List Event)
      → step isoformat (take_turn env) s ≡ t
      → run isoformat (map take_turn (env ∷ envs)) s ≡ then_turns envs t
  unfolding run then_turns
  run-take_turn env envs s t e = ap (then_turns envs) e

  last-IsDrained :
      (envs : List Environment) (s : Store) (t : Store × List Event)
      → IsLast s t
      → IsDrained s.batch (then_turns envs t)
  unfolding IsLast IsDrained then_turns
  last-IsDrained envs s (s', events) (a, ru, ba) =
      rw (idle envs s' ru, append-nil events) (a, ru, ba)

  taken-IsDrained :
      (envs : List Environment) (item : Item) (queue : List (Option Item)) (s : Store)
      (t : Store × List Event)
      → IsTaken item queue s t
      → IsDrained (t.0.batch ++ before_sentinel queue) (run isoformat (map take_turn envs) t.0)
      → IsDrained (s.batch ++ item ∷ before_sentinel queue) (then_turns envs t)
  unfolding IsTaken IsDrained then_turns
  taken-IsDrained envs item queue s (s', events) (a, q, st, ru) (all, ended, cleared) =
      let log : List Event = (run isoformat (map take_turn envs) s').1 in
      let rest : List Item = before_sentinel queue in
      let settled : fated (events ++ log) ≡ keep is_write (s.batch ++ item ∷ rest) =
        fated-append events log
        ∙ ap (λ r. fated events ++ r) (all ∙ keep-append is_write s'.batch rest)
        ∙ sym (append_assoc (fated events) (keep is_write s'.batch) (keep is_write rest))
        ∙ ap (λ r. r ++ keep is_write rest) a
        ∙ sym (keep-append is_write (s.batch ++ item ∷ []) rest)
        ∙ ap (keep is_write) (append_assoc s.batch (item ∷ []) rest) in
      (settled, ended, cleared)

  drain_queue :
      (envs : List Environment) (queue : List (Option Item)) (s : Store)
      → s.queue ≡ queue
      → s.stop ≡ true
      → s.running ≡ true
      → length queue + 1 ≤ length envs
      → IsDrained (s.batch ++ before_sentinel queue) (run isoformat (map take_turn envs) s)
  unfolding before_sentinel IsTaken turn_on
  drain_queue [] queue s e st live h = absurd (omega arith)
  drain_queue (env ∷ envs) [] s e st live h =
      let first = step-turn_on env [] s live e ∙ turn_on-nil env s st in
      rw (run-take_turn env envs s (finish isoformat env s) first, append-nil s.batch)
        (last-IsDrained envs s (finish isoformat env s) (finish-IsLast env s))
  drain_queue (env ∷ envs) (none ∷ queue) s e st live h =
      let s' : Store = record s { queue = queue } in
      let first = step-turn_on env (none ∷ queue) s live e in
      rw (run-take_turn env envs s (finish isoformat env s') first, append-nil s.batch)
        (last-IsDrained envs s' (finish isoformat env s') (finish-IsLast env s'))
  drain_queue (env ∷ envs) (some item ∷ queue) s e st live h =
      let t : Store × List Event = turn_on isoformat env (some item ∷ queue) s in
      let first = step-turn_on env (some item ∷ queue) s live e in
      let taken = turn_on-IsTaken env item queue s in
      let (a, q, st', ru) = taken in
      rw (run-take_turn env envs s t first) (
        taken-IsDrained envs item queue s t taken
          (drain_queue envs queue t.0 q (st' ∙ st) (ru ∙ live) (omega (arith, h))))

  -- Once a running writer is told to stop, it ends within one turn more than its queue is long,
  -- whatever fails in them, and by then every write that waited in its batch, or in its queue before
  -- the sentinel, has its fate, in the order of the queue.
  pub drain :
      (envs : List Environment) (s : Store)
      → s.stop ≡ true
      → s.running ≡ true
      → length s.queue + 1 ≤ length envs
      → let (end, log) = run isoformat (map take_turn envs) s in
        (fated log ≡ keep is_write (s.batch ++ before_sentinel s.queue))
        × (end.running ≡ false)
        × (end.batch ≡ [])
  unfolding IsDrained
  drain envs s st live h = drain_queue envs s.queue s refl st live h
