-- ===== src/Store/Writer/Runs.antt =====
-- Whole runs of the writer of src/meshchat/services/monitor_store.py: what becomes of every item that
-- is sent, and what is counted.
use orc_mesh.Prelude.{
  ℕ, zero, suc, true, ◌+◌, ◌≡◌, ◌≤◌, refl, arith, ap, sym, ◌∙◌, none, some, List, [], ◌∷◌, ◌++◌,
  inl, inr, Bool-cases, ltb, length, length-append, keep, keep-append, append-nil, append_assoc,
  if◌then◌else◌,
}
use orc_mesh.Prelude.Int.{ℤ}
use orc_mesh.Prelude.Text.{Text}
use orc_mesh.Store.Items.{Item, is_write}
use orc_mesh.Store.Writer.{
  Store, Action, send, stop_writer, wake_put, take_turn, step, run, enqueue, put_sentinel, shutdown,
  wake, queue_capacity,
}
use orc_mesh.Store.Writer.Log.{fated, count_failed, fated-append, count_failed-append}
use orc_mesh.Store.Writer.Fates.{queued, queued-append, waiting, IsBalanced, take_turn-IsBalanced}

-- how many items are sent in a run
pub count_sent : List Action → ℕ
count_sent [] = 0
count_sent (send item ∷ actions) = suc (count_sent actions)
count_sent (stop_writer ∷ actions) = count_sent actions
count_sent (wake_put ∷ actions) = count_sent actions
count_sent (take_turn env ∷ actions) = count_sent actions

-- Putting the sentinel counts nothing, and waits where the queue is full.
IsUncounted : Store → Store → Type 0
IsUncounted s s' =
    (s'.failed_count ≡ s.failed_count)
    × (s'.dropped_count ≡ s.dropped_count)
    × (length s'.queue ≤ queue_capacity)

put_sentinel-IsUncounted :
    (s : Store) → length s.queue ≤ queue_capacity → IsUncounted s (put_sentinel s)
unfolding IsUncounted put_sentinel
put_sentinel-IsUncounted s h = elim (Bool-cases (ltb (length s.queue) queue_capacity)) [
  | inl room ↦ rw room (refl, refl, ground (arith, length-append s.queue (none ∷ []), room))
  | inr full ↦ rw full (refl, refl, h)
]

wake-IsUncounted : (n : ℕ) (s : Store) → length s.queue ≤ queue_capacity → IsUncounted s (wake n s)
unfolding wake IsUncounted
wake-IsUncounted zero s h = (refl, refl, h)
wake-IsUncounted (suc n) s h = put_sentinel-IsUncounted (record s { blocked = n }) h

-- What waits to be written stays.
put_sentinel-waiting : (s : Store) → waiting (put_sentinel s) ≡ waiting s
unfolding put_sentinel waiting queued
put_sentinel-waiting s = elim (Bool-cases (ltb (length s.queue) queue_capacity)) [
  | inl room ↦ rw (room, queued-append s.queue (none ∷ []), append-nil (queued s.queue)) refl
  | inr full ↦ rw full refl
]

wake-waiting : (n : ℕ) (s : Store) → waiting (wake n s) ≡ waiting s
unfolding wake waiting
wake-waiting zero s = refl
wake-waiting (suc n) s = put_sentinel-waiting (record s { blocked = n })

module _ (isoformat : ℤ → Text) where
  -- the items that are sent and accepted in a run
  pub accepted : List Action → Store → List Item
  accepted [] s = []
  accepted (send item ∷ actions) s =
      let (ok, s') = enqueue item s in
      if ok then item ∷ accepted actions s' else accepted actions s'
  accepted (stop_writer ∷ actions) s = accepted actions (shutdown s)
  accepted (wake_put ∷ actions) s = accepted actions (wake s.blocked s)
  accepted (take_turn env ∷ actions) s = accepted actions (step isoformat (take_turn env) s).0

  waiting-send :
      (item : Item) (s : Store)
      → waiting (record s { queue = s.queue ++ some item ∷ [] })
        ≡ waiting s ++ keep is_write (item ∷ [])
  unfolding waiting queued
  waiting-send item s =
      ap (keep is_write) (
        ap (λ (q : List Item). s.batch ++ q) (queued-append s.queue (some item ∷ []))
        ∙ sym (append_assoc s.batch (queued s.queue) (item ∷ [])))
      ∙ keep-append is_write (s.batch ++ queued s.queue) (item ∷ [])

  -- Over any run, whatever fails: the items that waited at first, followed by the ones that were
  -- accepted during the run, are the items that the log gives a fate, followed by those that wait at
  -- the end. So every accepted write has exactly one fate (written, failed or lost) or still waits, and
  -- the writes are settled in the order in which they were accepted.
  pub run-fated :
      (actions : List Action) (s : Store)
      → waiting s ++ keep is_write (accepted actions s)
        ≡ fated (run isoformat actions s).1 ++ waiting (run isoformat actions s).0
  unfolding run accepted fated IsBalanced step enqueue waiting
  run-fated [] s = append-nil (waiting s)
  run-fated (send item ∷ actions) s = elim (Bool-cases (ltb (length s.queue) queue_capacity)) [
    | inl room ↦
        let s' : Store = record s { queue = s.queue ++ some item ∷ [] } in
        let later : List Item = keep is_write (accepted actions s') in
        let in_queue : waiting s ++ keep is_write (item ∷ accepted actions s')
            ≡ waiting s' ++ later =
          ap (λ r. waiting s ++ r) (keep-append is_write (item ∷ []) (accepted actions s'))
          ∙ sym (append_assoc (waiting s) (keep is_write (item ∷ [])) later)
          ∙ ap (λ r. r ++ later) (sym (waiting-send item s)) in
        rw room (in_queue ∙ run-fated actions s')
    | inr full ↦ rw full (run-fated actions (record s { dropped_count = suc s.dropped_count }))
  ]
  run-fated (stop_writer ∷ actions) s =
      let same : waiting (shutdown s) ≡ waiting s =
        unfold shutdown in put_sentinel-waiting (record s { stop = true }) in
      rw⁻¹ same (run-fated actions (shutdown s))
  run-fated (wake_put ∷ actions) s =
      rw⁻¹ (wake-waiting s.blocked s) (run-fated actions (wake s.blocked s))
  run-fated (take_turn env ∷ actions) s =
      let (s', events) = step isoformat (take_turn env) s in
      let later : List Item = keep is_write (accepted actions s') in
      let (end, log) = run isoformat actions s' in
      ap (λ r. r ++ later) (take_turn-IsBalanced isoformat env s).0
      ∙ append_assoc (fated events) (waiting s') later
      ∙ ap (λ r. fated events ++ r) (run-fated actions s')
      ∙ sym (append_assoc (fated events) (fated log) (waiting end))
      ∙ ap (λ r. r ++ waiting end) (sym (fated-append events log))

  -- Over any run from a queue within its capacity: the failures that are counted are the ones that the
  -- log names; each item that was sent is accepted or counted as dropped; and the queue stays within
  -- its capacity of 10000.
  pub run-counts :
      (actions : List Action) (s : Store)
      → length s.queue ≤ queue_capacity
      → let (end, log) = run isoformat actions s in
        (end.failed_count ≡ s.failed_count + count_failed log)
        × (end.dropped_count + length (accepted actions s) ≡ s.dropped_count + count_sent actions)
        × (length end.queue ≤ queue_capacity)
  unfolding run accepted count_failed count_sent IsBalanced step enqueue shutdown IsUncounted
  run-counts [] s h = (omega arith, omega arith, h)
  run-counts (send item ∷ actions) s h = elim (Bool-cases (ltb (length s.queue) queue_capacity)) [
    | inl room ↦
        let s' : Store = record s { queue = s.queue ++ some item ∷ [] } in
        let (f, d, q) =
          run-counts actions s' (ground (arith, length-append s.queue (some item ∷ []), room)) in
        rw room (f, omega arith, q)
    | inr full ↦
        let (f, d, q) = run-counts actions (record s { dropped_count = suc s.dropped_count }) h in
        rw full (f, omega arith, q)
  ]
  run-counts (stop_writer ∷ actions) s h =
      let (f, d, q) = put_sentinel-IsUncounted (record s { stop = true }) h in
      let (f', d', q') = run-counts actions (shutdown s) (unfold shutdown in q) in
      (omega (arith, f, f'), omega (arith, d, d'), q')
  run-counts (wake_put ∷ actions) s h =
      let (f, d, q) = wake-IsUncounted s.blocked s h in
      let (f', d', q') = run-counts actions (wake s.blocked s) q in
      (omega (arith, f, f'), omega (arith, d, d'), q')
  run-counts (take_turn env ∷ actions) s h =
      let (s', events) = step isoformat (take_turn env) s in
      let (a, b, dr, q) = take_turn-IsBalanced isoformat env s in
      let (f, d, c) = run-counts actions s' (omega arith) in
      (omega (arith, count_failed-append events (run isoformat actions s').1), omega arith, c)
