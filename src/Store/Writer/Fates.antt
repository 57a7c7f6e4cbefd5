-- ===== src/Store/Writer/Fates.antt =====
-- What becomes of every item that src/meshchat/services/monitor_store.py accepts for writing.
use orc_mesh.Prelude.{
  ℕ, suc, ◌+◌, ◌≡◌, ◌≤◌, refl, arith, ap, sym, ◌∙◌, false, Option, none, some, List, [], ◌∷◌, ◌++◌,
  map, inl, inr, Bool-cases, Option-cases, both_branches, leb, length, keep, keep-append,
  append-nil, append_assoc, Bool, true, if◌then◌else◌,
}
use orc_mesh.Prelude.Int.{ℤ}
use orc_mesh.Prelude.Text.{Text}
use orc_mesh.Store.Tables.{Database}
use orc_mesh.Store.Items.{Item, SqlError, is_write, cutoff}
use orc_mesh.Store.Writer.{
  Store, Environment, Event, Results, verdict, commit_batch, record_failures, record_error, fate,
  vacuums, answer_backups, write_items, transact, transaction, prune_on, prune_all, flush,
  flush_pending, finish, turn_on, turn, take_turn, step, retain_days, backup_ids, batch_size,
}
use orc_mesh.Store.Writer.Log.{
  fated, count_failed, IsQuiet, fated-append, count_failed-append, IsQuiet-append, vacuums-IsQuiet,
  answer_backups-IsQuiet, fated-map, count_failed-map, count_errors, count_completed, IsFrame,
  record_failures-IsFrame, record_completed-IsFrame, record_failures-failed_count,
  record_completed-failed_count,
}

-- the items of the queue, without the sentinel
unfoldable pub queued : List (Option Item) → List Item
queued [] = []
queued (none ∷ q) = queued q
queued (some item ∷ q) = item ∷ queued q

pub queued-append : (p q : List (Option Item)) → queued (p ++ q) ≡ queued p ++ queued q
unfolding queued
queued-append [] q = refl
queued-append (none ∷ p) q = queued-append p q
queued-append (some item ∷ p) q = ap (λ (r : List Item). item ∷ r) (queued-append p q)

-- the items to be written that wait in the batch and the queue
unfoldable pub waiting : Store → List Item
waiting s = keep is_write (s.batch ++ queued s.queue)

module _ (isoformat : ℤ → Text) where
  prune_on-IsQuiet :
      (env : Environment) (days : ℕ) (db : Database) → IsQuiet (prune_on isoformat env days db).1
  unfolding prune_on IsQuiet fated count_failed
  prune_on-IsQuiet env days db = elim (Bool-cases (env.prune_fails days)) [
    | inl bad ↦ rw bad (refl, refl)
    | inr fine ↦ elim (Option-cases (cutoff isoformat env.now days)) [
      | inl early ↦ rw (fine, early) (refl, refl)
      | inr (t, late) ↦ rw (fine, late) (refl, refl)
    ]
  ]

  prune_all-IsQuiet :
      (env : Environment) (ds : List ℕ) (db : Database) → IsQuiet (prune_all isoformat env ds db).1
  unfolding prune_all IsQuiet fated count_failed
  prune_all-IsQuiet env [] db = (refl, refl)
  prune_all-IsQuiet env (days ∷ ds) db =
      let (db', events) = prune_on isoformat env days db in
      IsQuiet-append events (prune_all isoformat env ds db').1 (prune_on-IsQuiet env days db)
        (prune_all-IsQuiet env ds db')

  -- the results of a batch: its items, in order, each failed or completed
  AreResults : Results → List Item → Type 0
  AreResults rs items =
      (fated (map fate rs) ≡ items)
      × (count_failed (map fate rs) ≡ count_errors rs)
      × (count_errors rs + count_completed rs ≡ length items)

  AreResults-cons :
      (item : Item) (error : Option SqlError) (rolled_back : Bool) (rs : Results)
      (items : List Item)
      → AreResults rs items
      → AreResults ((item, verdict error rolled_back) ∷ rs) (item ∷ items)
  unfolding AreResults verdict fated count_failed fate count_errors count_completed
  AreResults-cons item (some e) rolled_back rs items (a, b, c) =
      (ap (λ (r : List Item). item ∷ r) a, omega arith, omega arith)
  AreResults-cons item none true rs items (a, b, c) =
      (ap (λ (r : List Item). item ∷ r) a, b, omega arith)
  AreResults-cons item none false rs items (a, b, c) =
      (ap (λ (r : List Item). item ∷ r) a, b, omega arith)

  write_items-results :
      (env : Environment) (i : ℕ) (live : Bool) (base : Database) (items : List Item)
      (db : Database)
      → AreResults (write_items isoformat env i live base items db).1 items
  unfolding write_items
  write_items-results env i live base [] db =
      unfold AreResults fated count_failed count_errors count_completed in (refl, refl, refl)
  write_items-results env i live base (item ∷ items) db =
      AreResults-cons item _ _ _ items (write_items-results env (suc i) _ _ items _)

  -- A transaction settles its items, counts the ones that failed, and changes no queue.
  unfoldable pub IsSettled : List Item → Store → Store × List Event → Type 0
  IsSettled items s (s', events) =
      (fated events ≡ items)
      × (s'.failed_count ≡ s.failed_count + count_failed events)
      × IsFrame s s'

  commit_batch-IsSettled :
      (commit : Option SqlError) (db : Database) (rs : Results) (items : List Item) (s : Store)
      → AreResults rs items
      → IsSettled items s (commit_batch commit db rs items s)
  unfolding IsSettled commit_batch IsFrame record_error AreResults
  commit_batch-IsSettled none db rs items s (a, b, c) =
      (a, omega (arith, b, record_failures-failed_count rs s), record_failures-IsFrame rs s)
  commit_batch-IsSettled (some e) db rs items s (a, b, c) =
      let counted : Store = record_failures rs s in
      let (q, ba, st, ru, dr) = record_failures-IsFrame rs s in
      let (q', ba', st', ru', dr') = record_completed-IsFrame e rs (record_error e counted) in
      (
        (fated-map items).0,
        omega (
          arith,
          c,
          (count_failed-map items).0,
          record_failures-failed_count rs s,
          record_completed-failed_count e rs (record_error e counted),
        ),
        (q' ∙ q, ba' ∙ ba, st' ∙ st, ru' ∙ ru, dr' ∙ dr),
      )

  transact-IsSettled :
      (env : Environment) (begin commit : Option SqlError) (items : List Item) (s : Store)
      → IsSettled items s (transact isoformat env begin commit items s)
  unfolding transact
  transact-IsSettled env (some e) commit items s =
      unfold IsSettled IsFrame record_error in
      (
        (fated-map items).1,
        omega (arith, (count_failed-map items).1),
        (refl, refl, refl, refl, refl),
      )
  transact-IsSettled env none commit items s =
      let (end, rs) = write_items isoformat env 0 true s.database items s.database in
      commit_batch-IsSettled (if end.1 then commit else none) end.0 rs items s
        (write_items-results env 0 true s.database items s.database)

  transaction-IsSettled :
      (env : Environment) (items : List Item) (s : Store)
      → IsSettled items s (transaction isoformat env items s)
  unfolding transaction IsSettled fated count_failed IsFrame
  transaction-IsSettled env [] s = (refl, omega arith, (refl, refl, refl, refl, refl))
  transaction-IsSettled env (item ∷ items) s =
      transact-IsSettled env env.begin_error env.commit_error (item ∷ items) s

  pub flush-IsSettled :
      (env : Environment) (batch : List Item) (s : Store)
      → IsSettled (keep is_write batch) s (flush isoformat env batch s)
  unfolding flush IsSettled IsFrame IsQuiet
  flush-IsSettled env batch s =
      let (s', fates) = transaction isoformat env (keep is_write batch) s in
      let (a, b, frame) = transaction-IsSettled env (keep is_write batch) s in
      let answers = answer_backups env s'.database (backup_ids batch) in
      let (db, prunings) = prune_all isoformat env (retain_days batch) s'.database in
      let quiet : IsQuiet (answers ++ (vacuums batch ++ prunings)) =
        IsQuiet-append answers (vacuums batch ++ prunings)
          (answer_backups-IsQuiet env s'.database (backup_ids batch))
          (IsQuiet-append (vacuums batch) prunings (vacuums-IsQuiet batch)
            (prune_all-IsQuiet env (retain_days batch) s'.database)) in
      (
        fated-append fates (answers ++ (vacuums batch ++ prunings))
            ∙ rw (quiet.0, a) (append-nil (keep is_write batch)),
        omega
            (arith, b, quiet.1, count_failed-append fates (answers ++ (vacuums batch ++ prunings))),
        frame,
      )

  -- After a turn each item that waited has a fate or waits, in their order; the failures are counted,
  -- nothing is dropped, and the queue is no longer.
  unfoldable pub IsBalanced : Store → Store × List Event → Type 0
  IsBalanced s (s', events) =
      (waiting s ≡ fated events ++ waiting s')
      × (s'.failed_count ≡ s.failed_count + count_failed events)
      × (s'.dropped_count ≡ s.dropped_count)
      × (length s'.queue ≤ length s.queue)

  flush_pending-IsBalanced :
      (env : Environment) (batch : List Item) (s : Store)
      → s.batch ≡ batch
      → IsBalanced s (flush_pending isoformat env batch s)
  unfolding flush_pending IsBalanced fated count_failed waiting IsSettled IsFrame
  flush_pending-IsBalanced env [] s e = (refl, omega arith, refl, omega arith)
  flush_pending-IsBalanced env (item ∷ items) s e =
      let (a, b, (q, ba, st, ru, dr)) =
        flush-IsSettled env (item ∷ items) (record s { batch = [] }) in
      (
        rw (e, a, q, ba) (keep-append is_write (item ∷ items) (queued s.queue)),
        b,
        dr,
        rw q (omega arith),
      )

  turn_on-IsBalanced :
      (env : Environment) (queue : List (Option Item)) (s : Store)
      → s.queue ≡ queue
      → IsBalanced s (turn_on isoformat env queue s)
  unfolding turn_on finish IsBalanced waiting queued fated count_failed
  turn_on-IsBalanced env [] s e =
      both_branches (IsBalanced s) s.stop (finish isoformat env s)
        (flush_pending isoformat env s.batch s)
        (flush_pending-IsBalanced env s.batch (record s { running = false }) refl)
        (flush_pending-IsBalanced env s.batch s refl)
  turn_on-IsBalanced env (none ∷ queue) s e =
      let (a, b, dr, q) =
        flush_pending-IsBalanced env s.batch (record s { queue = queue; running = false }) refl in
      (rw e a, b, dr, rw e (omega (arith, q)))
  turn_on-IsBalanced env (some item ∷ queue) s e =
      let batch : List Item = s.batch ++ item ∷ [] in
      let s' : Store = record s { queue = queue; batch = batch } in
      let taken : waiting s ≡ waiting s' =
        ap (λ q. keep is_write (s.batch ++ queued q)) e
        ∙ ap (keep is_write) (sym (append_assoc s.batch (item ∷ []) (queued queue))) in
      let (a, b, dr, q) = flush_pending-IsBalanced env batch s' refl in
      both_branches (IsBalanced s) (leb batch_size (length batch))
        (flush_pending isoformat env batch s') (s', []) (taken ∙ a, b, dr, rw e (omega (arith, q)))
        (taken, omega arith, refl, rw e (omega arith))

  pub take_turn-IsBalanced :
      (env : Environment) (s : Store) → IsBalanced s (step isoformat (take_turn env) s)
  unfolding step turn IsBalanced fated count_failed
  take_turn-IsBalanced env s =
      both_branches (IsBalanced s) s.running (turn isoformat env s) (s, [])
        (turn_on-IsBalanced env s.queue s refl) (refl, omega arith, refl, omega arith)
