-- ===== src/Store/Writer/Replay.antt =====
-- The database that the writer of src/meshchat/services/monitor_store.py leaves, against its log.
use orc_mesh.Prelude.{
  ℕ, zero, suc, ◌≡◌, refl, arith, both_branches, ap, sym, ◌∙◌, false, Option, none, some, List, [],
  ◌∷◌, ◌++◌, map, inl, inr, Bool-cases, Option-cases, leb, length, keep, Bool, true, not, ◌&&◌,
  if◌then◌else◌, if_false,
}
use orc_mesh.Prelude.Int.{ℤ}
use orc_mesh.Prelude.Text.{Text}
use orc_mesh.Store.Tables.{Database}
use orc_mesh.Store.Items.{
  Item, SqlError, write_one, cutoff, delete_before, is_write, write_item_with_retry,
  ends_transaction,
}
use orc_mesh.Store.Writer.{
  Store, Environment, Event, written, failed, lost, backed_up, vacuumed, pruned, prune_failed,
  Results, kept, undone, refused, verdict, commit_batch, record_failures, record_completed,
  record_failed_item, record_error, fate, vacuums, answer_backups, error_of, store_item,
  write_items, transact, transaction, prune_on, prune_all, flush, flush_pending, finish, turn_on,
  turn, Action, send, stop_writer, wake_put, take_turn, step, run, retain_days, backup_ids, enqueue,
  put_sentinel, shutdown, wake, batch_size,
}

record_failures-database : (rs : Results) (s : Store) → (record_failures rs s).database ≡ s.database
unfolding record_failures record_failed_item
record_failures-database [] s = refl
record_failures-database ((item, kept) ∷ rs) s = record_failures-database rs s
record_failures-database ((item, undone) ∷ rs) s = record_failures-database rs s
record_failures-database ((item, refused e) ∷ rs) s =
    record_failures-database rs (record_failed_item item e s)

record_completed-database :
    (e : SqlError) (rs : Results) (s : Store) → (record_completed e rs s).database ≡ s.database
unfolding record_completed record_failed_item
record_completed-database e [] s = refl
record_completed-database e ((item, kept) ∷ rs) s =
    record_completed-database e rs (record_failed_item item e s)
record_completed-database e ((item, undone) ∷ rs) s =
    record_completed-database e rs (record_failed_item item e s)
record_completed-database e ((item, refused f) ∷ rs) s = record_completed-database e rs s

put_sentinel-database : (s : Store) → (put_sentinel s).database ≡ s.database
unfolding put_sentinel
put_sentinel-database s = ground arith

wake-database : (n : ℕ) (s : Store) → (wake n s).database ≡ s.database
unfolding wake
wake-database zero s = refl
wake-database (suc n) s = put_sentinel-database (record s { blocked = n })

module _ (isoformat : ℤ → Text) where
  -- what an event says was done to the tables
  unfoldable pub replay_event : Event → Database → Database
  replay_event (written item) db = write_one isoformat item db
  replay_event (failed item) db = db
  replay_event (lost item) db = db
  replay_event (backed_up id copy) db = db
  replay_event vacuumed db = db
  replay_event (pruned t) db = delete_before t db
  replay_event (prune_failed days) db = db

  unfoldable pub replay : List Event → Database → Database
  replay [] db = db
  replay (event ∷ events) db = replay events (replay_event event db)

  pub replay-append :
      (xs ys : List Event) (db : Database) → replay (xs ++ ys) db ≡ replay ys (replay xs db)
  unfolding replay
  replay-append [] ys db = refl
  replay-append (x ∷ xs) ys db = replay-append xs ys (replay_event x db)

  -- one item, by whether its transaction is open after it and at the end of the batch
  fate-replay :
      (item : Item) (error : Option SqlError) (db : Database)
      → (replay_event (fate (item, verdict error false)) db ≡ store_item isoformat item error db)
        × (replay_event (fate (item, verdict error true)) db ≡ db)
  unfolding fate verdict replay_event store_item
  fate-replay item none db = (refl, refl)
  fate-replay item (some e) db = (refl, refl)

  -- A transaction that has ended stays so.
  write_items-ended :
      (env : Environment) (i : ℕ) (live : Bool) (base : Database) (items : List Item)
      (db : Database)
      → live ≡ false
      → (write_items isoformat env i live base items db).0.1 ≡ false
  unfolding write_items
  write_items-ended env i true base items db h = absurd (cc)
  write_items-ended env i false base [] db h = refl
  write_items-ended env i false base (item ∷ items) db h =
      write_items-ended env (suc i) false _ items _ refl

  -- the item at hand: its transaction was `live` before it, `ended` with it, and is open at the `end`
  first-replay :
      (item : Item) (error : Option SqlError) (live ended end : Bool) (base db : Database)
      → (live ≡ false → base ≡ db)
      → (live && not ended ≡ false → end ≡ false)
      → let live' = live && not ended in
        let db' = store_item isoformat item error (if ended then base else db) in
        replay_event
          (fate (item, verdict error (live' && not end)))
          (if live && not end then base else db)
        ≡ (if live' && not end then (if live' then base else db') else db')
  first-replay item error true true true base db h k = absurd (let q : true ≡ false = k refl in cc)
  first-replay item error true true false base db h k = (fate-replay item error base).0
  first-replay item error true false true base db h k = (fate-replay item error db).0
  first-replay item error true false false base db h k = (fate-replay item error base).1
  first-replay item error false true end base db h k =
      (fate-replay item error db).0 ∙ ap (store_item isoformat item error) (sym (h refl))
  first-replay item error false false end base db h k = (fate-replay item error db).0

  -- The log of a batch replays on the database at hand, or on what was committed where the batch's
  -- transaction is rolled back later.
  Replays : Bool → Database → Database → (Database × Bool) × Results → Type 0
  Replays live base db (end, results) =
      replay (map fate results) (if live && not end.1 then base else db) ≡ end.0

  write_items-replay :
      (env : Environment) (i : ℕ) (live : Bool) (base : Database) (items : List Item)
      (db : Database)
      → (live ≡ false → base ≡ db)
      → Replays live base db (write_items isoformat env i live base items db)
  unfolding write_items replay Replays
  write_items-replay env i true base [] db h = refl
  write_items-replay env i false base [] db h = refl
  write_items-replay env i live base (item ∷ items) db h =
      let error = error_of (write_item_with_retry (env.outcome i)) in
      let ended = ends_transaction (env.outcome i) (env.ends i) in
      let live' : Bool = live && not ended in
      let db' : Database = store_item isoformat item error (if ended then base else db) in
      let base' : Database = if live' then base else db' in
      let (end, results) = write_items isoformat env (suc i) live' base' items db' in
      ap (replay (map fate results)) (
        first-replay item error live ended end.1 base db h
          (write_items-ended env (suc i) live' base' items db'))
      ∙ write_items-replay env (suc i) live' base' items db' (if_false live' base db')

  replay-failed : (items : List Item) (db : Database) → replay (map failed items) db ≡ db
  unfolding replay replay_event
  replay-failed [] db = refl
  replay-failed (item ∷ items) db = replay-failed items db

  replay-lost : (items : List Item) (db : Database) → replay (map lost items) db ≡ db
  unfolding replay replay_event
  replay-lost [] db = refl
  replay-lost (item ∷ items) db = replay-lost items db

  replay-vacuums : (items : List Item) (db : Database) → replay (vacuums items) db ≡ db
  unfolding replay replay_event vacuums
  replay-vacuums [] db = refl
  replay-vacuums (Item.vacuum ∷ items) db = replay-vacuums items db
  replay-vacuums (Item.packet x ∷ items) db = replay-vacuums items db
  replay-vacuums (Item.session x ∷ items) db = replay-vacuums items db
  replay-vacuums (Item.position x ∷ items) db = replay-vacuums items db
  replay-vacuums (Item.telemetry x ∷ items) db = replay-vacuums items db
  replay-vacuums (Item.node x ∷ items) db = replay-vacuums items db
  replay-vacuums (Item.message x ∷ items) db = replay-vacuums items db
  replay-vacuums (Item.message_status x ∷ items) db = replay-vacuums items db
  replay-vacuums (Item.setting k v ∷ items) db = replay-vacuums items db
  replay-vacuums (Item.prune x ∷ items) db = replay-vacuums items db
  replay-vacuums (Item.backup x ∷ items) db = replay-vacuums items db

  replay-answer_backups :
      (env : Environment) (copy : Database) (ids : List ℕ) (db : Database)
      → replay (answer_backups env copy ids) db ≡ db
  unfolding replay replay_event answer_backups
  replay-answer_backups env copy [] db = refl
  replay-answer_backups env copy (id ∷ ids) db = replay-answer_backups env copy ids db

  replay-prune_on :
      (env : Environment) (days : ℕ) (db : Database)
      → replay (prune_on isoformat env days db).1 db ≡ (prune_on isoformat env days db).0
  unfolding replay replay_event prune_on
  replay-prune_on env days db = elim (Bool-cases (env.prune_fails days)) [
    | inl bad ↦ rw bad refl
    | inr fine ↦ elim (Option-cases (cutoff isoformat env.now days)) [
      | inl early ↦ rw (fine, early) refl
      | inr (t, late) ↦ rw (fine, late) refl
    ]
  ]

  replay-prune_all :
      (env : Environment) (ds : List ℕ) (db : Database)
      → replay (prune_all isoformat env ds db).1 db ≡ (prune_all isoformat env ds db).0
  unfolding replay prune_all
  replay-prune_all env [] db = refl
  replay-prune_all env (days ∷ ds) db =
      replay-append (prune_on isoformat env days db).1
        (prune_all isoformat env ds (prune_on isoformat env days db).0).1 db
      ∙ rw (replay-prune_on env days db)
          (replay-prune_all env ds (prune_on isoformat env days db).0)

  replay-commit_batch :
      (commit : Option SqlError) (db : Database) (rs : Results) (items : List Item) (s : Store)
      → replay (map fate rs) s.database ≡ db
      → replay (commit_batch commit db rs items s).1 s.database
        ≡ (commit_batch commit db rs items s).0.database
  unfolding commit_batch record_error
  replay-commit_batch none db rs items s h = h
  replay-commit_batch (some e) db rs items s h =
      replay-failed items s.database
      ∙ sym (record_failures-database rs s)
      ∙ sym (record_completed-database e rs (record_error e (record_failures rs s)))

  replay-transact :
      (env : Environment) (begin commit : Option SqlError) (items : List Item) (s : Store)
      → replay (transact isoformat env begin commit items s).1 s.database
        ≡ (transact isoformat env begin commit items s).0.database
  unfolding transact record_error Replays
  replay-transact env (some e) commit items s = replay-lost items s.database
  replay-transact env none commit items s =
      let (end, rs) = write_items isoformat env 0 true s.database items s.database in
      replay-commit_batch (if end.1 then commit else none) end.0 rs items s (
        ap (replay (map fate rs)) (
          both_branches (λ (x : Database). s.database ≡ x) (not end.1) s.database s.database refl
            refl)
        ∙ write_items-replay env 0 true s.database items s.database (λ e. refl))

  replay-transaction :
      (env : Environment) (items : List Item) (s : Store)
      → replay (transaction isoformat env items s).1 s.database
        ≡ (transaction isoformat env items s).0.database
  unfolding transaction replay
  replay-transaction env [] s = refl
  replay-transaction env (item ∷ items) s =
      replay-transact env env.begin_error env.commit_error (item ∷ items) s

  -- Each part below leaves the database that its log replays.
  Faithful : Database → Store × List Event → Type 0
  Faithful db (s, events) = replay events db ≡ s.database

  replay-flush :
      (env : Environment) (batch : List Item) (s : Store)
      → Faithful s.database (flush isoformat env batch s)
  unfolding flush Faithful
  replay-flush env batch s =
      let (s', fates) = transaction isoformat env (keep is_write batch) s in
      let answers = answer_backups env s'.database (backup_ids batch) in
      let (db, prunings) = prune_all isoformat env (retain_days batch) s'.database in
      replay-append fates (answers ++ (vacuums batch ++ prunings)) s.database
      ∙ ap (replay (answers ++ (vacuums batch ++ prunings)))
          (replay-transaction env (keep is_write batch) s)
      ∙ replay-append answers (vacuums batch ++ prunings) s'.database
      ∙ ap (replay (vacuums batch ++ prunings))
          (replay-answer_backups env s'.database (backup_ids batch) s'.database)
      ∙ replay-append (vacuums batch) prunings s'.database
      ∙ ap (replay prunings) (replay-vacuums batch s'.database)
      ∙ replay-prune_all env (retain_days batch) s'.database

  replay-flush_pending :
      (env : Environment) (batch : List Item) (s : Store)
      → Faithful s.database (flush_pending isoformat env batch s)
  unfolding flush_pending Faithful replay
  replay-flush_pending env [] s = refl
  replay-flush_pending env (item ∷ items) s =
      replay-flush env (item ∷ items) (record s { batch = [] })

  replay-turn_on :
      (env : Environment) (queue : List (Option Item)) (s : Store)
      → Faithful s.database (turn_on isoformat env queue s)
  unfolding turn_on finish Faithful replay
  replay-turn_on env [] s =
      both_branches (Faithful s.database) s.stop (finish isoformat env s)
        (flush_pending isoformat env s.batch s)
        (replay-flush_pending env s.batch (record s { running = false }))
        (replay-flush_pending env s.batch s)
  replay-turn_on env (none ∷ queue) s =
      replay-flush_pending env s.batch (record s { queue = queue; running = false })
  replay-turn_on env (some item ∷ queue) s =
      let batch : List Item = s.batch ++ item ∷ [] in
      let s' : Store = record s { queue = queue; batch = batch } in
      both_branches (Faithful s.database) (leb batch_size (length batch))
        (flush_pending isoformat env batch s') (s', []) (replay-flush_pending env batch s') refl

  replay-step : (action : Action) (s : Store) → Faithful s.database (step isoformat action s)
  unfolding step turn Faithful replay enqueue shutdown
  replay-step (send item) s = ground arith
  replay-step stop_writer s = sym (put_sentinel-database (record s { stop = true }))
  replay-step wake_put s = sym (wake-database s.blocked s)
  replay-step (take_turn env) s =
      both_branches (Faithful s.database) s.running (turn isoformat env s) (s, [])
        (replay-turn_on env s.queue s) refl

  -- Over any run of calls, failures and turns of the writer, the database is what the log replays on
  -- the first one: exactly the items logged as written were written, once each and in that order, and
  -- nothing else but the logged prunings touched a table. An error that rolls back the transaction of a
  -- batch is among the failures: the items before it are logged as lost then.
  pub run-replay :
      (actions : List Action) (s : Store)
      → (run isoformat actions s).0.database ≡ replay (run isoformat actions s).1 s.database
  unfolding run Faithful replay
  run-replay [] s = refl
  run-replay (action ∷ actions) s =
      let (s', events) = step isoformat action s in
      run-replay actions s'
      ∙ ap (replay (run isoformat actions s').1) (sym (replay-step action s))
      ∙ sym (replay-append events (run isoformat actions s').1 s.database)
