-- ===== src/Store/Writer.antt =====
-- The writer thread of src/meshchat/services/monitor_store.py: the queue that every write goes through,
-- _flush, and the loop of _writer_loop as one step per turn. A statement that fails, a BEGIN or COMMIT
-- that fails, and a backup or a pruning that raises are the environment's. A log of what became of each
-- item is kept beside the state.
pub mod Replay
pub mod Log
pub mod Fates
pub mod Runs
pub mod Drain
use orc_mesh.Prelude.{
  ℕ, zero, suc, ◌+◌, Bool, true, false, ◌&&◌, not, Option, none, some, List, [], ◌∷◌, ◌++◌, map,
  ltb, leb, length, keep, if◌then◌else◌,
}
use orc_mesh.Prelude.Int.{ℤ, pos, negsuc}
use orc_mesh.Prelude.Text.{Text, codes}
use orc_mesh.Store.Tables.{Database}
use orc_mesh.Store.Items.{
  Item, prune, backup, vacuum, SqlError, Retried, succeeded, gave_up, no_fuel,
  write_item_with_retry, ends_transaction, write_one, cutoff, delete_before, is_write, kind,
  error_text,
}

-- None in the queue is the sentinel of shutdown
pub record Store : Type 0 where
  pub queue : List (Option Item)
  pub batch : List Item
  pub stop : Bool
  pub blocked : ℕ  -- the callers of shutdown that wait to put the sentinel on a full queue
  pub running : Bool
  pub dropped_count : ℕ
  pub failed_count : ℕ
  pub last_error : Option Text
  pub database : Database

unfoldable pub open_store : Database → Store
open_store db = record {
  queue = [];
  batch = [];
  stop = false;
  blocked = 0;
  running = true;
  dropped_count = 0;
  failed_count = 0;
  last_error = none;
  database = db;
}

-- what goes wrong in one turn, and the wall clock
pub record Environment : Type 0 where
  pub outcome : ℕ → ℕ → Option SqlError  -- by the place of the item and the attempt
  pub ends : ℕ → ℕ → Bool  -- that error rolls the whole transaction back
  pub begin_error : Option SqlError
  pub commit_error : Option SqlError
  pub backup_fails : ℕ → Bool
  pub prune_fails : ℕ → Bool
  pub now : ℕ

-- what became of an item; `lost` ones are neither written nor counted, as no transaction was begun for
-- them, or as theirs was rolled back after they had reported success
pub data Event : Type 0 where
  written failed lost : Item → Event
  backed_up : ℕ → Option Database → Event
  vacuumed : Event
  pruned : Text → Event
  prune_failed : ℕ → Event

-- maxsize of the queue
abbrev pub queue_capacity : ℕ
queue_capacity = 10_000

abbrev pub batch_size : ℕ
batch_size = 100

-- _enqueue
unfoldable pub enqueue : Item → Store → Bool × Store
enqueue item s =
    if ltb (length s.queue) queue_capacity
    then (true, record s { queue = s.queue ++ some item ∷ [] })
    else (false, record s { dropped_count = suc s.dropped_count })

-- prune_async
unfoldable pub prune_async : ℤ → Store → Store
unfolding enqueue
prune_async (pos ℕ.zero) s = s
prune_async (pos (suc n)) s = (enqueue (prune (suc n)) s).1
prune_async (negsuc n) s = s

-- put(None), which waits where the queue is full
unfoldable pub put_sentinel : Store → Store
put_sentinel s =
    if ltb (length s.queue) queue_capacity
    then record s { queue = s.queue ++ none ∷ [] }
    else record s { blocked = suc s.blocked }

-- shutdown, but for the join
unfoldable pub shutdown : Store → Store
shutdown s = put_sentinel (record s { stop = true })

-- a put that waited is tried again, once a turn may have made room
unfoldable pub wake : ℕ → Store → Store
wake zero s = s
wake (suc n) s = put_sentinel (record s { blocked = n })

-- health
pub record DatabaseWriterHealth : Type 0 where
  pub queue_depth : ℕ
  pub queue_capacity : ℕ
  pub dropped_count : ℕ
  pub failed_count : ℕ
  pub writer_alive : Bool
  pub last_error : Option Text

unfoldable pub health : Store → DatabaseWriterHealth
health s = record {
  queue_depth = length s.queue;
  queue_capacity = queue_capacity;
  dropped_count = s.dropped_count;
  failed_count = s.failed_count;
  writer_alive = s.running;
  last_error = s.last_error;
}

-- _record_failed_item
unfoldable pub record_failed_item : Item → SqlError → Store → Store
record_failed_item item e s = record s {
  failed_count = suc s.failed_count;
  last_error = some (kind item ++ codes ": " ++ error_text e);
}

-- _record_error
unfoldable pub record_error : SqlError → Store → Store
record_error e s = record s { last_error = some (error_text e) }

-- an item that reported success and stays, one that did and is rolled back with the transaction of its
-- batch before the end of it, and one that was given up
pub data Verdict : Type 0 where
  kept undone : Verdict
  refused : SqlError → Verdict

-- the items of a batch
abbrev pub Results : Type 0
Results = List (Item × Verdict)

unfoldable pub error_of : Retried → Option SqlError
error_of (succeeded slept) = none
error_of (gave_up e slept) = some e
error_of no_fuel = none

-- the failures of single items
unfoldable pub record_failures : Results → Store → Store
record_failures [] s = s
record_failures ((item, kept) ∷ rs) s = record_failures rs s
record_failures ((item, undone) ∷ rs) s = record_failures rs s
record_failures ((item, refused e) ∷ rs) s = record_failures rs (record_failed_item item e s)

-- the completed items of a batch that is rolled back
unfoldable pub record_completed : SqlError → Results → Store → Store
record_completed e [] s = s
record_completed e ((item, kept) ∷ rs) s = record_completed e rs (record_failed_item item e s)
record_completed e ((item, undone) ∷ rs) s = record_completed e rs (record_failed_item item e s)
record_completed e ((item, refused _) ∷ rs) s = record_completed e rs s

unfoldable pub fate : Item × Verdict → Event
fate (item, kept) = written item
fate (item, undone) = lost item
fate (item, refused e) = failed item

unfoldable pub verdict : Option SqlError → Bool → Verdict
verdict (some e) rolled_back = refused e
verdict none true = undone
verdict none false = kept

-- what the commit at the end of a batch does, if its transaction is open still, and what is counted
unfoldable pub commit_batch :
    Option SqlError → Database → Results → List Item → Store → Store × List Event
commit_batch none db results items s =
    (record (record_failures results s) { database = db }, map fate results)
commit_batch (some e) db results items s =
    (record_completed e results (record_error e (record_failures results s)), map failed items)

unfoldable pub retain_days : List Item → List ℕ
retain_days [] = []
retain_days (prune days ∷ items) = days ∷ retain_days items
retain_days (_ ∷ items) = retain_days items

unfoldable pub backup_ids : List Item → List ℕ
backup_ids [] = []
backup_ids (backup id ∷ items) = id ∷ backup_ids items
backup_ids (_ ∷ items) = backup_ids items

unfoldable pub vacuums : List Item → List Event
vacuums [] = []
vacuums (vacuum ∷ items) = vacuumed ∷ vacuums items
vacuums (_ ∷ items) = vacuums items

-- the answers to the requests for a backup
unfoldable pub answer_backups : Environment → Database → List ℕ → List Event
answer_backups env db [] = []
answer_backups env db (id ∷ ids) =
    backed_up id (if env.backup_fails id then none else some db) ∷ answer_backups env db ids

-- a call of another thread, or a turn of the writer
pub data Action : Type 0 where
  send : Item → Action
  stop_writer wake_put : Action
  take_turn : Environment → Action

module _ (isoformat : ℤ → Text) where
  -- an item under its savepoint
  unfoldable pub store_item : Item → Option SqlError → Database → Database
  store_item item none db = write_one isoformat item db
  store_item item (some e) db = db

  -- The items of a batch; `i` is the place of the first. The batch's transaction is open, `live`, and the
  -- database is `base` without what was not committed, until an error of an item rolls it all back:
  -- ROLLBACK TO then fails, which is ignored, and the savepoint of each later item, which stands in no
  -- transaction, commits that item alone when it is released.
  unfoldable pub write_items :
      Environment → ℕ → Bool → Database → List Item → Database → (Database × Bool) × Results
  write_items env i live base [] db = ((db, live), [])
  write_items env i live base (item ∷ items) db =
      let error = error_of (write_item_with_retry (env.outcome i)) in
      let ended = ends_transaction (env.outcome i) (env.ends i) in
      let live' = live && not ended in
      let db' = store_item item error (if ended then base else db) in
      let base' = if live' then base else db' in
      let (end, results) = write_items env (suc i) live' base' items db' in
      (end, (item, verdict error (live' && not end.1)) ∷ results)

  -- the transaction of _flush, by the errors of its BEGIN and its COMMIT, which is nothing where no
  -- transaction is open
  unfoldable pub transact :
      Environment → Option SqlError → Option SqlError → List Item → Store → Store × List Event
  transact env (some e) commit items s = (record_error e s, map lost items)
  transact env none commit items s =
      let (end, results) = write_items env 0 true s.database items s.database in
      commit_batch (if end.1 then commit else none) end.0 results items s

  unfoldable pub transaction : Environment → List Item → Store → Store × List Event
  transaction env [] s = (s, [])
  transaction env (item ∷ items) s = transact env env.begin_error env.commit_error (item ∷ items) s

  -- _prune_on, in its own transaction
  unfoldable pub prune_on : Environment → ℕ → Database → Database × List Event
  prune_on env days db =
      if env.prune_fails days
      then (db, prune_failed days ∷ [])
      else elim (cutoff isoformat env.now days) [
        | none ↦ (db, prune_failed days ∷ [])
        | some t ↦ (delete_before t db, pruned t ∷ [])
      ]

  unfoldable pub prune_all : Environment → List ℕ → Database → Database × List Event
  prune_all env [] db = (db, [])
  prune_all env (days ∷ ds) db =
      let (db', event) = prune_on env days db in
      let (db'', events) = prune_all env ds db' in (db'', event ++ events)

  -- _flush
  unfoldable pub flush : Environment → List Item → Store → Store × List Event
  flush env batch s =
      let (s', fates) = transaction env (keep is_write batch) s in
      let answers = answer_backups env s'.database (backup_ids batch) in
      let (db, prunings) = prune_all env (retain_days batch) s'.database in
      (record s' { database = db }, fates ++ (answers ++ (vacuums batch ++ prunings)))

  -- if batch: flush it and clear it
  unfoldable pub flush_pending : Environment → List Item → Store → Store × List Event
  flush_pending env [] s = (s, [])
  flush_pending env (item ∷ items) s = flush env (item ∷ items) (record s { batch = [] })

  -- what follows the loop
  unfoldable pub finish : Environment → Store → Store × List Event
  finish env s = flush_pending env s.batch (record s { running = false })

  -- one turn of the loop, by the queue; it is Empty when nothing arrives within the timeout
  unfoldable pub turn_on : Environment → List (Option Item) → Store → Store × List Event
  turn_on env [] s = if s.stop then finish env s else flush_pending env s.batch s
  turn_on env (none ∷ queue) s = finish env (record s { queue = queue })
  turn_on env (some item ∷ queue) s =
      let batch = s.batch ++ item ∷ [] in
      let s' = record s { queue = queue; batch = batch } in
      if leb batch_size (length batch) then flush_pending env batch s' else (s', [])

  unfoldable pub turn : Environment → Store → Store × List Event
  turn env s = turn_on env s.queue s

  unfoldable pub step : Action → Store → Store × List Event
  step (send item) s = ((enqueue item s).1, [])
  step stop_writer s = (shutdown s, [])
  step wake_put s = (wake s.blocked s, [])
  step (take_turn env) s = if s.running then turn env s else (s, [])

  unfoldable pub run : List Action → Store → Store × List Event
  run [] s = (s, [])
  run (action ∷ actions) s =
      let (s', events) = step action s in
      let (s'', later) = run actions s' in (s'', events ++ later)
