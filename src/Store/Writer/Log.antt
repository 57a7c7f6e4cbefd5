-- ===== src/Store/Writer/Log.antt =====
-- The log of the writer of src/meshchat/services/monitor_store.py: its items, its failures, and the
-- parts of a flush that leave them alone.
use orc_mesh.Prelude.{ℕ, suc, ◌+◌, ◌≡◌, refl, arith, ap, ◌∙◌, List, [], ◌∷◌, ◌++◌, map, length}
use orc_mesh.Store.Tables.{Database}
use orc_mesh.Store.Items.{Item, SqlError}
use orc_mesh.Store.Writer.{
  Store, Environment, Event, written, failed, lost, backed_up, vacuumed, pruned, prune_failed,
  Results, kept, undone, refused, record_failures, record_completed, record_failed_item, vacuums,
  answer_backups,
}

-- the items of a log, with what became of them left out
unfoldable pub fated : List Event → List Item
fated [] = []
fated (written item ∷ events) = item ∷ fated events
fated (failed item ∷ events) = item ∷ fated events
fated (lost item ∷ events) = item ∷ fated events
fated (backed_up id copy ∷ events) = fated events
fated (vacuumed ∷ events) = fated events
fated (pruned t ∷ events) = fated events
fated (prune_failed days ∷ events) = fated events

unfoldable pub count_failed : List Event → ℕ
count_failed [] = 0
count_failed (failed item ∷ events) = suc (count_failed events)
count_failed (written item ∷ events) = count_failed events
count_failed (lost item ∷ events) = count_failed events
count_failed (backed_up id copy ∷ events) = count_failed events
count_failed (vacuumed ∷ events) = count_failed events
count_failed (pruned t ∷ events) = count_failed events
count_failed (prune_failed days ∷ events) = count_failed events

-- A log of the maintenance alone.
unfoldable pub IsQuiet : List Event → Type 0
IsQuiet events = (fated events ≡ []) × (count_failed events ≡ 0)

pub fated-append : (xs ys : List Event) → fated (xs ++ ys) ≡ fated xs ++ fated ys
unfolding fated
fated-append [] ys = refl
fated-append (written item ∷ xs) ys = ap (λ (r : List Item). item ∷ r) (fated-append xs ys)
fated-append (failed item ∷ xs) ys = ap (λ (r : List Item). item ∷ r) (fated-append xs ys)
fated-append (lost item ∷ xs) ys = ap (λ (r : List Item). item ∷ r) (fated-append xs ys)
fated-append (backed_up id copy ∷ xs) ys = fated-append xs ys
fated-append (vacuumed ∷ xs) ys = fated-append xs ys
fated-append (pruned t ∷ xs) ys = fated-append xs ys
fated-append (prune_failed days ∷ xs) ys = fated-append xs ys

pub count_failed-append :
    (xs ys : List Event) → count_failed (xs ++ ys) ≡ count_failed xs + count_failed ys
unfolding count_failed
count_failed-append [] ys = omega arith
count_failed-append (written item ∷ xs) ys = count_failed-append xs ys
count_failed-append (failed item ∷ xs) ys = omega (arith, count_failed-append xs ys)
count_failed-append (lost item ∷ xs) ys = count_failed-append xs ys
count_failed-append (backed_up id copy ∷ xs) ys = count_failed-append xs ys
count_failed-append (vacuumed ∷ xs) ys = count_failed-append xs ys
count_failed-append (pruned t ∷ xs) ys = count_failed-append xs ys
count_failed-append (prune_failed days ∷ xs) ys = count_failed-append xs ys

pub IsQuiet-append : (xs ys : List Event) → IsQuiet xs → IsQuiet ys → IsQuiet (xs ++ ys)
unfolding IsQuiet
IsQuiet-append xs ys h k =
    (fated-append xs ys ∙ rw (h.0, k.0) refl, omega (arith, count_failed-append xs ys))

pub vacuums-IsQuiet : (items : List Item) → IsQuiet (vacuums items)
unfolding IsQuiet vacuums fated count_failed
vacuums-IsQuiet [] = (refl, refl)
vacuums-IsQuiet (Item.vacuum ∷ items) = vacuums-IsQuiet items
vacuums-IsQuiet (Item.packet x ∷ items) = vacuums-IsQuiet items
vacuums-IsQuiet (Item.session x ∷ items) = vacuums-IsQuiet items
vacuums-IsQuiet (Item.position x ∷ items) = vacuums-IsQuiet items
vacuums-IsQuiet (Item.telemetry x ∷ items) = vacuums-IsQuiet items
vacuums-IsQuiet (Item.node x ∷ items) = vacuums-IsQuiet items
vacuums-IsQuiet (Item.message x ∷ items) = vacuums-IsQuiet items
vacuums-IsQuiet (Item.message_status x ∷ items) = vacuums-IsQuiet items
vacuums-IsQuiet (Item.setting k v ∷ items) = vacuums-IsQuiet items
vacuums-IsQuiet (Item.prune x ∷ items) = vacuums-IsQuiet items
vacuums-IsQuiet (Item.backup x ∷ items) = vacuums-IsQuiet items

pub answer_backups-IsQuiet :
    (env : Environment) (copy : Database) (ids : List ℕ) → IsQuiet (answer_backups env copy ids)
unfolding IsQuiet answer_backups fated count_failed
answer_backups-IsQuiet env copy [] = (refl, refl)
answer_backups-IsQuiet env copy (id ∷ ids) = answer_backups-IsQuiet env copy ids

pub fated-map :
    (items : List Item) → (fated (map failed items) ≡ items) × (fated (map lost items) ≡ items)
unfolding fated
fated-map [] = (refl, refl)
fated-map (item ∷ items) =
    let (f, l) = fated-map items in
    (ap (λ (r : List Item). item ∷ r) f, ap (λ (r : List Item). item ∷ r) l)

pub count_failed-map :
    (items : List Item)
    → (count_failed (map failed items) ≡ length items) × (count_failed (map lost items) ≡ 0)
unfolding count_failed
count_failed-map [] = (refl, refl)
count_failed-map (item ∷ items) = let (f, l) = count_failed-map items in (omega arith, l)

-- the failures among some results, and the others
unfoldable pub count_errors : Results → ℕ
count_errors [] = 0
count_errors ((item, kept) ∷ rs) = count_errors rs
count_errors ((item, undone) ∷ rs) = count_errors rs
count_errors ((item, refused e) ∷ rs) = suc (count_errors rs)

unfoldable pub count_completed : Results → ℕ
count_completed [] = 0
count_completed ((item, kept) ∷ rs) = suc (count_completed rs)
count_completed ((item, undone) ∷ rs) = suc (count_completed rs)
count_completed ((item, refused e) ∷ rs) = count_completed rs

-- What no flush changes.
unfoldable pub IsFrame : Store → Store → Type 0
IsFrame s s' =
    (s'.queue ≡ s.queue)
    × (s'.batch ≡ s.batch)
    × (s'.stop ≡ s.stop)
    × (s'.running ≡ s.running)
    × (s'.dropped_count ≡ s.dropped_count)

pub record_failures-IsFrame : (rs : Results) (s : Store) → IsFrame s (record_failures rs s)
unfolding IsFrame record_failures record_failed_item
record_failures-IsFrame [] s = (refl, refl, refl, refl, refl)
record_failures-IsFrame ((item, kept) ∷ rs) s = record_failures-IsFrame rs s
record_failures-IsFrame ((item, undone) ∷ rs) s = record_failures-IsFrame rs s
record_failures-IsFrame ((item, refused e) ∷ rs) s =
    record_failures-IsFrame rs (record_failed_item item e s)

pub record_completed-IsFrame :
    (e : SqlError) (rs : Results) (s : Store) → IsFrame s (record_completed e rs s)
unfolding IsFrame record_completed record_failed_item
record_completed-IsFrame e [] s = (refl, refl, refl, refl, refl)
record_completed-IsFrame e ((item, kept) ∷ rs) s =
    record_completed-IsFrame e rs (record_failed_item item e s)
record_completed-IsFrame e ((item, undone) ∷ rs) s =
    record_completed-IsFrame e rs (record_failed_item item e s)
record_completed-IsFrame e ((item, refused f) ∷ rs) s = record_completed-IsFrame e rs s

pub record_failures-failed_count :
    (rs : Results) (s : Store)
    → (record_failures rs s).failed_count ≡ s.failed_count + count_errors rs
unfolding record_failures record_failed_item count_errors
record_failures-failed_count [] s = omega arith
record_failures-failed_count ((item, kept) ∷ rs) s = record_failures-failed_count rs s
record_failures-failed_count ((item, undone) ∷ rs) s = record_failures-failed_count rs s
record_failures-failed_count ((item, refused e) ∷ rs) s =
    omega (arith, record_failures-failed_count rs (record_failed_item item e s))

pub record_completed-failed_count :
    (e : SqlError) (rs : Results) (s : Store)
    → (record_completed e rs s).failed_count ≡ s.failed_count + count_completed rs
unfolding record_completed record_failed_item count_completed
record_completed-failed_count e [] s = omega arith
record_completed-failed_count e ((item, kept) ∷ rs) s =
    omega (arith, record_completed-failed_count e rs (record_failed_item item e s))
record_completed-failed_count e ((item, undone) ∷ rs) s =
    omega (arith, record_completed-failed_count e rs (record_failed_item item e s))
record_completed-failed_count e ((item, refused f) ∷ rs) s = record_completed-failed_count e rs s
