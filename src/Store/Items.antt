-- ===== src/Store/Items.antt =====
-- What is queued for the writer of src/meshchat/services/monitor_store.py: _write_one, the attempts of
-- _write_item_with_retry, and _prune_on. Which statements SQLite refuses, and with what error, is up
-- to the environment.
pub mod Retry
use orc_mesh.Prelude.{
  ℕ, zero, suc, ◌+◌, ◌*◌, Bool, true, false, ◌&&◌, ◌||◌, not, Option, none, some, List, [], ◌∷◌,
  String, ltb, leb, keep, if◌then◌else◌,
}
use orc_mesh.Prelude.Int.{ℤ, sub_ℕ}
use orc_mesh.Prelude.Text.{Text, codes, lower, contains}
use orc_mesh.Model.Packet.{NetworkPacket}
use orc_mesh.Model.Node.{NodeSnapshot}
use orc_mesh.Model.Message.{ChatMessage, NetworkSession}
use orc_mesh.Model.Samples.{PositionSample, TelemetrySample}
use orc_mesh.Store.Columns.{leb_text}
use orc_mesh.Store.Tables.{
  Database, StatusUpdate, write_packet, write_session, write_position, write_telemetry,
  write_message, write_message_status, write_setting, PacketRow, PositionRecord, TelemetryRow,
}
use orc_mesh.Store.Nodes.{write_node}

-- a backup request is named by a number; its caller waits for the answer
pub data Item : Type 0 where
  packet : NetworkPacket → Item
  session : NetworkSession → Item
  position : PositionSample → Item
  telemetry : TelemetrySample → Item
  node : NodeSnapshot → Item
  message : ChatMessage → Item
  message_status : StatusUpdate → Item
  setting : String → Text → Item
  prune : ℕ → Item
  backup : ℕ → Item
  vacuum : Item

unfoldable pub kind : Item → Text
kind (packet p) = codes "packet"
kind (session s) = codes "session"
kind (position p) = codes "position"
kind (telemetry t) = codes "telemetry"
kind (node n) = codes "node"
kind (message m) = codes "message"
kind (message_status u) = codes "message_status"
kind (setting k v) = codes "setting"
kind (prune days) = codes "prune"
kind (backup id) = codes "backup"
kind vacuum = codes "vacuum"

-- not one of the maintenance kinds
unfoldable pub is_write : Item → Bool
is_write (prune days) = false
is_write (backup id) = false
is_write vacuum = false
is_write item = true

-- an exception of a statement: sqlite3.OperationalError, or another one
pub data SqlError : Type 0 where
  operational other_error : Text → SqlError

unfoldable pub error_text : SqlError → Text
error_text (operational t) = t
error_text (other_error t) = t

-- _is_transient_sqlite_error
unfoldable pub is_transient : SqlError → Bool
is_transient (operational t) =
    contains (codes "locked") (lower t) || contains (codes "busy") (lower t)
is_transient (other_error t) = false

-- _MAX_WRITE_RETRIES
abbrev pub max_write_retries : ℕ
max_write_retries = 3

-- _RETRY_BACKOFF_BASE_SECONDS, in milliseconds
abbrev pub retry_backoff_base : ℕ
retry_backoff_base = 50

-- the end of an item, with the milliseconds slept
pub data Retried : Type 0 where
  succeeded : ℕ → Retried
  gave_up : SqlError → ℕ → Retried
  no_fuel : Retried

-- the loop of _write_item_with_retry: `outcome n` is the error of attempt n, if it has one
unfoldable pub attempt_from : ℕ → ℕ → ℕ → ℕ → (ℕ → Option SqlError) → Retried
attempt_from zero attempt delay slept outcome = no_fuel
attempt_from (suc fuel) attempt delay slept outcome =
    let later = attempt_from fuel (suc attempt) (delay * 2) (slept + delay) outcome in
    elim (outcome attempt) [
      | none ↦ succeeded slept
      | some e ↦ if is_transient e && leb attempt max_write_retries then later else gave_up e slept
    ]

-- _write_item_with_retry
unfoldable pub write_item_with_retry : (ℕ → Option SqlError) → Retried
write_item_with_retry outcome = attempt_from (suc max_write_retries) 1 retry_backoff_base 0 outcome

-- a failed attempt of this loop has ended the transaction that the item is written in: SQLite documents
-- that some errors, as a full disk, roll the whole transaction back; `ends n` for attempt n
unfoldable pub ended_from : ℕ → ℕ → (ℕ → Option SqlError) → (ℕ → Bool) → Bool
ended_from zero attempt outcome ends = false
ended_from (suc fuel) attempt outcome ends =
    let later = ended_from fuel (suc attempt) outcome ends in
    elim (outcome attempt) [
      | none ↦ false
      | some e ↦ ends attempt || (is_transient e && (leb attempt max_write_retries && later))
    ]

unfoldable pub ends_transaction : (ℕ → Option SqlError) → (ℕ → Bool) → Bool
ends_transaction outcome ends = ended_from (suc max_write_retries) 1 outcome ends

-- microseconds from year 1, where datetime begins, to 1970
abbrev pub year_1_to_1970 : ℕ
year_1_to_1970 = 62_135_596_800_000_000

abbrev pub day : ℕ
day = 86_400_000_000

module _ (isoformat : ℤ → Text) where
  -- _write_one
  unfoldable pub write_one : Item → Database → Database
  write_one (packet p) db = write_packet isoformat p db
  write_one (session s) db = write_session isoformat s db
  write_one (position p) db = write_position isoformat p db
  write_one (telemetry t) db = write_telemetry isoformat t db
  write_one (node n) db = write_node isoformat n db
  write_one (message m) db = write_message isoformat m db
  write_one (message_status u) db = write_message_status u db
  write_one (setting k v) db = write_setting k v db
  write_one (prune days) db = db
  write_one (backup id) db = db
  write_one vacuum db = db

  -- now - timedelta(days), None where that is before datetime begins, which raises
  unfoldable pub cutoff : ℕ → ℕ → Option Text
  cutoff now days =
      if leb (days * day) (now + year_1_to_1970)
      then some (isoformat (sub_ℕ now (days * day)))
      else none

-- the rows that a DELETE .. WHERE observed_at < t leaves
unfoldable pub is_recent : Text → Text → Bool
is_recent t observed_at = leb_text t observed_at

-- the three DELETEs of _prune_on
unfoldable pub delete_before : Text → Database → Database
delete_before t db = record db {
  packets = keep (λ (r : PacketRow). is_recent t r.observed_at) db.packets;
  positions = keep (λ (r : PositionRecord). is_recent t r.observed_at) db.positions;
  telemetry = keep (λ (r : TelemetryRow). is_recent t r.observed_at) db.telemetry;
}
