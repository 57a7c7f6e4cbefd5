-- ===== src/Store/Schema.antt =====
-- src/meshchat/database/schema.py: the tables of the database by the names of their columns, the
-- migrations, and how `apply_schema` brings a database to the current version. Which statements SQLite
-- refuses is the environment's, as is the integrity check; the columns of indexes, the other pragmas and
-- the file copied beforehand are left out. No transaction is open: a `with conn` begins none, and
-- sqlite3 begins one before INSERT, UPDATE, DELETE and REPLACE only. So each CREATE TABLE, ALTER TABLE
-- and PRAGMA user_version is committed by itself, and a statement that raises undoes no earlier one.
-- A PRAGMA table_info that raises ends its migration as a refusal of all its columns and its stamp does.
pub mod Keeping
pub mod Added
pub mod Complete
use orc_mesh.Prelude.{
  ℕ, Bool, true, false, ◌||◌, not, Option, none, some, List, [], ◌∷◌, ◌++◌, String, str_eq, ltb,
  keep, if◌then◌else◌,
}
use orc_mesh.Prelude.Dict.{Dict, lookup, insert, string_eq}

pub record Schema : Type 0 where
  pub user_version : ℕ
  pub tables : Dict String (List String)

-- a name is in a set of columns
unfoldable pub has : String → List String → Bool
has c [] = false
has c (d ∷ cols) = str_eq c d || has c cols

-- the tables of SCHEMA_SQL
abbrev pub schema_tables : Dict String (List String)
schema_tables =
    (
      "sessions",
      "id" ∷ "started_at" ∷ "ended_at" ∷ "local_node_num" ∷ "local_node_id" ∷ "transport"
          ∷ "connection_target" ∷ "meshtastic_version" ∷ "firmware_version" ∷ [],
    )
    ∷ (
      "packets",
      "rowid" ∷ "session_id" ∷ "observed_at" ∷ "rx_time" ∷ "sender_num" ∷ "sender_id"
          ∷ "destination_num" ∷ "packet_id" ∷ "channel_index" ∷ "portnum" ∷ "portnum_name"
          ∷ "payload_size" ∷ "rx_snr" ∷ "rx_rssi" ∷ "hop_start" ∷ "hop_limit" ∷ "hops_used"
          ∷ "via_mqtt" ∷ "transport_mechanism" ∷ "pki_encrypted" ∷ "want_ack" ∷ "priority" ∷ [],
    )
    ∷ (
      "nodes",
      "node_num" ∷ "node_id" ∷ "long_name" ∷ "short_name" ∷ "role" ∷ "hw_model" ∷ "first_seen"
          ∷ "last_heard" ∷ "packet_count" ∷ "text_count" ∷ "last_snr" ∷ "last_rssi"
          ∷ "last_hops_used" ∷ "last_hop_start" ∷ "last_via_mqtt" ∷ "rf_count" ∷ "via_mqtt_count"
          ∷ "position_count" ∷ "telemetry_count" ∷ [],
    )
    ∷ (
      "positions",
      "rowid" ∷ "node_num" ∷ "observed_at" ∷ "latitude" ∷ "longitude" ∷ "altitude_m" ∷ "speed_ms"
          ∷ "heading_deg" ∷ "position_time" ∷ "precision_bits" ∷ [],
    )
    ∷ (
      "telemetry",
      "rowid" ∷ "node_num" ∷ "observed_at" ∷ "battery_level" ∷ "voltage" ∷ "channel_utilization"
          ∷ "air_util_tx" ∷ "temperature_c" ∷ "relative_humidity" ∷ "barometric_pressure_hpa"
          ∷ "gas_resistance_ohm" ∷ [],
    )
    ∷ (
      "messages",
      "rowid" ∷ "session_id" ∷ "local_id" ∷ "packet_id" ∷ "channel_index" ∷ "destination_num"
          ∷ "direction" ∷ "sender_num" ∷ "sender_id" ∷ "sender_name" ∷ "text" ∷ "observed_at"
          ∷ "byte_count" ∷ "status" ∷ [],
    )
    ∷ ("app_settings", "key" ∷ "value" ∷ [])
    ∷ []

-- PRAGMA table_info, empty for a table that is not there
unfoldable pub columns_of : Option (List String) → List String
columns_of none = []
columns_of (some cols) = cols

-- what statements leave, and whether none of them raised
abbrev pub Run : Type 0
Run = Schema × Bool

-- a statement that raised ends its sequence
unfoldable pub then_next : Run → (Schema → Run) → Run
then_next (s, false) f = (s, false)
then_next (s, true) f = f s

-- the statements that SQLite refuses: by the table, the column, the version; reading the version and
-- checking the integrity, and creating the indexes that follow the migrations
pub record Refusals : Type 0 where
  pub creates : String → Bool
  pub alters : String → Bool
  pub stamps : ℕ → Bool
  pub reads : Bool
  pub indexes : Bool

module _ (refused : Refusals) where
  -- CREATE TABLE IF NOT EXISTS, by the table of that name
  unfoldable pub unless_there : String → List String → Option (List String) → Schema → Schema
  unless_there name cols none s = record s { tables = insert name cols s.tables }
  unless_there name cols (some old) s = s

  unfoldable pub create_table : String → List String → Schema → Run
  create_table name cols s =
      if refused.creates name
      then (s, false)
      else (unless_there name cols (lookup name s.tables) s, true)

  unfoldable pub create_tables : Dict String (List String) → Schema → Run
  create_tables [] s = (s, true)
  create_tables ((name, cols) ∷ ts) s = then_next (create_table name cols s) (create_tables ts)

  -- ALTER TABLE .. ADD COLUMN, which also raises on a table that is missing or a column that is there
  unfoldable pub add_to : String → String → Option (List String) → Schema → Run
  add_to table c none s = (s, false)
  add_to table c (some cols) s =
      if refused.alters c || has c cols
      then (s, false)
      else (record s { tables = insert table (cols ++ c ∷ []) s.tables }, true)

  unfoldable pub add_column : String → String → Schema → Run
  add_column table c s = add_to table c (lookup table s.tables) s

  -- the body of a migration: `before` are the columns at its start
  unfoldable pub add_missing : String → List String → List String → Schema → Run
  add_missing table before [] s = (s, true)
  add_missing table before (c ∷ cs) s =
      if has c before
      then add_missing table before cs s
      else then_next (add_column table c s) (add_missing table before cs)

pub record Migration : Type 0 where
  pub version : ℕ
  pub table : String
  pub columns : List String

-- _migrate_v1_message_columns
unfoldable pub migrate_v1 : Migration
migrate_v1 = record { version = 1; table = "messages"; columns = "text" ∷ "destination_num" ∷ [] }

-- _migrate_v2_node_stat_columns
unfoldable pub migrate_v2 : Migration
migrate_v2 = record {
  version = 2;
  table = "nodes";
  columns =
      "last_snr" ∷ "last_rssi" ∷ "last_hops_used" ∷ "last_hop_start" ∷ "last_via_mqtt" ∷ "rf_count"
      ∷ "via_mqtt_count" ∷ "position_count" ∷ "telemetry_count" ∷ [];
}

-- _MIGRATIONS
unfoldable pub migrations : List Migration
migrations = migrate_v1 ∷ migrate_v2 ∷ []

-- what apply_schema raises: an error of sqlite3, or a MigrationError of a migration or of the integrity
-- check
pub data SchemaError : Type 0 where
  sqlite_error integrity_failed : SchemaError
  migration_failed : ℕ → SchemaError

abbrev pub End : Type 0
End = Schema × Option SchemaError

module _ (refused : Refusals) where
  -- migrate_fn(conn)
  unfoldable pub migrate : Migration → Schema → Run
  migrate m s = add_missing refused m.table (columns_of (lookup m.table s.tables)) m.columns s

  -- PRAGMA user_version = ..
  unfoldable pub stamp : ℕ → Schema → Run
  stamp version s =
      if refused.stamps version then (s, false) else (record s { user_version = version }, true)

  unfoldable pub migrate_and_stamp : Migration → Schema → Run
  migrate_and_stamp m s = then_next (migrate m s) (stamp m.version)

  -- what follows, unless `error` was raised
  unfoldable pub continue : SchemaError → (Schema → End) → Run → End
  continue error later (s, false) = (s, some error)
  continue error later (s, true) = later s

  unfoldable pub run_pending : List Migration → Schema → End
  run_pending [] s = (s, none)
  run_pending (m ∷ ms) s =
      continue (migration_failed m.version) (run_pending ms) (migrate_and_stamp m s)

  unfoldable pub pending : ℕ → List Migration
  pending current = keep (λ (m : Migration). ltb current m.version) migrations

  -- the integrity check that follows the migrations
  unfoldable pub checked : Bool → End → End
  checked intact (s, some e) = (s, some e)
  checked intact (s, none) = if intact then (s, none) else (s, some integrity_failed)

  unfoldable pub run_if_any : Bool → List Migration → Schema → End
  run_if_any intact [] s = (s, none)
  run_if_any intact (m ∷ ms) s = checked intact (run_pending (m ∷ ms) s)

  -- _run_migrations
  unfoldable pub run_migrations : Bool → Schema → End
  run_migrations intact s =
      if refused.reads then (s, some sqlite_error) else run_if_any intact (pending s.user_version) s

  -- the indexes that need the columns of the migrations
  unfoldable pub index : End → End
  index (s, some e) = (s, some e)
  index (s, none) = if refused.indexes then (s, some sqlite_error) else (s, none)

  -- apply_schema
  unfoldable pub apply_schema : Bool → Schema → End
  apply_schema intact s =
      index (continue sqlite_error (run_migrations intact) (create_tables refused schema_tables s))
