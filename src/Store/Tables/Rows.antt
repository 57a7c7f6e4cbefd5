-- ===== src/Store/Tables/Rows.antt =====
-- The rows of the tables of src/meshchat/database/schema.py, and the database as a whole. A NULL is
-- None; REAL columns hold what the model's floats hold.
use orc_mesh.Prelude.{ℕ, Option, List, [], String}
use orc_mesh.Prelude.Int.{ℤ}
use orc_mesh.Prelude.Text.{Text}
use orc_mesh.Prelude.Dict.{Dict, text_key_eq, string_eq}
use orc_mesh.Model.Message.{MessageStatus}
use orc_mesh.Ingest.Pipeline.Seed.{NodeRow}

pub record PacketRow : Type 0 where
  pub session_id : Text
  pub observed_at : Text
  pub rx_time : Option Text
  pub sender_num : Option ℕ
  pub sender_id : Option Text
  pub destination_num : Option ℕ
  pub packet_id : Option ℕ
  pub channel_index : ℕ
  pub portnum : Option ℤ
  pub portnum_name : Text
  pub payload_size : Option ℕ
  pub rx_snr : Option ℤ
  pub rx_rssi : Option ℤ
  pub hop_start : Option ℕ
  pub hop_limit : Option ℕ
  pub hops_used : Option ℕ
  pub via_mqtt : Option ℕ
  pub transport_mechanism : Option Text
  pub pki_encrypted : Option ℕ
  pub want_ack : Option ℕ
  pub priority : Option Text

pub record SessionRow : Type 0 where
  pub started_at : Text
  pub ended_at : Option Text
  pub local_node_num : Option ℕ
  pub local_node_id : Option Text
  pub transport : Text
  pub connection_target : Text
  pub meshtastic_version : Option Text
  pub firmware_version : Option Text

pub record PositionRecord : Type 0 where
  pub node_num : ℕ
  pub observed_at : Text
  pub latitude : Option ℤ
  pub longitude : Option ℤ
  pub altitude_m : Option ℤ
  pub speed_ms : Option ℤ
  pub heading_deg : Option ℤ
  pub position_time : Option Text
  pub precision_bits : Option ℕ

pub record TelemetryRow : Type 0 where
  pub node_num : ℕ
  pub observed_at : Text
  pub battery_level : Option ℤ
  pub voltage : Option ℤ
  pub channel_utilization : Option ℤ
  pub air_util_tx : Option ℤ
  pub temperature_c : Option ℤ
  pub relative_humidity : Option ℤ
  pub barometric_pressure_hpa : Option ℤ
  pub gas_resistance_ohm : Option ℤ

pub record MessageRow : Type 0 where
  pub session_id : Text
  pub local_id : Text
  pub packet_id : Option ℕ
  pub channel_index : ℕ
  pub destination_num : Option ℕ
  pub direction : Text
  pub sender_num : Option ℕ
  pub sender_id : Option Text
  pub sender_name : Text
  pub text : Text
  pub observed_at : Text
  pub byte_count : ℕ
  pub status : Text

-- the tables with a rowid are in its order; the others are by their primary key
pub record Database : Type 0 where
  pub packets : List PacketRow
  pub sessions : Dict Text SessionRow
  pub positions : List PositionRecord
  pub telemetry : List TelemetryRow
  pub nodes : Dict ℕ NodeRow
  pub messages : List MessageRow
  pub app_settings : Dict String Text

unfoldable pub empty_database : Database
empty_database = record {
  packets = [];
  sessions = [];
  positions = [];
  telemetry = [];
  nodes = [];
  messages = [];
  app_settings = [];
}

pub record StatusUpdate : Type 0 where
  pub local_id : Text
  pub packet_id : Option ℕ
  pub status : MessageStatus
