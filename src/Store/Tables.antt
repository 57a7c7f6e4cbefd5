-- ===== src/Store/Tables.antt =====
-- The tables of src/meshchat/database/schema.py, and the statements of MonitorStore's _write_packet,
-- _write_session, _write_position, _write_telemetry, _write_message, _write_message_status and
-- _write_setting. A NULL is None; REAL columns hold what the model's floats hold.
mod Rows
unfoldable pub use Rows.*
use orc_mesh.Prelude.{
  ℕ, Bool, true, false, Option, none, some, List, [], ◌∷◌, ◌++◌, map, or_else, if◌then◌else◌,
  String,
}
use orc_mesh.Prelude.Int.{ℤ, pos}
use orc_mesh.Prelude.Text.{Text, text_eq}
use orc_mesh.Prelude.Dict.{Dict, insert, text_key_eq, string_eq}
use orc_mesh.Model.Packet.{NetworkPacket}
use orc_mesh.Model.Message.{
  ChatMessage, MessageStatus, NetworkSession, direction_value, status_value,
}
use orc_mesh.Ingest.Normalize.{utf8_length}
use orc_mesh.Model.Samples.{PositionSample, TelemetrySample}
use orc_mesh.Ingest.Pipeline.Seed.{NodeRow}
use orc_mesh.Store.Columns.{int_of_flag}

-- the UNIQUE of messages.local_id
unfoldable pub has_local_id : Text → List MessageRow → Bool
has_local_id i [] = false
has_local_id i (m ∷ ms) = if text_eq i m.local_id then true else has_local_id i ms

-- `isoformat` is datetime.isoformat, of microseconds since 1970 in UTC
module _ (isoformat : ℤ → Text) where
  -- _dt_str
  unfoldable pub dt_str : Option ℕ → Option Text
  dt_str none = none
  dt_str (some t) = some (isoformat (pos t))

  unfoldable pub packet_row : NetworkPacket → PacketRow
  packet_row pkt = record {
    session_id = pkt.session_id;
    observed_at = isoformat (pos pkt.observed_at);
    rx_time = dt_str pkt.rx_time;
    sender_num = pkt.sender_num;
    sender_id = pkt.sender_id;
    destination_num = pkt.destination_num;
    packet_id = pkt.packet_id;
    channel_index = pkt.channel_index;
    portnum = pkt.portnum;
    portnum_name = pkt.portnum_name;
    payload_size = pkt.payload_size;
    rx_snr = pkt.rx_snr;
    rx_rssi = pkt.rx_rssi;
    hop_start = pkt.hop_start;
    hop_limit = pkt.hop_limit;
    hops_used = pkt.hops_used;
    via_mqtt = int_of_flag pkt.via_mqtt;
    transport_mechanism = pkt.transport_mechanism;
    pki_encrypted = int_of_flag pkt.pki_encrypted;
    want_ack = int_of_flag pkt.want_ack;
    priority = pkt.priority;
  }

  -- _write_packet
  unfoldable pub write_packet : NetworkPacket → Database → Database
  write_packet pkt db = record db { packets = db.packets ++ packet_row pkt ∷ [] }

  -- _write_session
  unfoldable pub write_session : NetworkSession → Database → Database
  write_session s db = record db {
    sessions =
        insert s.id
          (record {
            started_at = isoformat (pos s.started_at);
            ended_at = dt_str s.ended_at;
            local_node_num = s.local_node_num;
            local_node_id = s.local_node_id;
            transport = s.transport;
            connection_target = s.connection_target;
            meshtastic_version = s.meshtastic_version;
            firmware_version = s.firmware_version;
          })
          db.sessions;
  }

  unfoldable pub position_record : PositionSample → PositionRecord
  position_record sample = record {
    node_num = sample.node_num;
    observed_at = isoformat (pos sample.observed_at);
    latitude = sample.latitude;
    longitude = sample.longitude;
    altitude_m = sample.altitude_m;
    speed_ms = sample.speed_ms;
    heading_deg = sample.heading_deg;
    position_time = dt_str sample.position_time;
    precision_bits = sample.precision_bits;
  }

  -- _write_position
  unfoldable pub write_position : PositionSample → Database → Database
  write_position sample db = record db { positions = db.positions ++ position_record sample ∷ [] }

  -- _write_telemetry
  unfoldable pub write_telemetry : TelemetrySample → Database → Database
  write_telemetry tel db = record db {
    telemetry =
        db.telemetry
        ++ record {
          node_num = tel.node_num;
          observed_at = isoformat (pos tel.observed_at);
          battery_level = tel.battery_level;
          voltage = tel.voltage;
          channel_utilization = tel.channel_utilization;
          air_util_tx = tel.air_util_tx;
          temperature_c = tel.temperature_c;
          relative_humidity = tel.relative_humidity;
          barometric_pressure_hpa = tel.barometric_pressure_hpa;
          gas_resistance_ohm = tel.gas_resistance_ohm;
        }
          ∷ [];
  }

  unfoldable pub message_row : ChatMessage → MessageRow
  message_row msg = record {
    session_id = msg.session_id;
    local_id = msg.local_id;
    packet_id = msg.packet_id;
    channel_index = msg.channel_index;
    destination_num = msg.destination_num;
    direction = direction_value msg.direction;
    sender_num = msg.sender_num;
    sender_id = msg.sender_id;
    sender_name = msg.sender_name;
    text = msg.text;
    observed_at = isoformat (pos msg.timestamp);
    byte_count = utf8_length msg.text;
    status = status_value msg.status;
  }

  -- _write_message: OR IGNORE leaves a row with the local_id as it is
  unfoldable pub write_message : ChatMessage → Database → Database
  write_message msg db =
      if has_local_id msg.local_id db.messages
      then db
      else record db { messages = db.messages ++ message_row msg ∷ [] }

unfoldable pub update_row : StatusUpdate → MessageRow → MessageRow
update_row u m =
    if text_eq u.local_id m.local_id
    then record m { status = status_value u.status; packet_id = or_else u.packet_id m.packet_id }
    else m

-- _write_message_status
unfoldable pub write_message_status : StatusUpdate → Database → Database
write_message_status u db = record db { messages = map (update_row u) db.messages }

-- _write_setting
unfoldable pub write_setting : String → Text → Database → Database
write_setting k value db = record db { app_settings = insert k value db.app_settings }
