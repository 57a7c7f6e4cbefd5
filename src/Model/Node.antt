-- ===== src/Model/Node.antt =====
-- `NodeSnapshot` of src/meshchat/models/node_snapshot.py.
use orc_mesh.Prelude.{◌&&◌, not, ℕ, Bool, Option, none}
use orc_mesh.Prelude.Int.{ℤ}
use orc_mesh.Prelude.Text.{Text}
use orc_mesh.Model.Packet.{is_zero, is_positive, is_true}

pub record NodeSnapshot : Type 0 where
  pub node_num : ℕ
  pub node_id : Option Text
  pub long_name : Option Text
  pub short_name : Option Text
  pub role : Option Text
  pub hw_model : Option Text
  pub first_seen : Option ℕ
  pub last_heard : Option ℕ
  pub packet_count : ℕ
  pub text_count : ℕ
  pub position_count : ℕ
  pub telemetry_count : ℕ
  pub last_snr : Option ℤ
  pub last_rssi : Option ℤ
  pub last_hops_used : Option ℕ
  pub last_hop_start : Option ℕ
  pub last_via_mqtt : Option Bool
  pub via_mqtt_count : ℕ
  pub rf_count : ℕ
  pub last_telemetry_at : Option ℕ
  pub battery_level : Option ℤ
  pub voltage : Option ℤ
  pub channel_utilization : Option ℤ
  pub air_util_tx : Option ℤ
  pub temperature_c : Option ℤ
  pub relative_humidity : Option ℤ
  pub barometric_pressure_hpa : Option ℤ

-- NodeSnapshot(node_num=num), with the defaults of the dataclass
unfoldable pub new_node : ℕ → NodeSnapshot
new_node num = record {
  node_num = num;
  node_id = none;
  long_name = none;
  short_name = none;
  role = none;
  hw_model = none;
  first_seen = none;
  last_heard = none;
  packet_count = 0;
  text_count = 0;
  position_count = 0;
  telemetry_count = 0;
  last_snr = none;
  last_rssi = none;
  last_hops_used = none;
  last_hop_start = none;
  last_via_mqtt = none;
  via_mqtt_count = 0;
  rf_count = 0;
  last_telemetry_at = none;
  battery_level = none;
  voltage = none;
  channel_utilization = none;
  air_util_tx = none;
  temperature_c = none;
  relative_humidity = none;
  barometric_pressure_hpa = none;
}

-- NodeSnapshot.is_direct
unfoldable pub node_is_direct : NodeSnapshot → Bool
node_is_direct node =
    is_zero node.last_hops_used
    && (is_positive node.last_hop_start && not (is_true node.last_via_mqtt))
