-- ===== src/Ingest/Nodes.antt =====
-- `_update_node` and `_merge_telemetry_into_node` of src/meshchat/services/packet_ingestor.py: the node
-- snapshots. The dict of live snapshots is a list of pairs; a snapshot that is emitted is a copy.
pub mod Counters
pub mod Heard
pub mod Direct
use orc_mesh.Prelude.{
  ℕ, zero, suc, ◌+◌, ◌≡◌, refl, Bool, true, false, Option, none, some, List, [], ◌∷◌, ◌==◌, or_else,
  if◌then◌else◌,
}
use orc_mesh.Prelude.Int.{ℤ}
use orc_mesh.Prelude.Text.{Text}
use orc_mesh.Prelude.Dict.{Dict, lookup, insert, nat_eq}
use orc_mesh.Analytics.Classifier.{is_port, portnum_text, portnum_position, portnum_telemetry}
use orc_mesh.Model.Packet.{NetworkPacket}
use orc_mesh.Model.Node.{NodeSnapshot, new_node}
use orc_mesh.Model.Samples.{TelemetrySample}
use orc_mesh.Ingest.Raw.{Cell, absent, null, value, get, or_text, User}

abbrev pub Nodes : Type 0
Nodes = Dict ℕ NodeSnapshot

-- self._nodes.get(num), or the snapshot that is made for a node that is new
unfoldable pub node_or : NodeSnapshot → Option NodeSnapshot → NodeSnapshot
node_or fresh none = fresh
node_or fresh (some node) = node

-- tri-state: a packet that does not say how it came counts for neither
unfoldable pub count_transport : Option Bool → NodeSnapshot → NodeSnapshot
count_transport none node = node
count_transport (some true) node = record node { via_mqtt_count = node.via_mqtt_count + 1 }
count_transport (some false) node = record node { rf_count = node.rf_count + 1 }

unfoldable pub count_port : Option ℤ → NodeSnapshot → NodeSnapshot
count_port portnum node =
    if is_port portnum_text portnum
    then record node { text_count = node.text_count + 1 }
    else if is_port portnum_position portnum
    then record node { position_count = node.position_count + 1 }
    else if is_port portnum_telemetry portnum
    then record node { telemetry_count = node.telemetry_count + 1 }
    else node

unfoldable pub observe : ℕ → NetworkPacket → NodeSnapshot → NodeSnapshot
observe now pkt node = record node {
  last_heard = some now;
  packet_count = node.packet_count + 1;
  last_snr = pkt.rx_snr;
  last_rssi = pkt.rx_rssi;
  last_hops_used = pkt.hops_used;
  last_hop_start = pkt.hop_start;
  last_via_mqtt = pkt.via_mqtt;
}

-- `if not node.node_id`
id_or : Option Text → Option Text → Option Text
id_or none other_id = other_id
id_or (some []) other_id = other_id
id_or (some (c ∷ s)) other_id = some (c ∷ s)

-- the names and the role of a NodeInfo packet
unfoldable pub merge_user : Option User → NetworkPacket → NodeSnapshot → NodeSnapshot
unfolding id_or
merge_user none pkt node = node
merge_user (some user) pkt node = record node {
  long_name = or_text (get user.long_name) (or_text (get user.long_name_snake) node.long_name);
  short_name = or_text (get user.short_name) (or_text (get user.short_name_snake) node.short_name);
  role = or_text (get user.role) node.role;
  hw_model = or_text (get user.hw_model) (or_text (get user.hw_model_snake) node.hw_model);
  node_id = id_or node.node_id (or_text (get user.id) pkt.sender_id);
}

-- the updates of one packet on its sender's snapshot, in order
unfoldable pub heard : ℕ → NetworkPacket → Option User → NodeSnapshot → NodeSnapshot
unfolding observe count_transport count_port merge_user
heard now pkt user node =
    merge_user user pkt
      (count_port pkt.portnum (count_transport pkt.via_mqtt (observe now pkt node)))

unfoldable pub first_heard : ℕ → ℕ → NetworkPacket → NodeSnapshot
unfolding new_node
first_heard num now pkt = record (new_node num) { node_id = pkt.sender_id; first_seen = some now }

-- _update_node: the snapshots afterwards and the copy that is emitted, if any
unfoldable pub update_node : ℕ → NetworkPacket → Option User → Nodes → Nodes × Option NodeSnapshot
update_node now pkt user nodes = elim pkt.sender_num [
  | none ↦ (nodes, none)
  | some num ↦
      let node = heard now pkt user (node_or (first_heard num now pkt) (lookup num nodes)) in
      (insert num node nodes, some node)
]

-- a reading replaces the last one; a missing one does not
unfoldable pub merge_readings : TelemetrySample → NodeSnapshot → NodeSnapshot
merge_readings sample node = record node {
  last_telemetry_at = some sample.observed_at;
  battery_level = or_else sample.battery_level node.battery_level;
  voltage = or_else sample.voltage node.voltage;
  channel_utilization = or_else sample.channel_utilization node.channel_utilization;
  air_util_tx = or_else sample.air_util_tx node.air_util_tx;
  temperature_c = or_else sample.temperature_c node.temperature_c;
  relative_humidity = or_else sample.relative_humidity node.relative_humidity;
  barometric_pressure_hpa = or_else sample.barometric_pressure_hpa node.barometric_pressure_hpa;
}

-- _merge_telemetry_into_node; the sample always has a node number
unfoldable pub merge_telemetry : TelemetrySample → Nodes → Nodes × NodeSnapshot
unfolding new_node
merge_telemetry sample nodes =
    let fresh = record (new_node sample.node_num) { first_seen = some sample.observed_at } in
    let node = merge_readings sample (node_or fresh (lookup sample.node_num nodes)) in
    (insert sample.node_num node nodes, node)
