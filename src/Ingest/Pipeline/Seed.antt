-- ===== src/Ingest/Pipeline/Seed.antt =====
-- `seed_from_nodedb` and `seed_from_store` of src/meshchat/services/packet_ingestor.py: the snapshots
-- that are known before the first packet, from the radio's NodeDB and from the store. A coordinate is
-- an integer count of 10⁻⁷ degrees.
pub mod Merging
use orc_mesh.Prelude.{
  ℕ, zero, suc, ◌≡◌, refl, max, Bool, true, false, ◌||◌, not, Option, none, some, List, [], ◌∷◌,
  ◌++◌, ◌==◌, or_else, if◌then◌else◌,
}
use orc_mesh.Prelude.Int.{ℤ, pos, negsuc}
use orc_mesh.Prelude.Text.{Text}
use orc_mesh.Prelude.Dict.{Dict, lookup, insert, nat_eq}
use orc_mesh.Model.Node.{NodeSnapshot, new_node}
use orc_mesh.Model.Samples.{PositionSample, is_valid}
use orc_mesh.Ingest.Raw.{or_text}
use orc_mesh.Ingest.Normalize.{timestamp}
use orc_mesh.Ingest.Nodes.{Nodes, node_or}
use orc_mesh.Ingest.Pipeline.{
  Effect, upsert_node, node_updated, save_position, position_updated, nodedb_seeded, stored,
  emit_node,
}

-- a node of the radio's NodeDB; a missing entry is a None
pub record DbNode : Type 0 where
  pub num : Option ℕ
  pub id : Option Text
  pub long_name : Option Text
  pub short_name : Option Text
  pub role : Option Text
  pub hw_model : Option Text
  pub last_heard : Option ℕ  -- seconds
  pub battery_level : Option ℤ
  pub voltage : Option ℤ
  pub channel_utilization : Option ℤ
  pub air_util_tx : Option ℤ
  pub latitude : Option ℤ
  pub longitude : Option ℤ
  pub altitude : Option ℤ
  pub precision_bits : Option ℕ

-- the updates on the snapshot
unfoldable pub merge_db_node : DbNode → NodeSnapshot → NodeSnapshot
merge_db_node d node = record node {
  node_id = or_text d.id node.node_id;
  long_name = or_text d.long_name node.long_name;
  short_name = or_text d.short_name node.short_name;
  role = or_text d.role node.role;
  hw_model = or_text d.hw_model node.hw_model;
  last_heard = or_else node.last_heard (timestamp d.last_heard);
  battery_level = or_else d.battery_level node.battery_level;
  voltage = or_else d.voltage node.voltage;
  channel_utilization = or_else d.channel_utilization node.channel_utilization;
  air_util_tx = or_else d.air_util_tx node.air_util_tx;
}

is_zero_ℤ : ℤ → Bool
is_zero_ℤ (pos n) = n == 0
is_zero_ℤ (negsuc n) = false

-- a position that is not at 0, 0, where the radio puts one that it does not know
db_position : ℕ → ℕ → DbNode → Option ℤ → Option ℤ → Option PositionSample
unfolding is_zero_ℤ
db_position num now d none longitude = none
db_position num now d (some latitude) none = none
db_position num now d (some latitude) (some longitude) =
    if not (is_zero_ℤ latitude) || not (is_zero_ℤ longitude)
    then some (record {
      node_num = num;
      observed_at = now;
      latitude = some latitude;
      longitude = some longitude;
      altitude_m = d.altitude;
      speed_ms = none;
      heading_deg = none;
      position_time = none;
      precision_bits = d.precision_bits;
    })
    else none

emit_db_position : Bool → Option PositionSample → List Effect
emit_db_position has_store none = []
emit_db_position has_store (some sample) =
    if is_valid sample
    then stored has_store (save_position sample) ++ position_updated sample ∷ []
    else []

-- one node of the list; None is an element that is no dict
unfoldable pub seed_db_node : Bool → ℕ → Option DbNode → Nodes → Nodes × List Effect
unfolding db_position emit_db_position
seed_db_node has_store now none nodes = (nodes, [])
seed_db_node has_store now (some d) nodes = elim d.num [
  | none ↦ (nodes, [])
  | some num ↦
      let fresh = record (new_node num) { first_seen = some now } in
      let node = merge_db_node d (node_or fresh (lookup num nodes)) in
      (
        insert num node nodes,
        emit_node has_store (some node)
            ++ emit_db_position has_store (db_position num now d d.latitude d.longitude),
      )
]

-- seed_from_nodedb
unfoldable pub seed_from_nodedb : Bool → ℕ → List (Option DbNode) → Nodes → Nodes × List Effect
seed_from_nodedb has_store now [] nodes = (nodes, nodedb_seeded ∷ [])
seed_from_nodedb has_store now (d ∷ ds) nodes =
    let (nodes', effects) = seed_db_node has_store now d nodes in
    let (nodes'', later) = seed_from_nodedb has_store now ds nodes' in (nodes'', effects ++ later)

-- a row of the table of nodes; a NULL is a None
pub record NodeRow : Type 0 where
  pub node_num : Option ℕ
  pub node_id : Option Text
  pub long_name : Option Text
  pub short_name : Option Text
  pub role : Option Text
  pub hw_model : Option Text
  pub first_seen : Option Text
  pub last_heard : Option Text
  pub packet_count : Option ℕ
  pub text_count : Option ℕ
  pub rf_count : Option ℕ
  pub via_mqtt_count : Option ℕ
  pub position_count : Option ℕ
  pub telemetry_count : Option ℕ
  pub last_snr : Option ℤ
  pub last_rssi : Option ℤ
  pub last_hops_used : Option ℕ
  pub last_hop_start : Option ℕ
  pub last_via_mqtt : Option Bool

-- a row of the table of positions
pub record PositionRow : Type 0 where
  pub observed_at : Option Text
  pub latitude : Option ℤ
  pub longitude : Option ℤ
  pub altitude_m : Option ℤ
  pub speed_ms : Option ℤ
  pub heading_deg : Option ℤ
  pub precision_bits : Option ℕ

abbrev pub or_0 : Option ℕ → ℕ
or_0 none = 0
or_0 (some n) = n

abbrev pub or_now : ℕ → Option ℕ → ℕ
or_now now none = now
or_now now (some t) = t

-- `fromisoformat` is Python's parser of dates, None where it raises
module _ (fromisoformat : Text → Option ℕ) where
  -- _parse_dt
  unfoldable pub parse_dt : Option Text → Option ℕ
  parse_dt none = none
  parse_dt (some []) = none
  parse_dt (some (c ∷ s)) = fromisoformat (c ∷ s)

  unfoldable pub merge_row : NodeRow → NodeSnapshot → NodeSnapshot
  merge_row row node = record node {
    node_id = or_text row.node_id node.node_id;
    long_name = or_text row.long_name node.long_name;
    short_name = or_text row.short_name node.short_name;
    role = or_text row.role node.role;
    hw_model = or_text row.hw_model node.hw_model;
    first_seen = or_else node.first_seen (parse_dt row.first_seen);
    last_heard = or_else node.last_heard (parse_dt row.last_heard);
    packet_count = max node.packet_count (or_0 row.packet_count);
    text_count = max node.text_count (or_0 row.text_count);
    rf_count = max node.rf_count (or_0 row.rf_count);
    via_mqtt_count = max node.via_mqtt_count (or_0 row.via_mqtt_count);
    position_count = max node.position_count (or_0 row.position_count);
    telemetry_count = max node.telemetry_count (or_0 row.telemetry_count);
    last_snr = or_else node.last_snr row.last_snr;
    last_rssi = or_else node.last_rssi row.last_rssi;
    last_hops_used = or_else node.last_hops_used row.last_hops_used;
    last_hop_start = or_else node.last_hop_start row.last_hop_start;
    last_via_mqtt = or_else node.last_via_mqtt row.last_via_mqtt;
  }

  row_position : ℕ → ℕ → PositionRow → Option ℤ → Option ℤ → Option PositionSample
  unfolding parse_dt
  row_position num now p none longitude = none
  row_position num now p (some latitude) none = none
  row_position num now p (some latitude) (some longitude) = some (record {
    node_num = num;
    observed_at = or_now now (parse_dt p.observed_at);
    latitude = some latitude;
    longitude = some longitude;
    altitude_m = p.altitude_m;
    speed_ms = p.speed_ms;
    heading_deg = p.heading_deg;
    position_time = none;
    precision_bits = p.precision_bits;
  })

  emit_row_position : Option PositionSample → List Effect
  emit_row_position none = []
  emit_row_position (some sample) = if is_valid sample then position_updated sample ∷ [] else []

  position_of : ℕ → ℕ → Option PositionRow → Option PositionSample
  unfolding row_position
  position_of num now none = none
  position_of num now (some p) = row_position num now p p.latitude p.longitude

  unfoldable pub seed_row : ℕ → Dict ℕ PositionRow → NodeRow → Nodes → Nodes × List Effect
  unfolding emit_row_position position_of
  seed_row now positions row nodes = elim row.node_num [
    | none ↦ (nodes, [])
    | some num ↦
        let node = merge_row row (node_or (new_node num) (lookup num nodes)) in
        (
          insert num node nodes,
          node_updated node ∷ emit_row_position (position_of num now (lookup num positions)),
        )
  ]

  -- seed_from_store
  unfoldable pub seed_from_store :
      ℕ → Dict ℕ PositionRow → List NodeRow → Nodes → Nodes × List Effect
  seed_from_store now positions [] nodes = (nodes, nodedb_seeded ∷ [])
  seed_from_store now positions (row ∷ rows) nodes =
      let (nodes', effects) = seed_row now positions row nodes in
      let (nodes'', later) = seed_from_store now positions rows nodes' in
      (nodes'', effects ++ later)
