-- ===== src/Store/Nodes.antt =====
-- MonitorStore._write_node of src/meshchat/services/monitor_store.py: the row of a node, and the
-- INSERT .. ON CONFLICT(node_num) DO UPDATE.
pub mod History
use orc_mesh.Prelude.{ℕ, Option, none, some, leb, or_else, if◌then◌else◌}
use orc_mesh.Prelude.Int.{ℤ}
use orc_mesh.Prelude.Text.{Text}
use orc_mesh.Prelude.Dict.{insert, lookup, nat_eq}
use orc_mesh.Model.Node.{NodeSnapshot}
use orc_mesh.Ingest.Pipeline.Seed.{NodeRow}
use orc_mesh.Store.Columns.{leb_text, sql_max, is_as_new}
use orc_mesh.Store.Tables.{Database, dt_str}

-- the DO UPDATE: `excluded` is the row that the statement offers
unfoldable pub upsert_row : NodeRow → NodeRow → NodeRow
upsert_row excluded stored =
    let newer = is_as_new excluded.last_heard stored.last_heard in
    record stored {
      node_id = excluded.node_id;
      long_name = or_else excluded.long_name stored.long_name;
      short_name = or_else excluded.short_name stored.short_name;
      role = or_else excluded.role stored.role;
      hw_model = or_else excluded.hw_model stored.hw_model;
      last_heard =
          or_else (sql_max leb_text excluded.last_heard stored.last_heard)
            (or_else excluded.last_heard stored.last_heard);
      packet_count = sql_max leb excluded.packet_count stored.packet_count;
      text_count = sql_max leb excluded.text_count stored.text_count;
      last_snr = if newer then excluded.last_snr else stored.last_snr;
      last_rssi = if newer then excluded.last_rssi else stored.last_rssi;
      last_hops_used = if newer then excluded.last_hops_used else stored.last_hops_used;
      last_hop_start = if newer then excluded.last_hop_start else stored.last_hop_start;
      last_via_mqtt = if newer then excluded.last_via_mqtt else stored.last_via_mqtt;
      rf_count = sql_max leb excluded.rf_count stored.rf_count;
      via_mqtt_count = sql_max leb excluded.via_mqtt_count stored.via_mqtt_count;
      position_count = sql_max leb excluded.position_count stored.position_count;
      telemetry_count = sql_max leb excluded.telemetry_count stored.telemetry_count;
    }

-- the stored row is updated, a missing one is the offered row
unfoldable pub upserted : NodeRow → Option NodeRow → NodeRow
upserted excluded none = excluded
upserted excluded (some stored) = upsert_row excluded stored

module _ (isoformat : ℤ → Text) where
  -- the VALUES
  unfoldable pub node_row : NodeSnapshot → NodeRow
  node_row node = record {
    node_num = some node.node_num;
    node_id = node.node_id;
    long_name = node.long_name;
    short_name = node.short_name;
    role = node.role;
    hw_model = node.hw_model;
    first_seen = dt_str isoformat node.first_seen;
    last_heard = dt_str isoformat node.last_heard;
    packet_count = some node.packet_count;
    text_count = some node.text_count;
    rf_count = some node.rf_count;
    via_mqtt_count = some node.via_mqtt_count;
    position_count = some node.position_count;
    telemetry_count = some node.telemetry_count;
    last_snr = node.last_snr;
    last_rssi = node.last_rssi;
    last_hops_used = node.last_hops_used;
    last_hop_start = node.last_hop_start;
    last_via_mqtt = node.last_via_mqtt;
  }

  -- _write_node
  unfoldable pub write_node : NodeSnapshot → Database → Database
  write_node node db = record db {
    nodes =
        insert node.node_num (upserted (node_row node) (lookup node.node_num db.nodes)) db.nodes;
  }
