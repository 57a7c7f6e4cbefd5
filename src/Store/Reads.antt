-- ===== src/Store/Reads.antt =====
-- What src/meshchat/services/monitor_store.py reads back: get_setting, packet_count, the packets as
-- objects, and a node's row as the ingestor seeds a snapshot from it after a restart.
use orc_mesh.Prelude.{ℕ, ◌≡◌, refl, ap, max, Option, none, some, [], arith, length, keep, String}
use orc_mesh.Prelude.Int.{ℤ, pos}
use orc_mesh.Prelude.Text.{Text, text_eq}
use orc_mesh.Prelude.Dict.{beq_refl, lookup, lookup-insert, insert, nat_eq, string_eq}
use orc_mesh.Model.Packet.{NetworkPacket}
use orc_mesh.Model.Node.{NodeSnapshot, new_node}
use orc_mesh.Ingest.Raw.{or_text}
use orc_mesh.Ingest.Nodes.{node_or}
use orc_mesh.Ingest.Pipeline.Seed.{NodeRow, or_now, parse_dt, merge_row, seed_row}
use orc_mesh.Store.Columns.{flag_of_int, flag_of_int-int_of_flag}
use orc_mesh.Store.Tables.{Database, PacketRow, packet_row, dt_str}
use orc_mesh.Store.Nodes.{node_row, write_node, upserted}

-- get_setting
unfoldable pub get_setting : String → Database → Option Text
get_setting k db = lookup k db.app_settings

-- packet_count
unfoldable pub packet_count : Text → Database → ℕ
packet_count session db = length (keep (λ (r : PacketRow). text_eq r.session_id session) db.packets)

-- the loop body of read_packets_as_objects
unfoldable pub packet_of_row : (Text → Option ℕ) → ℕ → PacketRow → NetworkPacket
packet_of_row fromisoformat now r = record {
  session_id = r.session_id;
  observed_at = or_now now (parse_dt fromisoformat (some r.observed_at));
  rx_time = parse_dt fromisoformat r.rx_time;
  sender_num = r.sender_num;
  sender_id = r.sender_id;
  destination_num = r.destination_num;
  packet_id = r.packet_id;
  channel_index = r.channel_index;
  portnum = r.portnum;
  portnum_name = r.portnum_name;
  text = none;
  payload_size = r.payload_size;
  rx_snr = r.rx_snr;
  rx_rssi = r.rx_rssi;
  hop_start = r.hop_start;
  hop_limit = r.hop_limit;
  hops_used = r.hops_used;
  via_mqtt = flag_of_int r.via_mqtt;
  transport_mechanism = r.transport_mechanism;
  pki_encrypted = flag_of_int r.pki_encrypted;
  want_ack = flag_of_int r.want_ack;
  priority = r.priority;
  raw_metadata = none;
}

-- the fields of a snapshot that its row holds; an empty text reads back as None
unfoldable pub persisted : NodeSnapshot → NodeSnapshot
persisted node = record (new_node node.node_num) {
  node_id = or_text node.node_id none;
  long_name = or_text node.long_name none;
  short_name = or_text node.short_name none;
  role = or_text node.role none;
  hw_model = or_text node.hw_model none;
  first_seen = node.first_seen;
  last_heard = node.last_heard;
  packet_count = node.packet_count;
  text_count = node.text_count;
  rf_count = node.rf_count;
  via_mqtt_count = node.via_mqtt_count;
  position_count = node.position_count;
  telemetry_count = node.telemetry_count;
  last_snr = node.last_snr;
  last_rssi = node.last_rssi;
  last_hops_used = node.last_hops_used;
  last_hop_start = node.last_hop_start;
  last_via_mqtt = node.last_via_mqtt;
}

zero_max : (n : ℕ) → max 0 n ≡ n
zero_max n = omega arith

module _ (isoformat : ℤ → Text) (fromisoformat : Text → Option ℕ) where
  -- A time is read back as it was written.
  unfoldable pub IsIso : Type 0
  IsIso = (t : ℕ) → parse_dt fromisoformat (some (isoformat (pos t))) ≡ some t

  parse_dt-dt_str : IsIso → (t : Option ℕ) → parse_dt fromisoformat (dt_str isoformat t) ≡ t
  unfolding IsIso dt_str parse_dt
  parse_dt-dt_str iso none = refl
  parse_dt-dt_str iso (some t) = iso t

  -- Where the ISO text of a time reads back as that time, a packet that is written and read back is
  -- the packet, without its text and its raw metadata.
  pub packet_of_row-packet_row :
      IsIso
      → (now : ℕ) (p : NetworkPacket)
      → packet_of_row fromisoformat now (packet_row isoformat p)
        ≡ record p { text = none; raw_metadata = none }
  unfolding packet_of_row packet_row IsIso
  packet_of_row-packet_row iso now p =
      simp (iso p.observed_at, parse_dt-dt_str iso p.rx_time, flag_of_int-int_of_flag)

  merge_row-node_row :
      IsIso
      → (node : NodeSnapshot)
      → merge_row fromisoformat (node_row isoformat node) (new_node node.node_num) ≡ persisted node
  unfolding merge_row node_row persisted new_node
  merge_row-node_row iso node =
      simp (parse_dt-dt_str iso node.first_seen, parse_dt-dt_str iso node.last_heard, zero_max)

  lookup-write_node :
      (node : NodeSnapshot) (db : Database)
      → lookup node.node_num db.nodes ≡ none
      → lookup node.node_num (write_node isoformat node db).nodes ≡ some (node_row isoformat node)
  unfolding write_node upserted
  lookup-write_node node db absent =
      rw
        (
          absent,
          lookup-insert node.node_num node.node_num (node_row isoformat node) db.nodes,
          beq_refl node.node_num,
        )
        refl

  -- A node that is written to a table without it has a row then, and seeding a new ingestor from that
  -- row, as after a restart, makes the node known again with its names, times, counters and the state
  -- of its last packet, if the ISO text of a time reads back as that time. Only a name that is the
  -- empty text is None then, and the telemetry is not stored there.
  pub seed_row-write_node :
      IsIso
      → (now : ℕ) (node : NodeSnapshot) (db : Database) → lookup node.node_num db.nodes ≡ none
      → (row : NodeRow) × (lookup node.node_num (write_node isoformat node db).nodes ≡ some row)
        × (lookup node.node_num (seed_row fromisoformat now [] row []).0 ≡ some (persisted node))
  unfolding seed_row node_row node_or lookup insert
  seed_row-write_node iso now node db absent = (
    node_row isoformat node,
    lookup-write_node node db absent,
    rw (beq_refl node.node_num) (ap some (merge_row-node_row iso node)),
  )
