-- ===== src/Examples/Storing.antt =====
-- The theorems on the store, at concrete inputs.
use orc_mesh.Prelude.{
  ℕ, zero, suc, ◌+◌, ◌≡◌, ◌≤◌, refl, true, false, Option, none, some, List, [], ◌∷◌, ◌++◌, arith,
  map, keep, length, ◌==◌,
}
use orc_mesh.Prelude.Int.{ℤ, pos, negsuc}
use orc_mesh.Prelude.Text.{Text, codes}
use orc_mesh.Prelude.Dict.{lookup, nat_eq, string_eq}
use orc_mesh.Model.Packet.{NetworkPacket}
use orc_mesh.Model.Node.{NodeSnapshot, new_node}
use orc_mesh.Ingest.Pipeline.Seed.{NodeRow, parse_dt, seed_row}
use orc_mesh.Store.Tables.{empty_database, packet_row}
use orc_mesh.Store.Items.{setting, vacuum, SqlError, operational, is_write, write_item_with_retry}
use orc_mesh.Store.Items.Retry.{IsEnd, write_item_with_retry-IsEnd}
use orc_mesh.Store.Nodes.{write_node}
use orc_mesh.Store.Nodes.History.{write_nodes, IsStored, write_nodes-IsStored}
use orc_mesh.Store.Writer.{
  Store, Environment, Action, send, stop_writer, take_turn, run, queue_capacity,
}
use orc_mesh.Store.Writer.Log.{fated, count_failed}
use orc_mesh.Store.Writer.Replay.{replay, run-replay}
use orc_mesh.Store.Writer.Fates.{waiting}
use orc_mesh.Store.Writer.Runs.{count_sent, accepted, run-fated, run-counts}
use orc_mesh.Store.Writer.Drain.{before_sentinel, drain}
use orc_mesh.Store.Reads.{
  packet_of_row, persisted, IsIso, packet_of_row-packet_row, seed_row-write_node,
}

-- a time written as one character
abbrev iso : ℤ → Text
iso (pos t) = t ∷ []
iso (negsuc n) = []

abbrev from_iso : Text → Option ℕ
from_iso [] = none
from_iso (c ∷ s) = some c

-- the first item is locked out once, the second one for good
abbrev locked : ℕ → ℕ → Option SqlError
locked zero (suc zero) = some (operational (codes "database is locked"))
locked zero attempt = none
locked (suc i) attempt = some (operational (codes "no such column"))

abbrev weather : Environment
weather = record {
  outcome = locked;
  ends = λ i attempt. false;
  begin_error = none;
  commit_error = none;
  backup_fails = λ id. false;
  prune_fails = λ days. false;
  now = 0;
}

abbrev actions : List Action
actions =
    send (setting "a" (codes "1"))
    ∷ send (setting "b" (codes "2"))
    ∷ send vacuum
    ∷ take_turn weather
    ∷ stop_writer
    ∷ take_turn weather
    ∷ take_turn weather
    ∷ take_turn weather
    ∷ []

abbrev start : Store
start = record {
  queue = [];
  batch = setting "c" (codes "3") ∷ [];
  stop = false;
  blocked = 0;
  running = true;
  dropped_count = 0;
  failed_count = 0;
  last_error = none;
  database = empty_database;
}

run-fated_example :
    waiting start ++ keep is_write (accepted iso actions start)
    ≡ fated (run iso actions start).1 ++ waiting (run iso actions start).0
run-fated_example = run-fated iso actions start

run-replay_example :
    (run iso actions start).0.database ≡ replay iso (run iso actions start).1 empty_database
run-replay_example = run-replay iso actions start

run-counts_example :
    let (end, log) = run iso actions start in
    (end.failed_count ≡ 0 + count_failed log)
    × (end.dropped_count + length (accepted iso actions start) ≡ 0 + count_sent actions)
    × (length end.queue ≤ queue_capacity)
run-counts_example = run-counts iso actions start (omega arith)

abbrev stopping : Store
stopping = record start { stop = true; queue = some (setting "d" (codes "4")) ∷ none ∷ [] }

drain_example :
    let (end, log) = run iso (map take_turn (weather ∷ weather ∷ weather ∷ [])) stopping in
    (fated log ≡ keep is_write (stopping.batch ++ before_sentinel stopping.queue))
    × (end.running ≡ false)
    × (end.batch ≡ [])
drain_example = drain iso (weather ∷ weather ∷ weather ∷ []) stopping refl refl (omega arith)

write_item_with_retry-IsEnd_example : IsEnd (locked 0) (write_item_with_retry (locked 0))
write_item_with_retry-IsEnd_example = write_item_with_retry-IsEnd (locked 0)

abbrev heard_at : ℕ → ℕ → NodeSnapshot
heard_at t count = record (new_node 7) {
  long_name = some (codes "Base");
  last_heard = some t;
  packet_count = count;
  last_hops_used = some count;
}

abbrev writes : List NodeSnapshot
writes = heard_at 5 3 ∷ heard_at 9 2 ∷ new_node 8 ∷ []

write_nodes-IsStored_example :
    IsStored iso
      (lookup 7 (write_nodes iso writes empty_database).nodes)
      (keep (λ w. w.node_num == 7) writes)
unfolding lookup empty_database
write_nodes-IsStored_example = write_nodes-IsStored iso 7 writes empty_database refl

iso-IsIso : IsIso iso from_iso
unfolding IsIso parse_dt
iso-IsIso t = refl

seed_row-write_node_example :
    (row : NodeRow) × (lookup 7 (write_node iso (heard_at 5 3) empty_database).nodes ≡ some row)
    × (lookup 7 (seed_row from_iso 1 [] row []).0 ≡ some (persisted (heard_at 5 3)))
unfolding lookup empty_database new_node
seed_row-write_node_example =
    seed_row-write_node iso from_iso iso-IsIso 1 (heard_at 5 3) empty_database refl

abbrev received : NetworkPacket
received = record {
  session_id = codes "s";
  observed_at = 9;
  rx_time = some 8;
  sender_num = some 7;
  sender_id = none;
  destination_num = some 4_294_967_295;
  packet_id = some 1;
  channel_index = 0;
  portnum = some (pos 1);
  portnum_name = codes "TEXT_MESSAGE_APP";
  text = some (codes "hi");
  payload_size = some 2;
  rx_snr = some (negsuc 3);
  rx_rssi = none;
  hop_start = some 3;
  hop_limit = some 3;
  hops_used = some 0;
  via_mqtt = some false;
  transport_mechanism = none;
  pki_encrypted = none;
  want_ack = some true;
  priority = none;
  raw_metadata = none;
}

packet_of_row-packet_row_example :
    packet_of_row from_iso 1 (packet_row iso received)
    ≡ record received { text = none; raw_metadata = none }
packet_of_row-packet_row_example = packet_of_row-packet_row iso from_iso iso-IsIso 1 received
