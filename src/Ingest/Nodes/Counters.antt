-- ===== src/Ingest/Nodes/Counters.antt =====
-- What the counters and readings of a node snapshot say.
use mathlib.Core.Path.{subst}
use orc_mesh.Prelude.{
  sym, ◌∙◌, Bool-cases, ==_iff, ℕ, ◌+◌, ◌≤◌, ◌≡◌, refl, Option, none, some, [], arith, ◌==◌,
  if◌then◌else◌, Option-cases, inl, inr,
}
use orc_mesh.Prelude.Dict.{lookup, insert, lookup-insert, nat_eq}
use orc_mesh.Model.Packet.{NetworkPacket}
use orc_mesh.Model.Node.{NodeSnapshot, new_node}
use orc_mesh.Model.Samples.{TelemetrySample}
use orc_mesh.Ingest.Raw.{User}
use orc_mesh.Ingest.Nodes.{
  Nodes, node_or, heard, first_heard, update_node, merge_readings, merge_telemetry,
}

-- Every counted packet is counted once by transport at most, and once by kind at most.
pub record IsCounted (node : NodeSnapshot) : Type 0 where
  pub transports : node.rf_count + node.via_mqtt_count ≤ node.packet_count
  pub kinds : node.text_count + node.position_count + node.telemetry_count ≤ node.packet_count

heard-IsCounted :
    (now : ℕ) (pkt : NetworkPacket) (user : Option User) (node : NodeSnapshot)
    → IsCounted node
    → IsCounted (heard now pkt user node)
unfolding heard
heard-IsCounted now pkt none node h = ground arith
heard-IsCounted now pkt (some user) node h = ground arith

node_num-heard :
    (now : ℕ) (pkt : NetworkPacket) (user : Option User) (node : NodeSnapshot)
    → (heard now pkt user node).node_num ≡ node.node_num
unfolding heard
node_num-heard now pkt none node = ground arith
node_num-heard now pkt (some user) node = ground arith

-- The map of snapshots: each stands under its own number, with consistent counters.
pub record IsNodes (nodes : Nodes) : Type 0 where
  pub keyed : (num : ℕ) (node : NodeSnapshot) → lookup num nodes ≡ some node → node.node_num ≡ num
  pub counted : (num : ℕ) (node : NodeSnapshot) → lookup num nodes ≡ some node → IsCounted node

pub IsNodes-empty : IsNodes []
unfolding lookup
IsNodes-empty = record { keyed = λ num node e. cc; counted = λ num node e. cc }

-- writing a snapshot that is in order under its number
pub IsNodes-insert :
    (num : ℕ) (node : NodeSnapshot) (nodes : Nodes)
    → node.node_num ≡ num
    → IsCounted node
    → IsNodes nodes
    → IsNodes (insert num node nodes)
IsNodes-insert num node nodes k c h = record {
  keyed = λ j other e. elim (Bool-cases (num == j)) [
    | inl same ↦
        let found = some_eq (rw same at (e' j other e)) in
        subst (λ (n : NodeSnapshot). n.node_num ≡ j) found (k ∙ (==_iff num j).0 same)
    | inr differs ↦ h.keyed j other (rw differs at (e' j other e))
  ];
  counted = λ j other e. elim (Bool-cases (num == j)) [
    | inl same ↦ subst IsCounted (some_eq (rw same at (e' j other e))) c
    | inr differs ↦ h.counted j other (rw differs at (e' j other e))
  ];
}
  where
    e' :
        (j : ℕ) (other : NodeSnapshot)
        → lookup j (insert num node nodes) ≡ some other
        → (if num == j then some node else lookup j nodes) ≡ some other
    e' j other e = sym (lookup-insert num j node nodes) ∙ e

    some_eq : {a b : NodeSnapshot} → some a ≡ some b → a ≡ b
    some_eq e = cc

start-IsCounted : (num now : ℕ) (pkt : NetworkPacket) → IsCounted (first_heard num now pkt)
unfolding first_heard
start-IsCounted num now pkt = ground arith

node_or-first_heard :
    (num now : ℕ) (pkt : NetworkPacket) (nodes : Nodes)
    → IsNodes nodes
    → let node = node_or (first_heard num now pkt) (lookup num nodes) in
      IsCounted node × (node.node_num ≡ num)
unfolding node_or
node_or-first_heard num now pkt nodes h = elim (Option-cases (lookup num nodes)) [
  | inl absent ↦ rw absent (start-IsCounted num now pkt, unfold first_heard in refl)
  | inr (node, present) ↦ rw present (h.counted num node present, h.keyed num node present)
]

-- A packet keeps the map in order.
pub update_node-IsNodes :
    (now : ℕ) (pkt : NetworkPacket) (user : Option User) (nodes : Nodes)
    → IsNodes nodes
    → IsNodes (update_node now pkt user nodes).0
unfolding update_node
update_node-IsNodes now pkt user nodes h = elim (Option-cases pkt.sender_num) [
  | inl anonymous ↦ rw (anonymous, update_node) h
  | inr (num, known) ↦
      let (counted, keyed) = node_or-first_heard num now pkt nodes h in
      rw (known, update_node)
        (IsNodes-insert num _ nodes (node_num-heard now pkt user _ ∙ keyed)
          (heard-IsCounted now pkt user _ counted) h)
]

merge_readings-IsCounted :
    (sample : TelemetrySample) (node : NodeSnapshot)
    → IsCounted node
    → IsCounted (merge_readings sample node)
unfolding merge_readings
merge_readings-IsCounted sample node h = record { transports = h.transports; kinds = h.kinds }

fresh-IsCounted :
    (num : ℕ) (seen : Option ℕ) → IsCounted (record (new_node num) { first_seen = seen })
unfolding new_node
fresh-IsCounted num seen = ground arith

-- A telemetry sample keeps the map in order.
pub merge_telemetry-IsNodes :
    (sample : TelemetrySample) (nodes : Nodes)
    → IsNodes nodes
    → IsNodes (merge_telemetry sample nodes).0
unfolding merge_telemetry node_or
merge_telemetry-IsNodes sample nodes h = elim (Option-cases (lookup sample.node_num nodes)) [
  | inl absent ↦ rw absent (
      IsNodes-insert sample.node_num _ nodes (unfold merge_readings in refl)
        (merge_readings-IsCounted sample _
          (fresh-IsCounted sample.node_num (some sample.observed_at)))
        h)
  | inr (node, present) ↦ rw present (
      IsNodes-insert sample.node_num _ nodes
        (unfold merge_readings in h.keyed sample.node_num node present)
        (merge_readings-IsCounted sample node (h.counted sample.node_num node present)) h)
]
