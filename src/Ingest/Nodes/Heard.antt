-- ===== src/Ingest/Nodes/Heard.antt =====
-- How many packets the snapshot of a node has counted.
use orc_mesh.Prelude.{
  ℕ, suc, ◌+◌, ◌≡◌, refl, ap, ◌∙◌, Bool, true, false, Option, none, some, arith, ◌==◌, ==_iff,
  if◌then◌else◌, Bool-cases, Option-cases, inl, inr,
}
use orc_mesh.Prelude.Dict.{lookup, insert, lookup-insert, nat_eq}
use orc_mesh.Model.Packet.{NetworkPacket}
use orc_mesh.Model.Node.{NodeSnapshot, new_node}
use orc_mesh.Model.Samples.{TelemetrySample}
use orc_mesh.Ingest.Raw.{User}
use orc_mesh.Ingest.Nodes.{
  Nodes, node_or, heard, first_heard, update_node, merge_readings, merge_telemetry,
}

abbrev pub count_of : Option NodeSnapshot → ℕ
count_of none = 0
count_of (some node) = node.packet_count

-- the packets that node `num` has sent, by its snapshot
abbrev pub heard_from : ℕ → Nodes → ℕ
heard_from num nodes = count_of (lookup num nodes)

abbrev pub sent_by : ℕ → Option ℕ → Bool
sent_by num none = false
sent_by num (some sender) = sender == num

abbrev pub one_if : Bool → ℕ
one_if true = 1
one_if false = 0

packet_count-heard :
    (now : ℕ) (pkt : NetworkPacket) (user : Option User) (node : NodeSnapshot)
    → (heard now pkt user node).packet_count ≡ suc node.packet_count
unfolding heard
packet_count-heard now pkt none node = ground arith
packet_count-heard now pkt (some user) node = ground arith

pub packet_count-node_or :
    (fresh : NodeSnapshot) (o : Option NodeSnapshot)
    → fresh.packet_count ≡ 0
    → (node_or fresh o).packet_count ≡ count_of o
unfolding node_or
packet_count-node_or fresh none h = h
packet_count-node_or fresh (some node) h = refl

pub count_of-insert :
    (j num : ℕ) (node : NodeSnapshot) (nodes : Nodes)
    → heard_from num (insert j node nodes)
      ≡ (if j == num then node.packet_count else heard_from num nodes)
count_of-insert j num node nodes = elim (Bool-cases (j == num)) [
  | inl same ↦ rw (lookup-insert j num node nodes, same) refl
  | inr differs ↦ rw (lookup-insert j num node nodes, differs) refl
]

pub heard_from-update_node :
    (now : ℕ) (pkt : NetworkPacket) (user : Option User) (nodes : Nodes) (num : ℕ)
    → heard_from num (update_node now pkt user nodes).0
      ≡ heard_from num nodes + one_if (sent_by num pkt.sender_num)
unfolding update_node
heard_from-update_node now pkt user nodes num = elim (Option-cases pkt.sender_num) [
  | inl anonymous ↦ rw (anonymous, update_node) (omega arith)
  | inr (j, known) ↦
      rw (known, update_node)
        (elim (Bool-cases (j == num)) [
          | inl same ↦
              let e : j ≡ num = (==_iff j num).0 same in
              rw
                (
                  count_of-insert j num _ nodes,
                  same,
                  packet_count-heard now pkt user _,
                  packet_count-node_or (first_heard j now pkt) (lookup j nodes)
                      (unfold first_heard new_node in refl),
                  e,
                )
                (omega arith)
          | inr differs ↦ rw (count_of-insert j num _ nodes, differs) (omega arith)
        ])
]

pub heard_from-merge_telemetry :
    (sample : TelemetrySample) (nodes : Nodes) (num : ℕ)
    → heard_from num (merge_telemetry sample nodes).0 ≡ heard_from num nodes
unfolding merge_telemetry merge_readings
heard_from-merge_telemetry sample nodes num = elim (Bool-cases (sample.node_num == num)) [
  | inl same ↦
      rw (count_of-insert sample.node_num num _ nodes, same)
        (packet_count-node_or _ (lookup sample.node_num nodes) (unfold new_node in refl)
          ∙ ap (λ (j : ℕ). heard_from j nodes) ((==_iff sample.node_num num).0 same))
  | inr differs ↦ rw (count_of-insert sample.node_num num _ nodes, differs) refl
]
