-- ===== src/Ingest/Nodes/Direct.antt =====
-- Whether a node is heard directly.
use orc_mesh.Prelude.{ℕ, ◌≡◌, Bool, Option, none, some, arith, ap}
use orc_mesh.Prelude.Dict.{lookup, lookup-insert, nat_eq, beq_refl}
use orc_mesh.Model.Packet.{NetworkPacket, packet_is_direct}
use orc_mesh.Model.Node.{NodeSnapshot, node_is_direct}
use orc_mesh.Ingest.Raw.{User}
use orc_mesh.Ingest.Nodes.{Nodes, heard, update_node}

abbrev pub direct_of : Option NodeSnapshot → Option Bool
direct_of none = none
direct_of (some node) = some (node_is_direct node)

node_is_direct-heard :
    (now : ℕ) (pkt : NetworkPacket) (user : Option User) (node : NodeSnapshot)
    → node_is_direct (heard now pkt user node) ≡ packet_is_direct pkt
unfolding heard node_is_direct packet_is_direct
node_is_direct-heard now pkt none node = ground arith
node_is_direct-heard now pkt (some user) node = ground arith

-- After a packet its sender's snapshot stands in the map, and counts as heard directly exactly when
-- the packet is direct RF: the test on the snapshot's last fields gives what the one on
-- the packet's own fields does.
pub direct_of-update_node :
    (now : ℕ) (pkt : NetworkPacket) (user : Option User) (nodes : Nodes) (num : ℕ)
    → pkt.sender_num ≡ some num
    → direct_of (lookup num (update_node now pkt user nodes).0) ≡ some (packet_is_direct pkt)
unfolding update_node packet_is_direct
direct_of-update_node now pkt user nodes num known =
    rw (known, update_node)
      (rw (lookup-insert num num _ nodes, beq_refl num)
        (ap some (node_is_direct-heard now pkt user _)))
