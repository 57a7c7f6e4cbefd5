-- ===== src/Ingest/Pipeline/Accessors.antt =====
-- The accessors of `PacketIngestor`: copies of what the state holds.
use orc_mesh.Prelude.{ℕ, Option, List, map}
use orc_mesh.Prelude.Dict.{lookup, nat_eq}
use orc_mesh.Model.Packet.{NetworkPacket}
use orc_mesh.Model.Node.{NodeSnapshot}
use orc_mesh.Ingest.Pipeline.{Ingestor}

unfoldable pub get_nodes : Ingestor → List NodeSnapshot
get_nodes s = map (λ entry. entry.1) s.nodes

unfoldable pub get_node : ℕ → Ingestor → Option NodeSnapshot
get_node node_num s = lookup node_num s.nodes

unfoldable pub get_recent_packets : Ingestor → List NetworkPacket
get_recent_packets s = s.recent_packets
