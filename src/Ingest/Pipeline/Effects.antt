-- ===== src/Ingest/Pipeline/Effects.antt =====
-- The packets among the effects of the pipeline.
use orc_mesh.Prelude.{
  ℕ, ◌≡◌, refl, ap, ◌∙◌, Bool, true, false, Option, none, some, List, [], ◌∷◌, ◌++◌, if◌then◌else◌,
  Bool-cases, inl, inr,
}
use orc_mesh.Prelude.Dict.{nat_eq}
use orc_mesh.Analytics.Classifier.{is_port, portnum_position, portnum_telemetry}
use orc_mesh.Model.Packet.{NetworkPacket}
use orc_mesh.Model.Node.{NodeSnapshot}
use orc_mesh.Model.Samples.{PositionSample, TelemetrySample}
use orc_mesh.Ingest.Raw.{Decoded}
use orc_mesh.Ingest.Keys.{key_eq}
use orc_mesh.Ingest.Nodes.{Nodes}
use orc_mesh.Ingest.Pipeline.{
  Ingestor, Clock, Effect, save_packet, packet_ingested, upsert_node, node_updated, save_position,
  position_updated, save_telemetry, telemetry_updated, stats_updated, nodedb_seeded, stored,
  emit_node, emit_position, absorb_telemetry, handle_kind, accept,
}

-- The packets that are announced, in order.
abbrev pub ingested : List Effect → List NetworkPacket
ingested [] = []
ingested (save_packet p ∷ es) = ingested es
ingested (packet_ingested p ∷ es) = p ∷ ingested es
ingested (upsert_node n ∷ es) = ingested es
ingested (node_updated n ∷ es) = ingested es
ingested (save_position x ∷ es) = ingested es
ingested (position_updated x ∷ es) = ingested es
ingested (save_telemetry x ∷ es) = ingested es
ingested (telemetry_updated x ∷ es) = ingested es
ingested (stats_updated m h ∷ es) = ingested es
ingested (nodedb_seeded ∷ es) = ingested es

-- The packets that are queued for the store, in order.
abbrev pub saved : List Effect → List NetworkPacket
saved [] = []
saved (save_packet p ∷ es) = p ∷ saved es
saved (packet_ingested p ∷ es) = saved es
saved (upsert_node n ∷ es) = saved es
saved (node_updated n ∷ es) = saved es
saved (save_position x ∷ es) = saved es
saved (position_updated x ∷ es) = saved es
saved (save_telemetry x ∷ es) = saved es
saved (telemetry_updated x ∷ es) = saved es
saved (stats_updated m h ∷ es) = saved es
saved (nodedb_seeded ∷ es) = saved es

pub ingested-append : (a b : List Effect) → ingested (a ++ b) ≡ ingested a ++ ingested b
ingested-append [] b = refl
ingested-append (save_packet p ∷ es) b = ingested-append es b
ingested-append (packet_ingested p ∷ es) b =
    ap (λ (l : List NetworkPacket). p ∷ l) (ingested-append es b)
ingested-append (upsert_node n ∷ es) b = ingested-append es b
ingested-append (node_updated n ∷ es) b = ingested-append es b
ingested-append (save_position x ∷ es) b = ingested-append es b
ingested-append (position_updated x ∷ es) b = ingested-append es b
ingested-append (save_telemetry x ∷ es) b = ingested-append es b
ingested-append (telemetry_updated x ∷ es) b = ingested-append es b
ingested-append (stats_updated m h ∷ es) b = ingested-append es b
ingested-append (nodedb_seeded ∷ es) b = ingested-append es b

pub saved-append : (a b : List Effect) → saved (a ++ b) ≡ saved a ++ saved b
saved-append [] b = refl
saved-append (save_packet p ∷ es) b = ap (λ (l : List NetworkPacket). p ∷ l) (saved-append es b)
saved-append (packet_ingested p ∷ es) b = saved-append es b
saved-append (upsert_node n ∷ es) b = saved-append es b
saved-append (node_updated n ∷ es) b = saved-append es b
saved-append (save_position x ∷ es) b = saved-append es b
saved-append (position_updated x ∷ es) b = saved-append es b
saved-append (save_telemetry x ∷ es) b = saved-append es b
saved-append (telemetry_updated x ∷ es) b = saved-append es b
saved-append (stats_updated m h ∷ es) b = saved-append es b
saved-append (nodedb_seeded ∷ es) b = saved-append es b

-- Effects that announce and save no packet.
pub record IsQuiet (es : List Effect) : Type 0 where
  pub no_ingested : ingested es ≡ []
  pub no_saved : saved es ≡ []

quiet : IsQuiet []
quiet = record { no_ingested = refl; no_saved = refl }

emit_node-IsQuiet :
    (has_store : Bool) (snap : Option NodeSnapshot) → IsQuiet (emit_node has_store snap)
unfolding emit_node stored
emit_node-IsQuiet has_store none = quiet
emit_node-IsQuiet true (some snap) = record { no_ingested = refl; no_saved = refl }
emit_node-IsQuiet false (some snap) = record { no_ingested = refl; no_saved = refl }

emit_position-IsQuiet :
    (has_store : Bool) (x : Option PositionSample) → IsQuiet (emit_position has_store x)
unfolding emit_position stored
emit_position-IsQuiet has_store none = quiet
emit_position-IsQuiet true (some x) = record { no_ingested = refl; no_saved = refl }
emit_position-IsQuiet false (some x) = record { no_ingested = refl; no_saved = refl }

absorb_telemetry-IsQuiet :
    (has_store : Bool) (x : Option TelemetrySample) (nodes : Nodes)
    → IsQuiet (absorb_telemetry has_store x nodes).1
unfolding absorb_telemetry emit_node stored
absorb_telemetry-IsQuiet has_store none nodes = quiet
absorb_telemetry-IsQuiet true (some x) nodes = record { no_ingested = refl; no_saved = refl }
absorb_telemetry-IsQuiet false (some x) nodes = record { no_ingested = refl; no_saved = refl }

handle_kind-IsQuiet :
    (has_store : Bool) (pkt : NetworkPacket) (d : Decoded) (nodes : Nodes)
    → IsQuiet (handle_kind has_store pkt d nodes).1
unfolding handle_kind
handle_kind-IsQuiet has_store pkt d nodes =
    elim (Bool-cases (is_port portnum_position pkt.portnum)) [
      | inl position ↦ rw position (emit_position-IsQuiet has_store _)
      | inr other ↦ rw other (elim (Bool-cases (is_port portnum_telemetry pkt.portnum)) [
        | inl telemetry ↦ rw telemetry (absorb_telemetry-IsQuiet has_store _ nodes)
        | inr neither ↦ rw neither quiet
      ])
    ]

-- Effects that announce one packet, and save it if there is a store.
pub record IsAnnouncement (has_store : Bool) (pkt : NetworkPacket) (es : List Effect) : Type 0 where
  pub one_ingested : ingested es ≡ pkt ∷ []
  pub one_saved : saved es ≡ (if has_store then pkt ∷ [] else [])

after-IsQuiet :
    (has_store : Bool) (pkt : NetworkPacket) (a b : List Effect)
    → IsQuiet a
    → IsAnnouncement has_store pkt b
    → IsAnnouncement has_store pkt (a ++ b)
after-IsQuiet has_store pkt a b q h = record {
  one_ingested =
      ingested-append a b
      ∙ ap (λ (l : List NetworkPacket). l ++ ingested b) q.no_ingested
      ∙ h.one_ingested;
  one_saved =
      saved-append a b ∙ ap (λ (l : List NetworkPacket). l ++ saved b) q.no_saved ∙ h.one_saved;
}

stored-IsAnnouncement :
    (has_store : Bool) (pkt : NetworkPacket) (m h : ℕ)
    → IsAnnouncement has_store pkt
        (stored has_store (save_packet pkt) ++ (packet_ingested pkt ∷ stats_updated m h ∷ []))
unfolding stored
stored-IsAnnouncement true pkt m h = record { one_ingested = refl; one_saved = refl }
stored-IsAnnouncement false pkt m h = record { one_ingested = refl; one_saved = refl }

-- Accepting a packet announces it once and nothing else.
pub accept-IsAnnouncement :
    (now : Clock) (pkt : NetworkPacket) (d : Decoded) (s : Ingestor)
    → IsAnnouncement s.has_store pkt (accept now pkt d s).1
unfolding accept
accept-IsAnnouncement now pkt d s =
    after-IsQuiet s.has_store pkt _ _ (emit_node-IsQuiet s.has_store _) (
      after-IsQuiet s.has_store pkt _ _ (handle_kind-IsQuiet s.has_store pkt d _)
        (stored-IsAnnouncement s.has_store pkt _ _))
