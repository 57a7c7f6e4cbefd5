-- ===== src/Ingest/Pipeline.antt =====
-- `PacketIngestor.ingest_raw` of src/meshchat/services/packet_ingestor.py: one raw packet through the
-- pipeline. The signals that it emits and the writes that it queues on the store are effects, in
-- order; `seed_from_nodedb` and `seed_from_store` are in the module Seed. A packet is handled at one
-- reading of each clock: `mono` in milliseconds, `wall` in microseconds. A `decoded` entry that is None
-- makes `_dedup_key` raise; types of entries other than the ones of Raw are left out. The locks guard
-- against threads that do not exist today (see the class's docstring).
pub mod Invariant
pub mod Duplicates
pub mod Effects
pub mod Counts
pub mod Seed
pub mod Accessors
use orc_mesh.Prelude.{
  ℕ, zero, suc, ◌+◌, ◌-◌, ◌≡◌, refl, Bool, true, false, Option, none, some, List, [], ◌∷◌, ◌++◌,
  ltb, length, drop, if◌then◌else◌,
}
use orc_mesh.Prelude.Int.{ℤ}
use orc_mesh.Prelude.Text.{Text}
use orc_mesh.Prelude.Dict.{Dict}
use orc_mesh.Analytics.Rates.{DualRateTracker, new_tracker, record_dual, per_minute_hour}
use orc_mesh.Analytics.Classifier.{is_port, portnum_position, portnum_telemetry}
use orc_mesh.Model.Packet.{NetworkPacket}
use orc_mesh.Model.Node.{NodeSnapshot}
use orc_mesh.Model.Samples.{PositionSample, TelemetrySample}
use orc_mesh.Ingest.Raw.{RawPacket, Decoded, User, get, decoded_of}
use orc_mesh.Ingest.Normalize.{DedupKey, KeyResult, key, type_error, dedup_key, normalize}
use orc_mesh.Ingest.Keys.{key_eq}
use orc_mesh.Ingest.Dedup.{is_duplicate}
use orc_mesh.Ingest.Nodes.{Nodes, update_node, merge_telemetry}
use orc_mesh.Ingest.Samples.{handle_position, handle_telemetry}

pub record Ingestor : Type 0 where
  pub session_id : Text
  pub packet_count : ℕ  -- of the session
  pub dedup : Dict DedupKey ℕ
  pub rate : DualRateTracker
  pub nodes : Nodes
  pub recent_packets : List NetworkPacket
  pub has_store : Bool

unfoldable pub new_ingestor : Text → Bool → Ingestor
new_ingestor session_id has_store = record {
  session_id = session_id;
  packet_count = 0;
  dedup = [];
  rate = new_tracker;
  nodes = [];
  recent_packets = [];
  has_store = has_store;
}

pub record Clock : Type 0 where
  pub mono : ℕ
  pub wall : ℕ

pub data Effect : Type 0 where
  save_packet packet_ingested : NetworkPacket → Effect
  upsert_node node_updated : NodeSnapshot → Effect
  save_position position_updated : PositionSample → Effect
  save_telemetry telemetry_updated : TelemetrySample → Effect
  stats_updated : ℕ → ℕ → Effect
  nodedb_seeded : Effect

-- `if self._store: …`
unfoldable pub stored : Bool → Effect → List Effect
stored true e = e ∷ []
stored false e = []

abbrev pub recent_max : ℕ
recent_max = 10_000

-- append to a deque with `maxlen`
unfoldable pub push_recent : NetworkPacket → List NetworkPacket → List NetworkPacket
push_recent pkt packets = let all = packets ++ pkt ∷ [] in drop (length all - recent_max) all

unfoldable pub emit_node : Bool → Option NodeSnapshot → List Effect
unfolding stored
emit_node has_store none = []
emit_node has_store (some snap) = stored has_store (upsert_node snap) ++ node_updated snap ∷ []

emit_position : Bool → Option PositionSample → List Effect
unfolding stored
emit_position has_store none = []
emit_position has_store (some s) = stored has_store (save_position s) ++ position_updated s ∷ []

-- the telemetry of a packet, and its merge into the node
absorb_telemetry : Bool → Option TelemetrySample → Nodes → Nodes × List Effect
unfolding emit_node
absorb_telemetry has_store none nodes = (nodes, [])
absorb_telemetry has_store (some s) nodes =
    let (nodes', snap) = merge_telemetry s nodes in
    (
      nodes',
      stored has_store (save_telemetry s)
          ++ (telemetry_updated s ∷ emit_node has_store (some snap)),
    )

-- the handling by port number
unfoldable pub handle_kind : Bool → NetworkPacket → Decoded → Nodes → Nodes × List Effect
unfolding emit_position absorb_telemetry
handle_kind has_store pkt d nodes =
    if is_port portnum_position pkt.portnum
    then (nodes, emit_position has_store (handle_position pkt (get d.position)))
    else if is_port portnum_telemetry pkt.portnum
    then absorb_telemetry has_store (handle_telemetry pkt (get d.telemetry)) nodes
    else (nodes, [])

-- what is done with a packet that is new and well formed
unfoldable pub accept : Clock → NetworkPacket → Decoded → Ingestor → Ingestor × List Effect
unfolding emit_node
accept now pkt d s =
    let (nodes, snap) = update_node now.wall pkt (get d.user) s.nodes in
    let (nodes', handled) = handle_kind s.has_store pkt d nodes in
    let (rate, per_minute, per_hour) = per_minute_hour now.mono (record_dual now.mono s.rate) in
    (
      record s {
        recent_packets = push_recent pkt s.recent_packets;
        packet_count = s.packet_count + 1;
        rate = rate;
        nodes = nodes';
      },
      emit_node s.has_store snap
          ++ (handled
              ++ (stored s.has_store (save_packet pkt)
                  ++ (packet_ingested pkt ∷ stats_updated per_minute per_hour ∷ []))),
    )

accept_if : Clock → Option NetworkPacket → Decoded → Ingestor → Ingestor × List Effect
accept_if now none d s = (s, [])
accept_if now (some pkt) d s = accept now pkt d s

-- `if key and self._is_duplicate(key)`
unfoldable pub check_key : ℕ → Option DedupKey → Dict DedupKey ℕ → Dict DedupKey ℕ × Bool
check_key now none dedup = (dedup, false)
check_key now (some k) dedup = is_duplicate k now dedup

-- a call returns with its effects, or raises before it has changed anything
pub data Outcome : Type 0 where
  returned : Ingestor → List Effect → Outcome
  raised : Outcome

-- the third-party table of port names, the digest, and the decoder of payloads
pub record Library : Type 0 where
  pub names : Text → Option ℤ
  pub sha256 : List ℕ → Text
  pub decode_utf8 : List ℕ → Option Text

module _ (lib : Library) where
  unfoldable pub process : Clock → RawPacket → Ingestor → Ingestor × List Effect
  unfolding accept_if
  process now raw s =
      accept_if now (normalize lib.names lib.decode_utf8 s.session_id now.wall raw)
        (decoded_of raw.decoded) s

  -- after the key is known
  unfoldable pub ingest_keyed :
      Clock → RawPacket → Option DedupKey → Ingestor → Ingestor × List Effect
  ingest_keyed now raw k s =
      let (dedup, duplicate) = check_key now.mono k s.dedup in
      let s' = record s { dedup = dedup } in if duplicate then (s', []) else process now raw s'

  ingest_result : Clock → RawPacket → KeyResult → Ingestor → Outcome
  ingest_result now raw type_error s = raised
  ingest_result now raw (key k) s =
      let (s', effects) = ingest_keyed now raw k s in returned s' effects

  unfoldable pub ingest_raw : Clock → RawPacket → Ingestor → Outcome
  unfolding ingest_result
  ingest_raw now raw s = ingest_result now raw (dedup_key lib.names lib.sha256 now.mono raw) s

  -- the state and the effects after a call; an exception leaves the state as it was
  abbrev settle : Ingestor → Outcome → Ingestor × List Effect
  settle s raised = (s, [])
  settle s (returned s' effects) = (s', effects)

  unfoldable pub ingest : Clock → RawPacket → Ingestor → Ingestor × List Effect
  ingest now raw s = settle s (ingest_raw now raw s)

  -- the packets of a session, each with the clock at its arrival
  unfoldable pub ingest_all : List (Clock × RawPacket) → Ingestor → Ingestor × List Effect
  ingest_all [] s = (s, [])
  ingest_all ((now, raw) ∷ rest) s =
      let (s', effects) = ingest now raw s in
      let (s'', later) = ingest_all rest s' in (s'', effects ++ later)
