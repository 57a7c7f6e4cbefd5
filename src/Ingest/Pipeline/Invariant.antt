-- ===== src/Ingest/Pipeline/Invariant.antt =====
-- What holds of the ingestor's state between two packets.
use orc_mesh.Prelude.{
  ℕ, ◌-◌, ◌≤◌, Bool, Option, none, some, List, [], ◌∷◌, ◌++◌, arith, length, length-drop,
  Bool-cases, inl, inr,
}
use orc_mesh.Prelude.Text.{Text}
use orc_mesh.Prelude.Dict.{Dict}
use orc_mesh.Analytics.Classifier.{is_port, portnum_position, portnum_telemetry}
use orc_mesh.Model.Packet.{NetworkPacket}
use orc_mesh.Model.Samples.{TelemetrySample}
use orc_mesh.Ingest.Raw.{RawPacket, Decoded, get, decoded_of}
use orc_mesh.Ingest.Normalize.{DedupKey, KeyResult, key, type_error}
use orc_mesh.Ingest.Keys.{key_eq}
use orc_mesh.Ingest.Dedup.Expiry.{IsCache, weaken-IsCache, is_duplicate-IsCache}
use orc_mesh.Ingest.Nodes.{Nodes}
use orc_mesh.Ingest.Nodes.Counters.{
  IsNodes, IsNodes-empty, update_node-IsNodes, merge_telemetry-IsNodes,
}
use orc_mesh.Ingest.Samples.{handle_telemetry}
use orc_mesh.Ingest.Pipeline.{
  Ingestor, new_ingestor, Clock, recent_max, push_recent, absorb_telemetry, handle_kind, accept,
  accept_if, check_key, Library, process, ingest_keyed, ingest_result, ingest_raw, ingest,
  ingest_all, settle,
}

-- at the monotonic time `now`
pub record IsIngestor (now : ℕ) (s : Ingestor) : Type 0 where
  pub cache : IsCache now s.dedup
  pub recent : length s.recent_packets ≤ recent_max
  pub nodes : IsNodes s.nodes

-- The monotonic clock does not go back along the packets.
abbrev pub IsInOrder : ℕ → List (Clock × RawPacket) → Type 0
IsInOrder before [] = Unit
IsInOrder before ((now, raw) ∷ packets) = (before ≤ now.mono) × IsInOrder now.mono packets

-- the time of the last packet
abbrev pub last_time : ℕ → List (Clock × RawPacket) → ℕ
last_time before [] = before
last_time before ((now, raw) ∷ packets) = last_time now.mono packets

length-push_recent :
    (pkt : NetworkPacket) (packets : List NetworkPacket)
    → length (push_recent pkt packets) ≤ recent_max
unfolding push_recent
length-push_recent pkt packets =
    omega (arith, length-drop (length (packets ++ pkt ∷ []) - recent_max) (packets ++ pkt ∷ []))

absorb_telemetry-IsNodes :
    (has_store : Bool) (sample : Option TelemetrySample) (nodes : Nodes)
    → IsNodes nodes
    → IsNodes (absorb_telemetry has_store sample nodes).0
unfolding absorb_telemetry
absorb_telemetry-IsNodes has_store none nodes h = h
absorb_telemetry-IsNodes has_store (some sample) nodes h = merge_telemetry-IsNodes sample nodes h

handle_kind-IsNodes :
    (has_store : Bool) (pkt : NetworkPacket) (d : Decoded) (nodes : Nodes)
    → IsNodes nodes
    → IsNodes (handle_kind has_store pkt d nodes).0
unfolding handle_kind
handle_kind-IsNodes has_store pkt d nodes h =
    elim (Bool-cases (is_port portnum_position pkt.portnum)) [
      | inl position ↦ rw position h
      | inr other ↦ rw other (elim (Bool-cases (is_port portnum_telemetry pkt.portnum)) [
        | inl telemetry ↦
            rw telemetry
              (absorb_telemetry-IsNodes has_store (handle_telemetry pkt (get d.telemetry)) nodes h)
        | inr neither ↦ rw neither h
      ])
    ]

accept_if-IsIngestor :
    (t : ℕ) (now : Clock) (pkt : Option NetworkPacket) (d : Decoded) (s : Ingestor)
    → IsIngestor t s
    → IsIngestor t (accept_if now pkt d s).0
unfolding accept_if accept
accept_if-IsIngestor t now none d s h = h
accept_if-IsIngestor t now (some pkt) d s h = record {
  cache = h.cache;
  recent = length-push_recent pkt s.recent_packets;
  nodes =
      handle_kind-IsNodes s.has_store pkt d _
        (update_node-IsNodes now.wall pkt (get d.user) s.nodes h.nodes);
}

check_key-IsCache :
    (before now : ℕ) (k : Option DedupKey) (dedup : Dict DedupKey ℕ)
    → before ≤ now
    → IsCache before dedup
    → IsCache now (check_key now k dedup).0
unfolding check_key
check_key-IsCache before now none dedup le h = weaken-IsCache before now dedup le h
check_key-IsCache before now (some k) dedup le h = is_duplicate-IsCache k before now dedup le h

module _ (lib : Library) where
  ingest_keyed-IsIngestor :
      (before : ℕ) (now : Clock) (raw : RawPacket) (k : Option DedupKey) (s : Ingestor)
      → before ≤ now.mono
      → IsIngestor before s
      → IsIngestor now.mono (ingest_keyed lib now raw k s).0
  unfolding ingest_keyed process
  ingest_keyed-IsIngestor before now raw k s le h =
      let cache : IsCache now.mono (check_key now.mono k s.dedup).0 =
        check_key-IsCache before now.mono k s.dedup le h.cache in
      let checked : IsIngestor now.mono (record s { dedup = (check_key now.mono k s.dedup).0 }) =
        record { cache = cache; recent = h.recent; nodes = h.nodes } in
      elim (Bool-cases (check_key now.mono k s.dedup).1) [
        | inl seen ↦ rw seen checked
        | inr new ↦ rw new (accept_if-IsIngestor now.mono now _ (decoded_of raw.decoded) _ checked)
      ]

  weaken-IsIngestor :
      (before now : ℕ) (s : Ingestor) → before ≤ now → IsIngestor before s → IsIngestor now s
  weaken-IsIngestor before now s le h = record {
    cache = weaken-IsCache before now s.dedup le h.cache;
    recent = h.recent;
    nodes = h.nodes;
  }

  settle-IsIngestor :
      (before : ℕ) (now : Clock) (raw : RawPacket) (s : Ingestor) (result : KeyResult)
      → before ≤ now.mono
      → IsIngestor before s
      → IsIngestor now.mono (settle lib s (ingest_result lib now raw result s)).0
  unfolding ingest_result
  settle-IsIngestor before now raw s type_error le h = weaken-IsIngestor before now.mono s le h
  settle-IsIngestor before now raw s (key k) le h = ingest_keyed-IsIngestor before now raw k s le h

  ingest-IsIngestor :
      (before : ℕ) (now : Clock) (raw : RawPacket) (s : Ingestor)
      → before ≤ now.mono
      → IsIngestor before s
      → IsIngestor now.mono (ingest lib now raw s).0
  unfolding ingest ingest_raw
  ingest-IsIngestor before now raw s le h = settle-IsIngestor before now raw s _ le h

  -- Any sequence of packets whose clock does not go back, malformed, duplicate and raising ones
  -- included, takes a state in order to a state in order: the duplicate cache holds distinct keys
  -- with ascending expiries at most one TTL ahead and at most 5000 of them, at most 10000 packets are
  -- kept, and every node snapshot stands under its own number with counters that add up to no more
  -- than its packets.
  pub ingest_all-IsIngestor :
      (before : ℕ) (packets : List (Clock × RawPacket)) (s : Ingestor)
      → IsInOrder before packets
      → IsIngestor before s
      → IsIngestor (last_time before packets) (ingest_all lib packets s).0
  unfolding ingest_all
  ingest_all-IsIngestor before [] s order h = h
  ingest_all-IsIngestor before ((now, raw) ∷ packets) s order h =
      ingest_all-IsIngestor now.mono packets _ order.1
        (ingest-IsIngestor before now raw s order.0 h)

pub new_ingestor-IsIngestor :
    (session_id : Text) (has_store : Bool) → IsIngestor 0 (new_ingestor session_id has_store)
unfolding new_ingestor
new_ingestor-IsIngestor session_id has_store = record {
  cache = record { distinct = tt; ascending = tt; expire_by = tt; bounded = omega arith };
  recent = omega arith;
  nodes = IsNodes-empty;
}
