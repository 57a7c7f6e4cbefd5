-- ===== src/Ingest/Pipeline/Counts.antt =====
-- What the pipeline's state and its writes say of the packets that it has announced.
use mathlib.Core.List.{append_assoc, append-nil}
use orc_mesh.Prelude.{
  ℕ, ◌+◌, ◌≤◌, ◌≡◌, refl, sym, ap, ◌∙◌, Bool, true, false, Option, none, some, List, [], ◌∷◌, ◌++◌,
  arith, length, length-append, if◌then◌else◌, Bool-cases, inl, inr,
}
use orc_mesh.Prelude.Latest.{latest, length-latest, latest_all, latest-append}
use orc_mesh.Analytics.Classifier.{is_port, portnum_position, portnum_telemetry}
use orc_mesh.Model.Packet.{NetworkPacket}
use orc_mesh.Model.Samples.{TelemetrySample}
use orc_mesh.Ingest.Raw.{RawPacket, Decoded, get, decoded_of}
use orc_mesh.Ingest.Normalize.{DedupKey, KeyResult, key, type_error}
use orc_mesh.Ingest.Keys.{key_eq}
use orc_mesh.Ingest.Nodes.{Nodes}
use orc_mesh.Ingest.Nodes.Heard.{
  heard_from, sent_by, one_if, heard_from-update_node, heard_from-merge_telemetry,
}
use orc_mesh.Ingest.Pipeline.{
  Ingestor, Clock, Effect, absorb_telemetry, handle_kind, accept, accept_if, check_key, Library,
  process, ingest_keyed, ingest_result, ingest_raw, ingest, ingest_all, settle, push_recent,
  recent_max,
}
use orc_mesh.Ingest.Pipeline.Effects.{
  ingested, saved, ingested-append, saved-append, IsAnnouncement, accept-IsAnnouncement,
}

-- the packets of a list that a node has sent
abbrev pub packets_of : ℕ → List NetworkPacket → ℕ
packets_of num [] = 0
packets_of num (p ∷ ps) = one_if (sent_by num p.sender_num) + packets_of num ps

packets_of-append :
    (num : ℕ) (a b : List NetworkPacket)
    → packets_of num (a ++ b) ≡ packets_of num a + packets_of num b
packets_of-append num [] b = omega arith
packets_of-append num (p ∷ a) b = omega (arith, packets_of-append num a b)

-- The state `s'` and the effects `es` of a run from `s` agree on the packets that were announced.
pub record IsAccount (s s' : Ingestor) (es : List Effect) : Type 0 where
  pub total : s'.packet_count ≡ s.packet_count + length (ingested es)
  pub recent : s'.recent_packets ≡ latest recent_max (s.recent_packets ++ ingested es)
  pub per_node :
      (num : ℕ) → heard_from num s'.nodes ≡ heard_from num s.nodes + packets_of num (ingested es)
  pub saves : saved es ≡ (if s.has_store then ingested es else [])
  pub has_store : s'.has_store ≡ s.has_store

-- The list of recent packets has not outgrown its deque.
abbrev pub IsBounded : Ingestor → Type 0
IsBounded s = length s.recent_packets ≤ recent_max

none_saved : (h : Bool) → saved [] ≡ (if h then ingested [] else [])
none_saved true = refl
none_saved false = refl

-- a step that announces nothing and only touches the duplicate cache
quiet-IsAccount :
    (s s' : Ingestor)
    → IsBounded s
    → s'.packet_count ≡ s.packet_count
    → s'.recent_packets ≡ s.recent_packets
    → s'.nodes ≡ s.nodes
    → s'.has_store ≡ s.has_store
    → IsAccount s s' []
quiet-IsAccount s s' b total recent nodes has_store = record {
  total = omega (arith, total);
  recent =
      recent
      ∙ sym (latest_all recent_max s.recent_packets b)
      ∙ ap (latest recent_max) (sym (append-nil s.recent_packets));
  per_node = λ num. omega (arith, ap (heard_from num) nodes);
  saves = none_saved s.has_store;
  has_store = has_store;
}

trans-IsAccount :
    (s s' s'' : Ingestor) (es fs : List Effect)
    → IsAccount s s' es
    → IsAccount s' s'' fs
    → IsAccount s s'' (es ++ fs)
trans-IsAccount s s' s'' es fs a b = record {
  total = omega (
    arith,
    a.total,
    b.total,
    ap length (ingested-append es fs),
    length-append (ingested es) (ingested fs),
  );
  recent =
      b.recent
      ∙ ap (λ (l : List NetworkPacket). latest recent_max (l ++ ingested fs)) a.recent
      ∙ latest-append recent_max (s.recent_packets ++ ingested es) (ingested fs)
      ∙ ap (latest recent_max) (
          append_assoc s.recent_packets (ingested es) (ingested fs)
          ∙ ap (λ (l : List NetworkPacket). s.recent_packets ++ l) (sym (ingested-append es fs)));
  per_node = λ num. omega (
    arith,
    a.per_node num,
    b.per_node num,
    ap (packets_of num) (ingested-append es fs),
    packets_of-append num (ingested es) (ingested fs),
  );
  saves =
      both s.has_store a.saves
        (b.saves ∙ ap (λ (h : Bool). if h then ingested fs else []) a.has_store);
  has_store = b.has_store ∙ a.has_store;
}
  where
    both :
        (h : Bool)
        → saved es ≡ (if h then ingested es else [])
        → saved fs ≡ (if h then ingested fs else [])
        → saved (es ++ fs) ≡ (if h then ingested (es ++ fs) else [])
    both true x y = rw (saved-append es fs, ingested-append es fs, x, y) refl
    both false x y = rw (saved-append es fs, x, y) refl

-- the bound on the recent packets holds after any step that this describes
IsAccount-IsBounded : (s s' : Ingestor) (es : List Effect) → IsAccount s s' es → IsBounded s'
IsAccount-IsBounded s s' es a =
    omega (arith, ap length a.recent, length-latest recent_max (s.recent_packets ++ ingested es))

heard_from-absorb_telemetry :
    (num : ℕ) (has_store : Bool) (sample : Option TelemetrySample) (nodes : Nodes)
    → heard_from num (absorb_telemetry has_store sample nodes).0 ≡ heard_from num nodes
unfolding absorb_telemetry
heard_from-absorb_telemetry num has_store none nodes = refl
heard_from-absorb_telemetry num has_store (some sample) nodes =
    heard_from-merge_telemetry sample nodes num

heard_from-handle_kind :
    (num : ℕ) (has_store : Bool) (pkt : NetworkPacket) (d : Decoded) (nodes : Nodes)
    → heard_from num (handle_kind has_store pkt d nodes).0 ≡ heard_from num nodes
unfolding handle_kind
heard_from-handle_kind num has_store pkt d nodes =
    elim (Bool-cases (is_port portnum_position pkt.portnum)) [
      | inl position ↦ rw position refl
      | inr other ↦ rw other (elim (Bool-cases (is_port portnum_telemetry pkt.portnum)) [
        | inl telemetry ↦ rw telemetry (heard_from-absorb_telemetry num has_store _ nodes)
        | inr neither ↦ rw neither refl
      ])
    ]

accept-IsAccount :
    (now : Clock) (pkt : NetworkPacket) (d : Decoded) (s : Ingestor)
    → IsAccount s (accept now pkt d s).0 (accept now pkt d s).1
accept-IsAccount now pkt d s = record {
  total = omega (arith, total, ap length a.one_ingested);
  recent =
      recent
      ∙ ap (λ (l : List NetworkPacket). latest recent_max (s.recent_packets ++ l))
          (sym a.one_ingested);
  per_node = λ num. omega (arith, per_node num, ap (packets_of num) a.one_ingested);
  saves =
      a.one_saved
      ∙ ap (λ (l : List NetworkPacket). if s.has_store then l else []) (sym a.one_ingested);
  has_store = unfold accept in refl;
}
  where
    a : IsAnnouncement s.has_store pkt (accept now pkt d s).1
    a = accept-IsAnnouncement now pkt d s

    total : (accept now pkt d s).0.packet_count ≡ s.packet_count + 1
    total = unfold accept in refl

    recent :
        (accept now pkt d s).0.recent_packets ≡ latest recent_max (s.recent_packets ++ pkt ∷ [])
    recent = unfold accept push_recent in refl

    per_node :
        (num : ℕ)
        → heard_from num (accept now pkt d s).0.nodes
          ≡ heard_from num s.nodes + one_if (sent_by num pkt.sender_num)
    per_node num =
        unfold accept in
        (heard_from-handle_kind num s.has_store pkt d _
          ∙ heard_from-update_node now.wall pkt (get d.user) s.nodes num)

accept_if-IsAccount :
    (now : Clock) (pkt : Option NetworkPacket) (d : Decoded) (s : Ingestor)
    → IsBounded s
    → IsAccount s (accept_if now pkt d s).0 (accept_if now pkt d s).1
unfolding accept_if
accept_if-IsAccount now none d s b = quiet-IsAccount s s b refl refl refl refl
accept_if-IsAccount now (some pkt) d s b = accept-IsAccount now pkt d s

-- the duplicate cache plays no part in the account
forget_dedup :
    (s s' s'' : Ingestor) (es : List Effect)
    → IsBounded s
    → s'.packet_count ≡ s.packet_count
    → s'.recent_packets ≡ s.recent_packets
    → s'.nodes ≡ s.nodes
    → s'.has_store ≡ s.has_store
    → IsAccount s' s'' es
    → IsAccount s s'' es
forget_dedup s s' s'' es b p r n h a =
    trans-IsAccount s s' s'' [] es (quiet-IsAccount s s' b p r n h) a

module _ (lib : Library) where
  ingest_keyed-IsAccount :
      (now : Clock) (raw : RawPacket) (k : Option DedupKey) (s : Ingestor)
      → IsBounded s
      → IsAccount s (ingest_keyed lib now raw k s).0 (ingest_keyed lib now raw k s).1
  unfolding ingest_keyed process
  ingest_keyed-IsAccount now raw k s b = elim (Bool-cases (check_key now.mono k s.dedup).1) [
    | inl seen ↦ rw seen (quiet-IsAccount s _ b refl refl refl refl)
    | inr new ↦ rw new (
        forget_dedup s _ _ _ b refl refl refl refl
          (accept_if-IsAccount now _ (decoded_of raw.decoded) _ b))
  ]

  settle-IsAccount :
      (now : Clock) (raw : RawPacket) (s : Ingestor) (result : KeyResult)
      → IsBounded s
      → let step = settle lib s (ingest_result lib now raw result s) in IsAccount s step.0 step.1
  unfolding ingest_result
  settle-IsAccount now raw s type_error b = quiet-IsAccount s s b refl refl refl refl
  settle-IsAccount now raw s (key k) b = ingest_keyed-IsAccount now raw k s b

  ingest-IsAccount :
      (now : Clock) (raw : RawPacket) (s : Ingestor)
      → IsBounded s
      → IsAccount s (ingest lib now raw s).0 (ingest lib now raw s).1
  unfolding ingest ingest_raw
  ingest-IsAccount now raw s b = settle-IsAccount now raw s _ b

  -- From a state with at most 10000 recent packets, over any sequence of packets, the session's packet count grows by the number of packets
  -- announced to the listeners; each node's packet count by the number of those that it sent; the
  -- recent packets are the last 10000 of the earlier ones and the announced ones, in order; and the
  -- packets queued for the store are exactly the announced ones, where there is a store.
  pub ingest_all-IsAccount :
      (packets : List (Clock × RawPacket)) (s : Ingestor)
      → IsBounded s
      → IsAccount s (ingest_all lib packets s).0 (ingest_all lib packets s).1
  unfolding ingest_all
  ingest_all-IsAccount [] s b = quiet-IsAccount s s b refl refl refl refl
  ingest_all-IsAccount ((now, raw) ∷ packets) s b =
      let first = ingest-IsAccount now raw s b in
      trans-IsAccount s _ _ _ _ first
        (ingest_all-IsAccount packets _ (IsAccount-IsBounded s _ _ first))
