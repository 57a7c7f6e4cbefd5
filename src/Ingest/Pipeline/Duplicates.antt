-- ===== src/Ingest/Pipeline/Duplicates.antt =====
-- What the pipeline does with a packet that it has seen before.
use orc_mesh.Prelude.{
  ℕ, ◌+◌, ◌≤◌, ◌<◌, ◌≡◌, refl, sym, ap, ◌∙◌, true, false, Option, none, some, List, [], ◌∷◌, ◌++◌,
  arith, length, length-append, All, All-append, Bool-cases, inl, inr,
}
use orc_mesh.Prelude.Dict.{Dict}
use orc_mesh.Model.Packet.{NetworkPacket}
use orc_mesh.Ingest.Raw.{RawPacket, Decoded, decoded_of}
use orc_mesh.Ingest.Normalize.{DedupKey, KeyResult, key, type_error, dedup_key}
use orc_mesh.Ingest.Keys.{key_eq}
use orc_mesh.Ingest.Dedup.{prune_dedup, is_duplicate, after_calls, dedup_ttl, evicted}
use orc_mesh.Ingest.Dedup.Expiry.{is_duplicate_pruned}
use orc_mesh.Ingest.Dedup.Window.{accepted_then_duplicate}
use orc_mesh.Ingest.Pipeline.{
  Ingestor, Clock, accept, accept_if, check_key, Library, process, ingest_keyed, ingest_result,
  ingest_raw, ingest, ingest_all, settle,
}

-- the call of the cache that a packet makes, if it makes one
abbrev call_of : ℕ → KeyResult → List (DedupKey × ℕ)
call_of now type_error = []
call_of now (key none) = []
call_of now (key (some k)) = (k, now) ∷ []

length-call_of : (now : ℕ) (r : KeyResult) → length (call_of now r) ≤ 1
length-call_of now type_error = omega arith
length-call_of now (key none) = omega arith
length-call_of now (key (some k)) = omega arith

All-call_of : (t now : ℕ) (r : KeyResult) → now < t → All (λ call. call.1 < t) (call_of now r)
All-call_of t now type_error h = tt
All-call_of t now (key none) h = tt
All-call_of t now (key (some k)) h = (h, tt)

dedup-accept_if :
    (now : Clock) (pkt : Option NetworkPacket) (d : Decoded) (s : Ingestor)
    → (accept_if now pkt d s).0.dedup ≡ s.dedup
unfolding accept_if accept
dedup-accept_if now none d s = refl
dedup-accept_if now (some pkt) d s = refl

after_calls-append :
    (a b : List (DedupKey × ℕ)) (d : Dict DedupKey ℕ)
    → after_calls (a ++ b) d ≡ after_calls b (after_calls a d)
unfolding after_calls
after_calls-append [] b d = refl
after_calls-append ((k, now) ∷ a) b d = after_calls-append a b (is_duplicate k now d).0

module _ (lib : Library) where
  dedup-ingest_keyed :
      (now : Clock) (raw : RawPacket) (k : Option DedupKey) (s : Ingestor)
      → (ingest_keyed lib now raw k s).0.dedup ≡ (check_key now.mono k s.dedup).0
  unfolding ingest_keyed process
  dedup-ingest_keyed now raw k s = elim (Bool-cases (check_key now.mono k s.dedup).1) [
    | inl seen ↦ rw seen refl
    | inr new ↦ rw new (dedup-accept_if now _ (decoded_of raw.decoded) _)
  ]

  dedup-settle :
      (now : Clock) (raw : RawPacket) (s : Ingestor) (result : KeyResult)
      → (settle lib s (ingest_result lib now raw result s)).0.dedup
        ≡ after_calls (call_of now.mono result) s.dedup
  unfolding ingest_result after_calls
  dedup-settle now raw s type_error = refl
  dedup-settle now raw s (key none) = dedup-ingest_keyed now raw none s ∙ unfold check_key in refl
  dedup-settle now raw s (key (some k)) =
      dedup-ingest_keyed now raw (some k) s ∙ unfold check_key in refl

  calls_of : List (Clock × RawPacket) → List (DedupKey × ℕ)
  calls_of [] = []
  calls_of ((now, raw) ∷ packets) =
      call_of now.mono (dedup_key lib.names lib.sha256 now.mono raw) ++ calls_of packets

  dedup-ingest_all :
      (packets : List (Clock × RawPacket)) (s : Ingestor)
      → (ingest_all lib packets s).0.dedup ≡ after_calls (calls_of packets) s.dedup
  unfolding ingest_all ingest ingest_raw calls_of
  dedup-ingest_all [] s = unfold after_calls in refl
  dedup-ingest_all ((now, raw) ∷ packets) s =
      let result = dedup_key lib.names lib.sha256 now.mono raw in
      dedup-ingest_all packets _
      ∙ ap (after_calls (calls_of packets)) (dedup-settle now raw s result)
      ∙ sym (after_calls-append (call_of now.mono result) (calls_of packets) s.dedup)

  length-calls_of :
      (packets : List (Clock × RawPacket)) → length (calls_of packets) ≤ length packets
  unfolding calls_of
  length-calls_of [] = omega arith
  length-calls_of ((now, raw) ∷ packets) = omega (
    arith,
    length-append (call_of now.mono (dedup_key lib.names lib.sha256 now.mono raw))
        (calls_of packets),
    length-call_of now.mono (dedup_key lib.names lib.sha256 now.mono raw),
    length-calls_of packets,
  )

  -- the packets arrive before the time
  abbrev pub IsBefore : ℕ → List (Clock × RawPacket) → Type 0
  IsBefore t packets = All (λ packet. packet.0.mono < t) packets

  All-calls_of :
      (t : ℕ) (packets : List (Clock × RawPacket))
      → IsBefore t packets
      → All (λ call. call.1 < t) (calls_of packets)
  unfolding calls_of
  All-calls_of t [] h = h
  All-calls_of t ((now, raw) ∷ packets) h =
      All-append (λ call. call.1 < t) (call_of now.mono _) (calls_of packets)
        (All-call_of t now.mono _ h.0) (All-calls_of t packets h.1)

  ingest_keyed_seen :
      (now : Clock) (raw : RawPacket) (k : DedupKey) (s : Ingestor)
      → (is_duplicate k now.mono s.dedup).1 ≡ true
      → ingest_keyed lib now raw (some k) s
        ≡ (record s { dedup = prune_dedup now.mono s.dedup }, [])
  unfolding ingest_keyed check_key
  ingest_keyed_seen now raw k s seen = rw seen (
      ap (λ (d : Dict DedupKey ℕ). (record s { dedup = d }, []))
        (is_duplicate_pruned k now.mono s.dedup seen))

  -- A packet whose key was accepted is without effect when it, or any packet of that key, arrives
  -- again within 120 seconds, after at most 2500 other packets that come within the same time: no signal, no write to the store,
  -- and of the state only the duplicate cache changes, by its pruning.
  pub ingest-duplicate :
      (now later : Clock) (raw again : RawPacket) (k : DedupKey)
      (between : List (Clock × RawPacket)) (s : Ingestor)
      → dedup_key lib.names lib.sha256 now.mono raw ≡ key (some k)
      → dedup_key lib.names lib.sha256 later.mono again ≡ key (some k)
      → (is_duplicate k now.mono s.dedup).1 ≡ false
      → length between ≤ evicted
      → IsBefore (now.mono + dedup_ttl) between
      → later.mono < now.mono + dedup_ttl
      → let s' = (ingest_all lib ((now, raw) ∷ between) s).0 in
        ingest lib later again s' ≡ (record s' { dedup = prune_dedup later.mono s'.dedup }, [])
  unfolding ingest ingest_raw ingest_result calls_of
  ingest-duplicate now later raw again k between s first second new small within soon =
      rw second (ingest_keyed_seen later again k s' seen)
    where
      s' : Ingestor
      s' = (ingest_all lib ((now, raw) ∷ between) s).0

      shape : s'.dedup ≡ after_calls (calls_of between) (is_duplicate k now.mono s.dedup).0
      shape =
          dedup-ingest_all ((now, raw) ∷ between) s
          ∙ ap (λ (r : KeyResult). after_calls (call_of now.mono r ++ calls_of between) s.dedup)
              first
          ∙ unfold after_calls in refl

      seen : (is_duplicate k later.mono s'.dedup).1 ≡ true
      seen =
          ap (λ (d : Dict DedupKey ℕ). (is_duplicate k later.mono d).1) shape
          ∙ accepted_then_duplicate k now.mono later.mono s.dedup (calls_of between) new
              (omega (arith, length-calls_of between, small))
              (All-calls_of (now.mono + dedup_ttl) between within) soon
