-- ===== src/Ingest/Normalize.antt =====
-- `_coerce_portnum`, `_dedup_key` and `_normalize` of src/meshchat/services/packet_ingestor.py.
use orc_mesh.Prelude.{
  ℕ, ◌+◌, ◌*◌, ◌/◌, ◌%◌, Option, none, some, List, [], ◌∷◌, ◌++◌, ltb, ◌==◌, length, if◌then◌else◌,
}
use orc_mesh.Prelude.Int.{ℤ}
use orc_mesh.Prelude.Text.{Text, codes, show_ℕ, show_ℤ}
use orc_mesh.Prelude.Base0.{parse_int0}
use orc_mesh.Analytics.Hops.{compute_hops_used}
use orc_mesh.Analytics.Classifier.{is_port, portnum_text, classify_portnum}
use orc_mesh.Model.Packet.{NetworkPacket}
use orc_mesh.Ingest.Raw.{
  Cell, absent, null, value, get, get_first, or_zero, PortValue, name, number, boolean, other,
  Payload, bytes, other_object, Decoded, RawPacket, decoded_of, empty_decoded,
}

or_parse : Option ℤ → Text → Option ℤ
or_parse none s = parse_int0 s
or_parse (some n) s = some n

-- `names` is the library's table of PortNum, empty where it could not be read
unfoldable pub coerce_portnum : (Text → Option ℤ) → Option PortValue → Option ℤ
unfolding or_parse
coerce_portnum names none = none
coerce_portnum names (some (boolean b)) = none
coerce_portnum names (some (number n)) = some n
coerce_portnum names (some other) = none
coerce_portnum names (some (name s)) = or_parse (names s) s

-- The size of a code point in UTF-8.
abbrev utf8_size : ℕ → ℕ
utf8_size c = if ltb c 128 then 1 else if ltb c 2048 then 2 else if ltb c 65536 then 3 else 4

-- len(text.encode("utf-8"))
unfoldable pub utf8_length : Text → ℕ
utf8_length [] = 0
utf8_length (c ∷ s) = utf8_size c + utf8_length s

-- text.encode()
abbrev utf8_char : ℕ → List ℕ
utf8_char c =
    if ltb c 128
    then c ∷ []
    else if ltb c 2048
    then (192 + c / 64) ∷ (128 + c % 64) ∷ []
    else if ltb c 65536
    then (224 + c / 4096) ∷ (128 + c / 64 % 64) ∷ (128 + c % 64) ∷ []
    else (240 + c / 262144) ∷ (128 + c / 4096 % 64) ∷ (128 + c / 64 % 64) ∷ (128 + c % 64) ∷ []

unfoldable pub utf8_encode : Text → List ℕ
utf8_encode [] = []
utf8_encode (c ∷ s) = utf8_char c ++ utf8_encode s

-- the key of a packet: f"{sender}:{pid}:{portnum}:{channel}", whose parts are numbers or "None", or
-- the digest of the fallback fingerprint and the 5-second bucket
pub data DedupKey : Type 0 where
  identified : ℕ → ℕ → Option ℤ → ℕ → DedupKey
  fingerprint : Text → DedupKey

abbrev pub shown : Option ℕ → Text
shown none = codes "None"
shown (some n) = show_ℕ n

abbrev pub shown_ℤ : Option ℤ → Text
shown_ℤ none = codes "None"
shown_ℤ (some n) = show_ℤ n

or_empty_text : Option Text → Text
or_empty_text none = []
or_empty_text (some s) = s

-- payload or b""; None where `.encode()` raises on an object that is neither bytes nor text
payload_bytes : Option Payload → Option (List ℕ)
payload_bytes none = some []
payload_bytes (some (bytes b)) = some b
payload_bytes (some other_object) = none

-- int(time.monotonic() / 5) * 5, the clock in milliseconds
abbrev pub time_bucket : ℕ → ℕ
time_bucket now = now / 5000 * 5

digest_of : (List ℕ → Text) → Text → ℕ → Option (List ℕ) → Option DedupKey
digest_of sha256 raw now none = none
digest_of sha256 raw now (some payload) =
    some (
      fingerprint (sha256 (utf8_encode raw ++ (payload ++ utf8_encode (show_ℕ (time_bucket now))))))

pub record KeyFields : Type 0 where
  pub sender : Option ℕ
  pub id : Option ℕ
  pub portnum : Option ℤ
  pub channel : ℕ
  pub text : Text
  pub payload : Option (List ℕ)

-- f"{sender}{portnum}{channel}{text}"
unfoldable pub raw_fingerprint : KeyFields → Text
raw_fingerprint k = shown k.sender ++ (shown_ℤ k.portnum ++ (show_ℕ k.channel ++ k.text))

key_from : (List ℕ → Text) → ℕ → KeyFields → Option ℕ → Option ℕ → Option DedupKey
unfolding raw_fingerprint digest_of
key_from sha256 now k (some sender) (some pid) = some (identified sender pid k.portnum k.channel)
key_from sha256 now k none pid = digest_of sha256 (raw_fingerprint k) now k.payload
key_from sha256 now k (some sender) none = digest_of sha256 (raw_fingerprint k) now k.payload

-- `pkt.get("decoded", {})` without `or {}`: `k in None` raises TypeError
pub data KeyResult : Type 0 where
  key : Option DedupKey → KeyResult
  type_error : KeyResult

module _ (names : Text → Option ℤ) (sha256 : List ℕ → Text) where
  unfoldable pub key_fields : RawPacket → Decoded → KeyFields
  unfolding or_empty_text payload_bytes
  key_fields raw d = record {
    sender = get_first raw.sender raw.from_num;
    id = get raw.id;
    portnum = coerce_portnum names (get d.portnum);
    channel = or_zero (get_first raw.channel raw.channel_index);
    text = or_empty_text (get d.text);
    payload = payload_bytes (get d.payload);
  }

  unfoldable pub key_of_decoded : ℕ → RawPacket → Decoded → KeyResult
  unfolding key_from key_fields
  key_of_decoded now raw d = let k = key_fields raw d in key (key_from sha256 now k k.sender k.id)

  unfoldable pub dedup_key_of : ℕ → RawPacket → Cell Decoded → KeyResult
  unfolding key_of_decoded
  dedup_key_of now raw absent = key_of_decoded now raw empty_decoded
  dedup_key_of now raw null = type_error
  dedup_key_of now raw (value d) = key_of_decoded now raw d

  -- _dedup_key(pkt) at the monotonic time `now`
  unfoldable pub dedup_key : ℕ → RawPacket → KeyResult
  unfolding dedup_key_of
  dedup_key now raw = dedup_key_of now raw raw.decoded

-- datetime.fromtimestamp(float(seconds)), which raises beyond the year 9999; 0 and None mean unset
unfoldable pub timestamp : Option ℕ → Option ℕ
timestamp none = none
timestamp (some seconds) =
    if seconds == 0
    then none
    else if ltb 253402300799 seconds
    then none
    else some (seconds * 1_000_000)

module _ (names : Text → Option ℤ) (decode_utf8 : List ℕ → Option Text) where
  text_of_payload : Option Payload → Option Text
  text_of_payload none = none
  text_of_payload (some (bytes b)) = decode_utf8 b
  text_of_payload (some other_object) = none

  text_or_payload : Option Text → Option Payload → Option Text
  unfolding text_of_payload
  text_or_payload none payload = text_of_payload payload
  text_or_payload (some s) payload = some s

  text_size : Option Text → Option ℕ
  text_size none = none
  text_size (some []) = none
  text_size (some (c ∷ s)) = some (utf8_length (c ∷ s))

  size_of_payload : Option Payload → Option Text → Option ℕ
  unfolding text_size
  size_of_payload none text = text_size text
  size_of_payload (some (bytes b)) text = some (length b)
  size_of_payload (some other_object) text = text_size text

  packet_of : Text → ℕ → RawPacket → Decoded → NetworkPacket
  unfolding text_or_payload size_of_payload
  packet_of session_id now raw d =
      let portnum = coerce_portnum names (get d.portnum) in
      let hop_start = get_first raw.hop_start raw.hop_start_snake in
      let hop_limit = get_first raw.hop_limit raw.hop_limit_snake in
      let text : Option Text =
        if is_port portnum_text portnum
        then text_or_payload (get d.text) (get d.payload)
        else none in
      record {
        session_id = session_id;
        observed_at = now;
        rx_time = timestamp (get_first raw.rx_time raw.rx_time_snake);
        sender_num = get_first raw.sender raw.from_num;
        sender_id = get raw.from_id;
        destination_num = get_first raw.to raw.to_num;
        packet_id = get raw.id;
        channel_index = or_zero (get_first raw.channel raw.channel_index);
        portnum = portnum;
        portnum_name = classify_portnum portnum;
        text = text;
        payload_size = size_of_payload (get d.payload) text;
        rx_snr = get_first raw.rx_snr raw.rx_snr_snake;
        rx_rssi = get_first raw.rx_rssi raw.rx_rssi_snake;
        hop_start = hop_start;
        hop_limit = hop_limit;
        hops_used = compute_hops_used hop_start hop_limit;
        via_mqtt = get_first raw.via_mqtt raw.via_mqtt_snake;
        transport_mechanism = get_first raw.transport_mechanism raw.transport_mechanism_snake;
        pki_encrypted = get_first d.pki_encrypted d.pki_encrypted_snake;
        want_ack = get raw.want_ack;
        priority = get d.priority;
        raw_metadata =
            some (record { id = get raw.id; to = get raw.to; channel = get raw.channel });
      }

  -- _normalize(raw) at the wall clock's time `now`; None where the try block raises
  unfoldable pub normalize : Text → ℕ → RawPacket → Option NetworkPacket
  unfolding packet_of
  normalize session_id now raw =
      if raw.malformed then none else some (packet_of session_id now raw (decoded_of raw.decoded))
