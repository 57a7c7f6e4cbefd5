-- ===== src/Examples/Ingesting.antt =====
-- The theorems on the ingestor, on two packets of node 7: a text, and the same text again.
use orc_mesh.Prelude.{
  ℕ, ◌*◌, ◌<◌, ◌≤◌, keep, ltb, ◌≡◌, ◌↔◌, refl, true, false, Option, none, some, List, [], ◌∷◌,
  arith, if◌then◌else◌,
}
use orc_mesh.Prelude.Int.{pos}
use orc_mesh.Prelude.Text.{Text, codes, text_eq}
use orc_mesh.Prelude.Dict.{Dict, lookup, nat_eq}
use orc_mesh.Ingest.Raw.{
  Cell, absent, value, name, RawPacket, get_first, or_zero, Decoded, empty_decoded,
}
use orc_mesh.Ingest.Normalize.{DedupKey, identified, key, dedup_key, coerce_portnum}
use orc_mesh.Ingest.Keys.{key_eq}
use orc_mesh.Ingest.Dedup.{is_duplicate, prune_dedup, after_calls}
use orc_mesh.Ingest.Dedup.Expiry.{IsCache, is_duplicate_iff, prune_dedup-eq-keep}
use orc_mesh.Ingest.Dedup.Window.{accepted_then_duplicate}
use orc_mesh.Model.Packet.{NetworkPacket, packet_is_direct}
use orc_mesh.Ingest.Nodes.{update_node}
use orc_mesh.Ingest.Nodes.Direct.{direct_of, direct_of-update_node}
use orc_mesh.Ingest.Pipeline.{Ingestor, new_ingestor, Clock, Library, ingest, ingest_all}
use orc_mesh.Ingest.Pipeline.Invariant.{IsIngestor, ingest_all-IsIngestor, new_ingestor-IsIngestor}
use orc_mesh.Ingest.Pipeline.Counts.{IsAccount, ingest_all-IsAccount}
use orc_mesh.Ingest.Pipeline.Duplicates.{ingest-duplicate}
use orc_mesh.Ingest.Pipeline.Seed.{NodeRow, seed_row, seed_from_store}
use orc_mesh.Ingest.Pipeline.Seed.Merging.{seed_row_twice, heard_from-seed_from_store}
use orc_mesh.Ingest.Nodes.Heard.{heard_from}

-- one known port, a digest that is the bytes, and a decoder of ASCII
abbrev lib : Library
lib = record {
  names = λ s. if text_eq s (codes "TEXT_MESSAGE_APP") then some (pos 1) else none;
  sha256 = λ bytes. bytes;
  decode_utf8 = λ bytes. some bytes;
}

abbrev decoded_text : Decoded
decoded_text = record empty_decoded {
  portnum = value (name (codes "TEXT_MESSAGE_APP"));
  text = value (codes "hi");
}

abbrev packet : ℕ → Cell Decoded → RawPacket
packet id decoded = record {
  sender = value 7;
  from_num = absent;
  from_id = value (codes "!07");
  to = value 9;
  to_num = absent;
  id = value id;
  channel = absent;
  channel_index = absent;
  decoded = decoded;
  hop_start = value 3;
  hop_start_snake = absent;
  hop_limit = value 3;
  hop_limit_snake = absent;
  rx_time = absent;
  rx_time_snake = absent;
  rx_snr = absent;
  rx_snr_snake = absent;
  rx_rssi = absent;
  rx_rssi_snake = absent;
  via_mqtt = absent;
  via_mqtt_snake = absent;
  transport_mechanism = absent;
  transport_mechanism_snake = absent;
  want_ack = absent;
  malformed = false;
}

abbrev hello : RawPacket
hello = packet 1 (value decoded_text)

abbrev at : ℕ → Clock
at t = record { mono = t; wall = t * 1000 }

abbrev start : Ingestor
start = record {
  session_id = codes "s";
  packet_count = 0;
  dedup = [];
  rate = record {
    per_min = record { window = 60_000; timestamps = [] };
    per_hour = record { window = 3_600_000; timestamps = [] };
  };
  nodes = [];
  recent_packets = [];
  has_store = true;
}

abbrev two : List (Clock × RawPacket)
two = (at 10, hello) ∷ (at 20, hello) ∷ []

ingest_all-IsAccount_example :
    IsAccount start (ingest_all lib two start).0 (ingest_all lib two start).1
ingest_all-IsAccount_example = ingest_all-IsAccount lib two start (omega arith)

ingest_all-IsIngestor_example : IsIngestor 20 (ingest_all lib two (new_ingestor (codes "s") true)).0
ingest_all-IsIngestor_example =
    ingest_all-IsIngestor lib 0 two (new_ingestor (codes "s") true) (omega arith, (omega arith, tt))
      (new_ingestor-IsIngestor (codes "s") true)

abbrev hello_key : DedupKey
hello_key = identified 7 1 (some (pos 1)) 0

key_of_hello : dedup_key lib.names lib.sha256 10 hello ≡ key (some hello_key)
unfolding dedup_key get_first coerce_portnum or_zero
key_of_hello = refl

key_of_hello_again : dedup_key lib.names lib.sha256 20 hello ≡ key (some hello_key)
unfolding dedup_key get_first coerce_portnum or_zero
key_of_hello_again = refl

new_key : (is_duplicate hello_key 10 start.dedup).1 ≡ false
unfolding is_duplicate prune_dedup lookup
new_key = refl

ingest-duplicate_example :
    let s = (ingest_all lib ((at 10, hello) ∷ []) start).0 in
    ingest lib (at 20) hello s ≡ (record s { dedup = prune_dedup 20 s.dedup }, [])
ingest-duplicate_example =
    ingest-duplicate lib (at 10) (at 20) hello hello hello_key [] start key_of_hello
      key_of_hello_again new_key (omega arith) tt (omega arith)

abbrev cache : Dict ℕ ℕ
cache = (3, 100) ∷ (5, 200) ∷ []

cache-IsCache : IsCache 90 cache
unfolding lookup
cache-IsCache = record {
  distinct = (refl, (refl, tt));
  ascending = ((omega arith, tt), (tt, tt));
  expire_by = (omega arith, (omega arith, tt));
  bounded = omega arith;
}

is_duplicate_iff_example :
    ((is_duplicate 5 150 cache).1 ≡ true) ↔ ((t : ℕ) × (lookup 5 cache ≡ some t) × (150 < t))
is_duplicate_iff_example = is_duplicate_iff 5 90 150 cache cache-IsCache

prune_dedup-eq-keep_example :
    prune_dedup 165 cache ≡ keep (λ (entry : ℕ × ℕ). ltb 165 entry.1) cache
prune_dedup-eq-keep_example = prune_dedup-eq-keep 165 cache cache-IsCache.ascending

new_8 : (is_duplicate 8 150 cache).1 ≡ false
unfolding is_duplicate prune_dedup lookup
new_8 = refl

accepted_then_duplicate_example :
    (is_duplicate 8 300 (after_calls ((5, 160) ∷ (9, 170) ∷ []) (is_duplicate 8 150 cache).0)).1
    ≡ true
accepted_then_duplicate_example =
    accepted_then_duplicate 8 150 300 cache ((5, 160) ∷ (9, 170) ∷ []) new_8 (omega arith)
      (omega arith, (omega arith, tt)) (omega arith)

abbrev row : NodeRow
row = record {
  node_num = some 7;
  node_id = some (codes "!07");
  long_name = none;
  short_name = none;
  role = none;
  hw_model = none;
  first_seen = none;
  last_heard = none;
  packet_count = some 12;
  text_count = none;
  rf_count = some 4;
  via_mqtt_count = none;
  position_count = none;
  telemetry_count = none;
  last_snr = none;
  last_rssi = none;
  last_hops_used = none;
  last_hop_start = none;
  last_via_mqtt = none;
}

abbrev no_date : Text → Option ℕ
no_date s = none

seed_row_twice_example :
    let once = (seed_row no_date 5 [] row []).0 in
    seed_row no_date 6 [] row once ≡ (once, (seed_row no_date 6 [] row []).1)
seed_row_twice_example = seed_row_twice no_date 5 6 [] row []

heard_from-seed_from_store_example :
    heard_from 7 [] ≤ heard_from 7 (seed_from_store no_date 5 [] (row ∷ []) []).0
heard_from-seed_from_store_example = heard_from-seed_from_store no_date 5 [] (row ∷ []) [] 7

abbrev direct_packet : NetworkPacket
direct_packet = record {
  session_id = codes "s";
  observed_at = 0;
  rx_time = none;
  sender_num = some 7;
  sender_id = none;
  destination_num = none;
  packet_id = some 1;
  channel_index = 0;
  portnum = some (pos 1);
  portnum_name = codes "Text";
  text = some (codes "hi");
  payload_size = some 2;
  rx_snr = none;
  rx_rssi = none;
  hop_start = some 3;
  hop_limit = some 3;
  hops_used = some 0;
  via_mqtt = none;
  transport_mechanism = none;
  pki_encrypted = none;
  want_ack = none;
  priority = none;
  raw_metadata = some (record { id = some 1; to = none; channel = none });
}

direct_of-update_node_example :
    direct_of (lookup 7 (update_node 5 direct_packet none []).0)
    ≡ some (packet_is_direct direct_packet)
direct_of-update_node_example = direct_of-update_node 5 direct_packet none [] 7 refl
