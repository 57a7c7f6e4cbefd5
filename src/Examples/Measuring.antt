-- ===== src/Examples/Measuring.antt =====
-- The theorems on captures, rates, hops, port numbers and the LoRa band, at concrete inputs.
use orc_mesh.Prelude.{
  ℕ, ◌+◌, ◌*◌, ◌/◌, ◌≤◌, ◌<◌, ◌≡◌, ◌≢◌, true, false, some, List, [], ◌∷◌, arith, length, All,
}
use orc_mesh.Prelude.Int.{pos, negsuc}
use orc_mesh.Prelude.Text.{codes}
use orc_mesh.Prelude.Dict.{lookup}
use orc_mesh.Capture.Recorder.{open_recorder, write_all, aligned}
use orc_mesh.Capture.Recorder.Stream.{stream, cut, exceeds, write_all_lem}
use orc_mesh.Capture.Replay.{chunk_size, iter_capture_chunks}
use orc_mesh.Capture.Replay.Whole.{joined, IsChunk, iter_capture_chunks_lem}
use orc_mesh.Analytics.Rates.{new_tracker, record_all, per_minute_hour, minute, hour}
use orc_mesh.Analytics.Rates.Exact.{events_in, per_minute_hour_exact}
use orc_mesh.Analytics.Classifier.{packet_category, packet_category_lem}
use orc_mesh.Radio.Bands.{BandRange, slots_of, mod_count, slot_center, preset_of}
use orc_mesh.Radio.Bands.Slots.{slot_center-inside}
use orc_mesh.Radio.Airtime.{ModemParams, params_for_preset, airtime}
use orc_mesh.Radio.Airtime.Symbols.{Agree, params_for_preset-preset_of, airtime_mono}

abbrev bytes : List (List ℕ)
bytes = (1 ∷ 2 ∷ 3 ∷ []) ∷ [] ∷ (4 ∷ 5 ∷ 6 ∷ 7 ∷ []) ∷ []

write_all_lem_example :
    ((write_all bytes (open_recorder (some 5))).file ≡ cut (some 5) (stream bytes))
    × ((write_all bytes (open_recorder (some 5))).samples * 2
        ≡ length (write_all bytes (open_recorder (some 5))).file)
    × ((write_all bytes (open_recorder (some 5))).truncated ≡ exceeds (some 5) (stream bytes))
write_all_lem_example = write_all_lem (some 5) bytes

iter_capture_chunks_lem_example :
    (chunks : List (List ℕ)) × (iter_capture_chunks 6 3 (1 ∷ 2 ∷ 3 ∷ 4 ∷ 5 ∷ []) ≡ some chunks)
    × (joined chunks ≡ aligned (1 ∷ 2 ∷ 3 ∷ 4 ∷ 5 ∷ []))
    × All (IsChunk (chunk_size 3)) chunks
iter_capture_chunks_lem_example = iter_capture_chunks_lem 6 3 (1 ∷ 2 ∷ 3 ∷ 4 ∷ 5 ∷ []) (omega arith)

abbrev times : List ℕ
times = 1_000 ∷ 50_000 ∷ 70_000 ∷ []

per_minute_hour_exact_example :
    ((per_minute_hour 100_000 (record_all times new_tracker)).1 ≡ events_in minute 100_000 times)
    × ((per_minute_hour 100_000 (record_all times new_tracker)).2 ≡ events_in hour 100_000 times)
per_minute_hour_exact_example =
    per_minute_hour_exact times 100_000 (omega arith, (omega arith, (omega arith, tt)))
      (omega arith, (omega arith, (omega arith, tt)))

abbrev three : ℕ
three = 3

not_encrypted : some false ≢ some true
not_encrypted e = cc

packet_category_lem_example : packet_category (some (pos 3)) (some false) ≡ codes "Position"
unfolding lookup
packet_category_lem_example = packet_category_lem (some (pos 3)) (some false) not_encrypted

abbrev us : BandRange
us = record { name = "US 902-928"; start_hz = 902_000_000; end_hz = 928_000_000 }

slot_center-inside_example :
    (us.start_hz + 250_000 / 2 ≤ slot_center us 250_000 (negsuc 0))
    × (slot_center us 250_000 (negsuc 0) + 250_000 / 2 ≤ us.end_hz)
slot_center-inside_example = slot_center-inside us 250_000 (negsuc 0) (omega arith) (omega arith)

slots_differ : mod_count (pos 19) (slots_of us 250_000) < mod_count (pos 20) (slots_of us 250_000)
unfolding mod_count slots_of
slots_differ = omega arith

params_for_preset-preset_of_example :
    Agree (params_for_preset (some "TURBO")) (preset_of (some "TURBO"))
params_for_preset-preset_of_example = params_for_preset-preset_of (some "TURBO")

abbrev long_fast : ModemParams
long_fast = record {
  spreading_factor = 11;
  bandwidth_hz = 250_000;
  coding_rate = 1;
  preamble_symbols = 8;
  explicit_header = true;
  crc = true;
}

airtime_mono_example :
    (a : ℕ) × (b : ℕ) × (airtime 20 long_fast ≡ some a) × (airtime 200 long_fast ≡ some b) × (a ≤ b)
airtime_mono_example = airtime_mono 20 200 long_fast (omega arith) (omega arith) (omega arith)
