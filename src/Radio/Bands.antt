-- ===== src/Radio/Bands.antt =====
-- src/meshchat/analytics/lora_bands.py. Every frequency and every bandwidth of the tables is a whole
-- number of Hz, so the module counts in Hz where the code has floats in MHz and kHz.
pub mod Slots
use orc_mesh.Prelude.{
  ℕ, zero, suc, ◌+◌, ◌-◌, ◌*◌, ◌/◌, ◌%◌, max, Bool, true, false, Option, none, some, List, [], ◌∷◌,
  ◌++◌, String, ◌==◌, if◌then◌else◌,
}
use orc_mesh.Prelude.Int.{ℤ, pos, negsuc, ◌+ℤ◌, sub_ℕ}
use orc_mesh.Prelude.Text.{Text, codes, show_ℤ, text_or}
use orc_mesh.Prelude.Dict.{Dict, lookup, string_eq}

pub record BandRange : Type 0 where
  pub name : String
  pub start_hz : ℕ
  pub end_hz : ℕ

-- BandRange.span_mhz
abbrev pub span : BandRange → ℕ
span b = b.end_hz - b.start_hz

pub record ChannelMarker : Type 0 where
  pub label : Text
  pub center_hz : ℕ
  pub bandwidth_hz : ℕ

abbrev band : String → ℕ → ℕ → BandRange
band name start_khz end_khz = record {
  name = name;
  start_hz = start_khz * 1000;
  end_hz = end_khz * 1000;
}

abbrev pub meshtastic_regions : Dict String BandRange
meshtastic_regions =
    ("US", band "US 902-928" 902_000 928_000)
    ∷ ("EU_433", band "EU 433" 433_000 434_000)
    ∷ ("EU_868", band "EU 868" 869_400 869_650)
    ∷ ("CN", band "CN 470-510" 470_000 510_000)
    ∷ ("JP", band "JP 920-928" 920_800 927_800)
    ∷ ("ANZ", band "ANZ 915-928" 915_000 928_000)
    ∷ ("ANZ_433", band "ANZ 433" 433_050 434_790)
    ∷ ("KR", band "KR 920-923" 920_000 923_000)
    ∷ ("TW", band "TW 920-925" 920_000 925_000)
    ∷ ("RU", band "RU 868" 868_700 869_200)
    ∷ ("IN", band "IN 865-867" 865_000 867_000)
    ∷ ("NZ_865", band "NZ 865" 864_000 868_000)
    ∷ ("TH", band "TH 920-925" 920_000 925_000)
    ∷ ("UA_433", band "UA 433" 433_000 434_700)
    ∷ ("UA_868", band "UA 868" 868_000 868_600)
    ∷ ("MY_433", band "MY 433" 433_000 435_000)
    ∷ ("MY_919", band "MY 919-924" 919_000 924_000)
    ∷ ("SG_923", band "SG 917-925" 917_000 925_000)
    ∷ ("LORA_24", band "2.4 GHz" 2_400_000 2_483_500)
    ∷ []

-- a modem preset: its bandwidth and its spreading factor
abbrev pub Preset : Type 0
Preset = ℕ × ℕ

abbrev pub meshtastic_presets : Dict String Preset
meshtastic_presets =
    ("SHORT_TURBO", (500_000, 7))
    ∷ ("SHORT_FAST", (250_000, 7))
    ∷ ("SHORT_SLOW", (250_000, 8))
    ∷ ("MEDIUM_FAST", (250_000, 9))
    ∷ ("MEDIUM_SLOW", (250_000, 10))
    ∷ ("LONG_FAST", (250_000, 11))
    ∷ ("LONG_MODERATE", (125_000, 11))
    ∷ ("LONG_SLOW", (125_000, 12))
    ∷ ("VERY_LONG_SLOW", (62_500, 12))
    ∷ []

-- how many slots of this width a band has
unfoldable pub slots_of : BandRange → ℕ → ℕ
slots_of b bandwidth = if bandwidth == 0 then 0 else max (span b / bandwidth) 1

slots_of_region : Option BandRange → ℕ → ℕ
unfolding slots_of
slots_of_region none bandwidth = 0
slots_of_region (some b) bandwidth = slots_of b bandwidth

-- meshtastic_num_channels
unfoldable pub meshtastic_num_channels : String → ℕ → ℕ
unfolding slots_of_region
meshtastic_num_channels region bandwidth =
    slots_of_region (lookup region meshtastic_regions) bandwidth

-- Python's `n % count`, which is never negative; the count is positive
unfoldable pub mod_count : ℤ → ℕ → ℕ
mod_count (pos n) count = n % count
mod_count (negsuc n) count = count - 1 - n % count

-- the centre of the slot of a channel number
unfoldable pub slot_center : BandRange → ℕ → ℤ → ℕ
slot_center b bandwidth channel_num =
    b.start_hz + bandwidth / 2 + mod_count channel_num (slots_of b bandwidth) * bandwidth

center_in : Option BandRange → ℕ → ℤ → Option ℕ
unfolding slot_center
center_in none bandwidth channel_num = none
center_in (some b) bandwidth channel_num =
    if slots_of b bandwidth == 0 then none else some (slot_center b bandwidth channel_num)

-- meshtastic_channel_frequency
unfoldable pub meshtastic_channel_frequency : String → ℕ → ℤ → Option ℕ
unfolding center_in
meshtastic_channel_frequency region bandwidth channel_num =
    center_in (lookup region meshtastic_regions) bandwidth channel_num

is_zero_ℤ : ℤ → Bool
is_zero_ℤ (pos n) = n == 0
is_zero_ℤ (negsuc n) = false

-- f"Ch {n}"
abbrev channel_name : ℤ → Text
channel_name n = codes "Ch " ++ show_ℤ n

marker_label : ℤ → ℤ → Option Text → Text
unfolding is_zero_ℤ
marker_label channel_num offset slot_label =
    if is_zero_ℤ offset
    then if is_zero_ℤ channel_num
      then codes "Ch 0 (nominal — firmware auto-selects)"
      else text_or slot_label (channel_name channel_num ++ codes " (active)")
    else channel_name (channel_num +ℤ offset)

marker_at : Text → ℕ → Option ℕ → List ChannelMarker
marker_at label bandwidth none = []
marker_at label bandwidth (some center) =
    record { label = label; center_hz = center; bandwidth_hz = bandwidth } ∷ []

-- range(-n, n + 1), from its last `left` values
abbrev offset : ℕ → ℕ → ℤ
offset n i = sub_ℕ i n

unfoldable pub preset_or_default : Option Preset → Preset
preset_or_default none = (250_000, 11)
preset_or_default (some p) = p

-- MESHTASTIC_PRESETS.get(preset or "", (250.0, 11))
unfoldable pub preset_of : Option String → Preset
unfolding preset_or_default
preset_of none = (250_000, 11)
preset_of (some name) = preset_or_default (lookup name meshtastic_presets)

markers_from : String → ℕ → ℤ → ℕ → Option Text → ℕ → ℕ → List ChannelMarker
unfolding marker_label marker_at
markers_from region bandwidth channel_num neighbours slot_label i zero = []
markers_from region bandwidth channel_num neighbours slot_label i (suc left) =
    let o = offset neighbours i in
    marker_at (marker_label channel_num o slot_label) bandwidth
      (meshtastic_channel_frequency region bandwidth (channel_num +ℤ o))
    ++ markers_from region bandwidth channel_num neighbours slot_label (suc i) left

-- meshtastic_markers
unfoldable pub meshtastic_markers :
    String → Option String → ℤ → ℕ → Option Text → List ChannelMarker
unfolding markers_from
meshtastic_markers region preset channel_num neighbours slot_label =
    markers_from region (preset_of preset).0 channel_num neighbours slot_label 0
      (2 * neighbours + 1)
