-- ===== src/Radio/Plans.antt =====
-- The single-channel networks of src/meshchat/analytics/lora_bands.py, in Hz.
use orc_mesh.Prelude.{ℕ, ◌*◌, Option, none, some, List, [], ◌∷◌, ◌++◌, String}
use orc_mesh.Prelude.Text.{codes}
use orc_mesh.Prelude.Dict.{Dict, lookup, string_eq}
use orc_mesh.Radio.Bands.{ChannelMarker}

pub record SingleChannelPlan : Type 0 where
  pub region : String
  pub freq_hz : ℕ
  pub bandwidth_hz : ℕ
  pub spreading_factor : ℕ

abbrev plan : String → ℕ → ℕ → ℕ → SingleChannelPlan
plan region freq_khz bandwidth_khz spreading_factor = record {
  region = region;
  freq_hz = freq_khz * 1000;
  bandwidth_hz = bandwidth_khz * 1000;
  spreading_factor = spreading_factor;
}

abbrev pub meshcore_plans : Dict String SingleChannelPlan
meshcore_plans =
    ("US", plan "US / ANZ 915" 910_525 250 11)
    ∷ ("EU", plan "EU 869" 869_525 250 11)
    ∷ ("UK", plan "UK 869" 869_525 250 11)
    ∷ ("AU_NZ", plan "AU / NZ 915" 915_525 250 11)
    ∷ ("IN", plan "IN 866" 865_525 250 11)
    ∷ ("JP", plan "JP 923" 923_250 250 11)
    ∷ ("433", plan "433 ISM" 433_500 250 11)
    ∷ []

abbrev pub reticulum_plans : Dict String SingleChannelPlan
reticulum_plans =
    ("US", plan "US 915 ISM" 915_000 125 8)
    ∷ ("EU", plan "EU 868 ISM" 867_200 125 8)
    ∷ ("UK", plan "UK 869 ISM" 869_525 125 8)
    ∷ ("AU_NZ", plan "AU / NZ 915" 915_000 125 8)
    ∷ ("IN", plan "IN 865 ISM" 865_600 125 8)
    ∷ ("JP", plan "JP 920 ISM" 920_800 125 8)
    ∷ ("433", plan "433 ISM" 433_500 125 8)
    ∷ []

marker_of : String → Option SingleChannelPlan → List ChannelMarker
marker_of prefix none = []
marker_of prefix (some p) =
    record {
      label = codes prefix ++ codes p.region;
      center_hz = p.freq_hz;
      bandwidth_hz = p.bandwidth_hz;
    }
    ∷ []

unfoldable pub meshcore_markers : String → List ChannelMarker
unfolding marker_of
meshcore_markers region_key = marker_of "MeshCore " (lookup region_key meshcore_plans)

unfoldable pub reticulum_markers : String → List ChannelMarker
unfolding marker_of
reticulum_markers region_key = marker_of "Reticulum " (lookup region_key reticulum_plans)
