-- ===== src/Radio/Airtime/Symbols.antt =====
-- The airtime of the presets.
use native.Mathlib.Nat.{mul-le-mul_right, div-mul-le_self, le-div_iff_mul-le}
use orc_mesh.Prelude.{
  ℕ, ◌+◌, ◌-◌, ◌*◌, ◌/◌, ◌^◌, ◌≤◌, ◌<◌, ◌≡◌, refl, Option, none, some, String, arith, ltb,
  if◌then◌else◌,
}
use orc_mesh.Prelude.Dict.{lookup, string_eq}
use orc_mesh.Radio.Bands.{Preset, meshtastic_presets, preset_of, preset_or_default}
use orc_mesh.Radio.Airtime.{
  ModemParams, low_data_rate_optimise, is_slow, symbols_optimised, params_for_preset,
  params_or_default, default_params, name_or_empty, one_if, added, taken, ceil_div, blocks,
  payload_symbols, symbols_of, ticks_of, airtime,
}

abbrev pub Agree : ModemParams → Preset → Type 0
Agree params preset = (params.bandwidth_hz ≡ preset.0) × (params.spreading_factor ≡ preset.1)

params_or_default-Agree : (o : Option Preset) → Agree (params_or_default o) (preset_or_default o)
unfolding params_or_default preset_or_default default_params lookup
params_or_default-Agree none = (refl, refl)
params_or_default-Agree (some p) = (refl, refl)

-- The modem settings assumed for a packet and for a channel marker agree on every preset name, known,
-- unknown or missing: the two fallbacks, written apart, are the same preset.
pub params_for_preset-preset_of :
    (preset : Option String) → Agree (params_for_preset preset) (preset_of preset)
unfolding params_for_preset preset_of name_or_empty
params_for_preset-preset_of none = unfold lookup params_or_default default_params in (refl, refl)
params_for_preset-preset_of (some name) = params_or_default-Agree (lookup name meshtastic_presets)

div_mono : (a b d : ℕ) → 0 < d → a ≤ b → a / d ≤ b / d
div_mono a b d h le = (le-div_iff_mul-le h).1 (omega (arith, div-mul-le_self a d))

-- the blocks of a payload, where the spreading factor is above the reduction
abbrev blocks_of : ℕ → ModemParams → ℕ
blocks_of n p =
    if ltb (taken p) (added n p)
    then ceil_div (added n p - taken p) (4 * (p.spreading_factor - 2 * one_if (is_slow p)))
    else 0

payload_symbols-blocks_of :
    (n : ℕ) (p : ModemParams)
    → 2 < p.spreading_factor
    → 0 < p.bandwidth_hz
    → payload_symbols n p ≡ some (8 + blocks_of n p * (p.coding_rate + 4))
unfolding payload_symbols
payload_symbols-blocks_of n p h k =
    let known : low_data_rate_optimise p ≡ some (is_slow p) =
      unfold low_data_rate_optimise in ground arith in
    rw known (unfold symbols_optimised symbols_of blocks in ground arith)

blocks_of_mono :
    (m n : ℕ) (p : ModemParams) → 2 < p.spreading_factor → m ≤ n → blocks_of m p ≤ blocks_of n p
blocks_of_mono m n p h le =
    let d : ℕ = 4 * (p.spreading_factor - 2 * one_if (is_slow p)) in
    let positive : 0 < d = ground arith in
    ground (
      arith,
      div_mono (added m p - taken p + (d - 1)) (added n p - taken p + (d - 1)) d positive
          (omega arith),
    )

-- With any spreading factor above 2 and any bandwidth above 0, so with every preset, an airtime is
-- computed without an error, and a longer payload never takes less of it.
pub airtime_mono :
    (m n : ℕ) (p : ModemParams)
    → 2 < p.spreading_factor
    → 0 < p.bandwidth_hz
    → m ≤ n
    → (a : ℕ) × (b : ℕ) × (airtime m p ≡ some a) × (airtime n p ≡ some b) × (a ≤ b)
unfolding airtime ticks_of
airtime_mono m n p h k le = (
  ticks m,
  ticks n,
  rw (payload_symbols-blocks_of m p h k) refl,
  rw (payload_symbols-blocks_of n p h k) refl,
  mul-le-mul_right (2 ^ p.spreading_factor)
      (omega (arith, mul-le-mul_right (p.coding_rate + 4) (blocks_of_mono m n p h le))),
)
  where
    ticks : ℕ → ℕ
    ticks j =
        (4 * (8 + blocks_of j p * (p.coding_rate + 4) + p.preamble_symbols) + 17)
        * 2 ^ p.spreading_factor
