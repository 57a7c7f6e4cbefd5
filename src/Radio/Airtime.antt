-- ===== src/Radio/Airtime.antt =====
-- src/meshchat/analytics/lora_airtime.py. A symbol lasts 2^sf / bandwidth seconds, so a comparison of
-- its time is one of products, and an airtime is a count of ticks of 1 / (4 * bandwidth) seconds: the
-- preamble's 4.25 symbols are 17 quarters.
pub mod Symbols
use orc_mesh.Prelude.{
  ℕ, zero, suc, ◌+◌, ◌-◌, ◌*◌, ◌/◌, ◌^◌, Bool, true, false, not, Option, none, some, String, ltb,
  leb, ◌==◌, if◌then◌else◌,
}
use orc_mesh.Prelude.Dict.{lookup, string_eq}
use orc_mesh.Radio.Bands.{Preset, meshtastic_presets}

pub record ModemParams : Type 0 where
  pub spreading_factor : ℕ
  pub bandwidth_hz : ℕ
  pub coding_rate : ℕ
  pub preamble_symbols : ℕ
  pub explicit_header : Bool
  pub crc : Bool

-- a symbol lasts longer than 16 ms, at a bandwidth above 0
abbrev pub is_slow : ModemParams → Bool
is_slow p = ltb (16 * p.bandwidth_hz) (2 ^ p.spreading_factor * 1000)

-- low_data_rate_optimise, by symbol_time_ms: None where the bandwidth is 0, a ZeroDivisionError
unfoldable pub low_data_rate_optimise : ModemParams → Option Bool
low_data_rate_optimise p = if p.bandwidth_hz == 0 then none else some (is_slow p)

-- ModemParams(spreading_factor, bandwidth_hz), with the defaults of the dataclass
abbrev params_of : Preset → ModemParams
params_of p = record {
  spreading_factor = p.1;
  bandwidth_hz = p.0;
  coding_rate = 1;
  preamble_symbols = 8;
  explicit_header = true;
  crc = true;
}

-- MESHTASTIC_PRESETS[_DEFAULT_PRESET], which is there
default_params : Option Preset → ModemParams
default_params none = params_of (0, 0)
default_params (some p) = params_of p

params_or_default : Option Preset → ModemParams
unfolding default_params
params_or_default none = default_params (lookup "LONG_FAST" meshtastic_presets)
params_or_default (some p) = params_of p

name_or_empty : Option String → String
name_or_empty none = ""
name_or_empty (some name) = name

unfoldable pub params_for_preset : Option String → ModemParams
unfolding params_or_default name_or_empty
params_for_preset preset = params_or_default (lookup (name_or_empty preset) meshtastic_presets)

abbrev pub one_if : Bool → ℕ
one_if b = if b then 1 else 0

-- the numerator is `added - taken`, and not above 0 where `added` is not above `taken`
abbrev pub added : ℕ → ModemParams → ℕ
added payload_bytes p = 8 * payload_bytes + 28 + 16 * one_if p.crc

abbrev pub taken : ModemParams → ℕ
taken p = 4 * p.spreading_factor + 20 * one_if (not p.explicit_header)

-- -(-n // d) for a positive d
abbrev pub ceil_div : ℕ → ℕ → ℕ
ceil_div n d = (n + (d - 1)) / d

-- `max(-(-numerator // denominator), 0)` for a positive numerator; the denominator is four times the
-- difference of `sf` and `reduction`: None where it is 0, a ZeroDivisionError
unfoldable pub blocks : ℕ → ℕ → ℕ → Option ℕ
blocks numerator sf reduction =
    if sf == reduction
    then none
    else if ltb sf reduction
    then some 0
    else some (ceil_div numerator (4 * (sf - reduction)))

symbols_of : ℕ → Option ℕ → Option ℕ
symbols_of coding_rate none = none
symbols_of coding_rate (some b) = some (8 + b * (coding_rate + 4))

-- payload_symbols, once the optimisation is known
unfoldable pub symbols_optimised : ℕ → ModemParams → Option Bool → Option ℕ
unfolding symbols_of blocks
symbols_optimised payload_bytes p none = none
symbols_optimised payload_bytes p (some optimise) =
    if ltb (taken p) (added payload_bytes p)
    then symbols_of p.coding_rate
        (blocks (added payload_bytes p - taken p) p.spreading_factor (2 * one_if optimise))
    else some 8

-- payload_symbols
unfoldable pub payload_symbols : ℕ → ModemParams → Option ℕ
payload_symbols payload_bytes p = symbols_optimised payload_bytes p (low_data_rate_optimise p)

ticks_of : ModemParams → Option ℕ → Option ℕ
ticks_of p none = none
ticks_of p (some symbols) =
    some ((4 * (symbols + p.preamble_symbols) + 17) * 2 ^ p.spreading_factor)

-- airtime_seconds, in ticks
unfoldable pub airtime : ℕ → ModemParams → Option ℕ
unfolding ticks_of
airtime payload_bytes p = ticks_of p (payload_symbols payload_bytes p)
