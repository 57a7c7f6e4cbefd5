-- ===== src/Model/Samples.antt =====
-- `PositionSample` and `TelemetrySample` of src/meshchat/models. Coordinates are integer counts of
-- 10⁻⁷ degrees, the unit of the wire; other float readings are counts of a fixed fraction.
use orc_mesh.Prelude.{ℕ, Bool, false, Option, none, some, ◌&&◌, not, if◌then◌else◌}
use orc_mesh.Prelude.Int.{ℤ, pos, sub_ℕ, ltb_ℤ}

pub record PositionSample : Type 0 where
  pub node_num : ℕ
  pub observed_at : ℕ
  pub latitude : Option ℤ
  pub longitude : Option ℤ
  pub altitude_m : Option ℤ
  pub speed_ms : Option ℤ
  pub heading_deg : Option ℤ
  pub position_time : Option ℕ
  pub precision_bits : Option ℕ

abbrev pub ninety : ℕ
ninety = 900_000_000

abbrev pub half_turn : ℕ
half_turn = 1_800_000_000

-- -m <= x <= m
abbrev pub within : ℕ → Option ℤ → Bool
within m none = false
within m (some x) = not (ltb_ℤ x (sub_ℕ 0 m)) && not (ltb_ℤ (pos m) x)

-- PositionSample.is_valid
unfoldable pub is_valid : PositionSample → Bool
is_valid s = within ninety s.latitude && within half_turn s.longitude

-- PositionSample.coords
unfoldable pub coords : PositionSample → Option (Option ℤ × Option ℤ)
coords s = if is_valid s then some (s.latitude, s.longitude) else none

-- the fields that the ingestor sets; the others keep their default None
pub record TelemetrySample : Type 0 where
  pub node_num : ℕ
  pub observed_at : ℕ
  pub battery_level : Option ℤ
  pub voltage : Option ℤ
  pub channel_utilization : Option ℤ
  pub air_util_tx : Option ℤ
  pub temperature_c : Option ℤ
  pub relative_humidity : Option ℤ
  pub barometric_pressure_hpa : Option ℤ
  pub gas_resistance_ohm : Option ℤ
