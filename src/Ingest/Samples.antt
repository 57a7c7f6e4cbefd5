-- ===== src/Ingest/Samples.antt =====
-- `_handle_position` and `_handle_telemetry` of src/meshchat/services/packet_ingestor.py: the samples
-- that they build. `latitude / 1e7` and `heading / 100.0` are the same integers in the units of the
-- samples (10⁻⁷ degrees, hundredths of a degree).
use orc_mesh.Prelude.{ℕ, Option, none, some, or_else, if◌then◌else◌}
use orc_mesh.Prelude.Int.{ℤ}
use orc_mesh.Model.Packet.{NetworkPacket}
use orc_mesh.Model.Samples.{PositionSample, TelemetrySample, is_valid}
use orc_mesh.Ingest.Raw.{
  Cell, absent, get, get_first, Metric, reading, unreadable, Position, DeviceMetrics,
  EnvironmentMetrics, Telemetry,
}
use orc_mesh.Ingest.Normalize.{timestamp}

-- `d.get(camel)`, and `d.get(snake)` where that is None
unfoldable pub get_or_get {ℓ} : {A : Type ℓ} → Cell A → Cell A → Option A
get_or_get camel snake = or_else (get camel) (get snake)

unfoldable pub position_sample : ℕ → ℕ → Position → PositionSample
unfolding get_or_get
position_sample num observed_at p = record {
  node_num = num;
  observed_at = observed_at;
  latitude = get_or_get p.latitude_i p.latitude_i_snake;
  longitude = get_or_get p.longitude_i p.longitude_i_snake;
  altitude_m = get p.altitude;
  speed_ms = get_first p.ground_speed p.ground_speed_snake;
  heading_deg = get_first p.ground_track p.ground_track_snake;
  position_time = timestamp (get p.time);
  precision_bits = get_first p.precision_bits p.precision_bits_snake;
}

valid_only : PositionSample → Option PositionSample
valid_only s = if is_valid s then some s else none

-- _handle_position: the sample that is stored and emitted, if any
unfoldable pub handle_position : NetworkPacket → Option Position → Option PositionSample
unfolding valid_only
handle_position pkt p = elim pkt.sender_num [
  | none ↦ none
  | some num ↦ elim p [
    | none ↦ none
    | some pos_data ↦ valid_only (position_sample num pkt.observed_at pos_data)
  ]
]

-- `_f(d, camel, snake)`: the first key with a value that `float` reads
abbrev pub readable : Option Metric → Option ℤ
readable none = none
readable (some unreadable) = none
readable (some (reading x)) = some x

unfoldable pub metric : Cell Metric → Option ℤ
metric c = readable (get c)

unfoldable pub metric_first : Cell Metric → Cell Metric → Option ℤ
unfolding metric
metric_first camel snake = or_else (metric camel) (metric snake)

abbrev pub no_device_metrics : DeviceMetrics
no_device_metrics = record {
  battery_level = absent;
  battery_level_snake = absent;
  voltage = absent;
  channel_utilization = absent;
  channel_utilization_snake = absent;
  air_util_tx = absent;
  air_util_tx_snake = absent;
}

abbrev pub no_environment_metrics : EnvironmentMetrics
no_environment_metrics = record {
  temperature = absent;
  relative_humidity = absent;
  relative_humidity_snake = absent;
  barometric_pressure = absent;
  barometric_pressure_snake = absent;
  gas_resistance = absent;
  gas_resistance_snake = absent;
}

-- `x or {}`
abbrev pub or_empty {ℓ} : {A : Type ℓ} → A → Option A → A
or_empty empty none = empty
or_empty empty (some a) = a

unfoldable pub telemetry_sample : ℕ → ℕ → DeviceMetrics → EnvironmentMetrics → TelemetrySample
unfolding metric metric_first
telemetry_sample num observed_at dev env = record {
  node_num = num;
  observed_at = observed_at;
  battery_level = metric_first dev.battery_level dev.battery_level_snake;
  voltage = metric dev.voltage;
  channel_utilization = metric_first dev.channel_utilization dev.channel_utilization_snake;
  air_util_tx = metric_first dev.air_util_tx dev.air_util_tx_snake;
  temperature_c = metric env.temperature;
  relative_humidity = metric_first env.relative_humidity env.relative_humidity_snake;
  barometric_pressure_hpa = metric_first env.barometric_pressure env.barometric_pressure_snake;
  gas_resistance_ohm = metric_first env.gas_resistance env.gas_resistance_snake;
}

-- _handle_telemetry: the sample that is stored, emitted and merged into the node, if any
unfoldable pub handle_telemetry : NetworkPacket → Option Telemetry → Option TelemetrySample
unfolding get_or_get
handle_telemetry pkt t = elim pkt.sender_num [
  | none ↦ none
  | some num ↦ elim t [
    | none ↦ none
    | some tel ↦ some (
        telemetry_sample num pkt.observed_at
          (or_empty no_device_metrics (get_or_get tel.device_metrics tel.device_metrics_snake))
          (or_empty no_environment_metrics
            (get_or_get tel.environment_metrics tel.environment_metrics_snake)))
  ]
]
