-- ===== src/Ingest/Raw.antt =====
-- The packet dicts that the meshtastic library publishes, as src/meshchat/services/packet_ingestor.py
-- reads them. A dict is a record with a field for each key that is read; a key may be missing or hold
-- None. The library gives each key the type of its protobuf field (numbers are unsigned but for
-- signal, coordinates and metrics). An empty `user`, `position`, `telemetry` or metrics dict is `null`,
-- which `or {}` makes the same. A `decoded` or `user` entry is a dict, None or missing here: one of another
-- type, on which `_dedup_key` or `_update_node` may raise, is not modelled.
use orc_mesh.Prelude.{ℕ, Bool, Option, none, some, List}
use orc_mesh.Prelude.Int.{ℤ}
use orc_mesh.Prelude.Text.{Text}

pub data Cell {ℓ} (A : Type ℓ) : Type ℓ where
  absent null : Cell A
  value : A → Cell A

-- d.get(key)
unfoldable pub get {ℓ} : {A : Type ℓ} → Cell A → Option A
get absent = none
get null = none
get (value a) = some a

-- `_get(d, "camelCase", "snake_case")`: the first key that is there, be its value None
unfoldable pub get_first {ℓ} : {A : Type ℓ} → Cell A → Cell A → Option A
unfolding get
get_first absent c = get c
get_first null c = none
get_first (value a) c = some a

-- `a or b` on texts
unfoldable pub or_text : Option Text → Option Text → Option Text
or_text none b = b
or_text (some List.[]) b = b
or_text (some (List.◌∷◌ c s)) b = some (List.◌∷◌ c s)

-- `n or 0`
unfoldable pub or_zero : Option ℕ → ℕ
or_zero none = 0
or_zero (some n) = n

-- `decoded["portnum"]`: the enum's name, a number, or something else
pub data PortValue : Type 0 where
  name : Text → PortValue
  number : ℤ → PortValue
  boolean : Bool → PortValue
  other : PortValue

-- `decoded["payload"]`: bytes, or an object of another type
pub data Payload : Type 0 where
  bytes : List ℕ → Payload
  other_object : Payload

-- a metric; `float(v)` raises TypeError or ValueError on what is no number
pub data Metric : Type 0 where
  reading : ℤ → Metric
  unreadable : Metric

pub record User : Type 0 where
  pub id : Cell Text
  pub long_name : Cell Text
  pub long_name_snake : Cell Text
  pub short_name : Cell Text
  pub short_name_snake : Cell Text
  pub role : Cell Text
  pub hw_model : Cell Text
  pub hw_model_snake : Cell Text

pub record Position : Type 0 where
  pub latitude_i : Cell ℤ
  pub latitude_i_snake : Cell ℤ
  pub longitude_i : Cell ℤ
  pub longitude_i_snake : Cell ℤ
  pub altitude : Cell ℤ
  pub ground_speed : Cell ℤ
  pub ground_speed_snake : Cell ℤ
  pub ground_track : Cell ℤ
  pub ground_track_snake : Cell ℤ
  pub time : Cell ℕ
  pub precision_bits : Cell ℕ
  pub precision_bits_snake : Cell ℕ

pub record DeviceMetrics : Type 0 where
  pub battery_level : Cell Metric
  pub battery_level_snake : Cell Metric
  pub voltage : Cell Metric
  pub channel_utilization : Cell Metric
  pub channel_utilization_snake : Cell Metric
  pub air_util_tx : Cell Metric
  pub air_util_tx_snake : Cell Metric

pub record EnvironmentMetrics : Type 0 where
  pub temperature : Cell Metric
  pub relative_humidity : Cell Metric
  pub relative_humidity_snake : Cell Metric
  pub barometric_pressure : Cell Metric
  pub barometric_pressure_snake : Cell Metric
  pub gas_resistance : Cell Metric
  pub gas_resistance_snake : Cell Metric

pub record Telemetry : Type 0 where
  pub device_metrics : Cell DeviceMetrics
  pub device_metrics_snake : Cell DeviceMetrics
  pub environment_metrics : Cell EnvironmentMetrics
  pub environment_metrics_snake : Cell EnvironmentMetrics

pub record Decoded : Type 0 where
  pub portnum : Cell PortValue
  pub text : Cell Text
  pub payload : Cell Payload
  pub pki_encrypted : Cell Bool
  pub pki_encrypted_snake : Cell Bool
  pub priority : Cell Text
  pub user : Cell User
  pub position : Cell Position
  pub telemetry : Cell Telemetry

pub record RawPacket : Type 0 where
  pub sender : Cell ℕ  -- "from"
  pub from_num : Cell ℕ
  pub from_id : Cell Text
  pub to : Cell ℕ
  pub to_num : Cell ℕ
  pub id : Cell ℕ
  pub channel : Cell ℕ
  pub channel_index : Cell ℕ
  pub decoded : Cell Decoded
  pub hop_start : Cell ℕ
  pub hop_start_snake : Cell ℕ
  pub hop_limit : Cell ℕ
  pub hop_limit_snake : Cell ℕ
  pub rx_time : Cell ℕ
  pub rx_time_snake : Cell ℕ
  pub rx_snr : Cell ℤ
  pub rx_snr_snake : Cell ℤ
  pub rx_rssi : Cell ℤ
  pub rx_rssi_snake : Cell ℤ
  pub via_mqtt : Cell Bool
  pub via_mqtt_snake : Cell Bool
  pub transport_mechanism : Cell Text
  pub transport_mechanism_snake : Cell Text
  pub want_ack : Cell Bool
  -- True where a value has another type, on which a statement of `_normalize` raises
  pub malformed : Bool

-- {}
abbrev pub empty_decoded : Decoded
empty_decoded = record {
  portnum = absent;
  text = absent;
  payload = absent;
  pki_encrypted = absent;
  pki_encrypted_snake = absent;
  priority = absent;
  user = absent;
  position = absent;
  telemetry = absent;
}

-- raw.get("decoded", {}) or {}
unfoldable pub decoded_of : Cell Decoded → Decoded
decoded_of absent = empty_decoded
decoded_of null = empty_decoded
decoded_of (value d) = d
