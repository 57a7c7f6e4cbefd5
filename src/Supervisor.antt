-- ===== src/Supervisor.antt =====
-- `ConnectionSupervisor` of src/meshchat/services/connection_supervisor.py, with the model
-- `ConnectionProfile` and the `ErrorCode` of the controller. A signal of the controller, a call of the
-- user interface and the timeout of the retry timer are events; the calls that the supervisor makes
-- on the controller are the actions that a step returns, in order.
pub mod Settings
pub mod Retries
pub mod Outage
use orc_mesh.Prelude.{
  ℕ, zero, suc, ◌+◌, ◌-◌, ◌*◌, ◌≡◌, Bool, true, false, Option, none, some, List, [], ◌∷◌, ◌++◌,
  String, min, is_some, if◌then◌else◌, get_elem?, length, ◌&&◌,
}
use orc_mesh.Prelude.Int.{ℤ, pos}
use orc_mesh.Prelude.Text.{Text, codes, text_eq, text_or, lower, contains, parse_int, show_ℤ}
use orc_mesh.Prelude.Dict.{Dict, lookup, insert, string_eq}

pub record ConnectionProfile : Type 0 where
  pub transport : Text
  pub ble_address : Text
  pub tcp_host : Text
  pub tcp_port : ℤ
  pub serial_port : Text

pub data ErrorCode : Type 0 where
  ble_not_available ble_device_not_found ble_multiple_devices ble_pairing_required : ErrorCode
  ble_connection_failed tcp_host_not_found tcp_refused tcp_timeout : ErrorCode
  serial_port_not_found serial_connection_failed config_sync_timeout connection_lost : ErrorCode
  send_failed invalid_message device_control_failed internal_error : ErrorCode

abbrev pub is_connection_lost : ErrorCode → Bool
is_connection_lost connection_lost = true
is_connection_lost _ = false

abbrev pub Settings : Type 0
Settings = Dict String Text

pub record Supervisor : Type 0 where
  pub store : Settings
  pub profile : Option ConnectionProfile
  pub attempt : ℕ
  pub was_connected : Bool
  pub active : Bool
  pub timer : Option ℕ  -- the pending delay in milliseconds

unfoldable pub new_supervisor : Settings → Supervisor
new_supervisor store = record {
  store = store;
  profile = none;
  attempt = 0;
  was_connected = false;
  active = false;
  timer = none;
}

pub data Action : Type 0 where
  enter_reconnecting : ℕ → Action  -- the attempt number of the message
  connect_tcp : Text → ℤ → Action
  connect_serial : Text → Action
  connect_ble : Text → Action

pub data Event : Type 0 where
  set_profile : ConnectionProfile → Event
  cancel : Event
  connected : Event
  disconnected : Text → Event
  error_occurred : ErrorCode → Event
  timeout : Event

abbrev pub backoff_seconds : List ℕ
backoff_seconds = 2 ∷ 5 ∷ 15 ∷ 30 ∷ 60 ∷ []

-- _BACKOFF_SECONDS[i]; the index is always in range
abbrev pub seconds_at : List ℕ → ℕ → ℕ
seconds_at delays i = elim (get_elem? delays i) [ none ↦ 0 | some s ↦ s ]

unfoldable pub schedule_retry : Supervisor → Supervisor × List Action
schedule_retry s =
    let delay = seconds_at backoff_seconds (min s.attempt (length backoff_seconds - 1)) in
    (record s { timer = some (delay * 1000) }, enter_reconnecting (s.attempt + 1) ∷ [])

unfoldable pub cancel_retry : Supervisor → Supervisor
cancel_retry s = record s { active = false; was_connected = false; timer = none }

unfoldable pub put_profile : ConnectionProfile → Settings → Settings
put_profile p store = insert "connection.serial_port" p.serial_port (
    insert "connection.tcp_port" (show_ℤ p.tcp_port) (
      insert "connection.tcp_host" p.tcp_host (
        insert "connection.ble_address" p.ble_address
          (insert "connection.transport" p.transport store))))

unfoldable pub save_profile : Option ConnectionProfile → Settings → Settings
unfolding put_profile
save_profile none store = store
save_profile (some p) store = put_profile p store

unfoldable pub on_connected : Supervisor → Supervisor
unfolding save_profile
on_connected s = record s {
  timer = none;
  active = false;
  attempt = 0;
  was_connected = true;
  store = save_profile s.profile s.store;
}

unfoldable pub on_disconnected : Text → Supervisor → Supervisor
unfolding cancel_retry
on_disconnected reason s = if contains (codes "user") (lower reason) then cancel_retry s else s

unfoldable pub on_error : ErrorCode → Supervisor → Supervisor × List Action
unfolding schedule_retry
on_error code s =
    if s.active
    then schedule_retry (record s { attempt = s.attempt + 1 })
    else if is_connection_lost code && (s.was_connected && is_some s.profile)
    then schedule_retry (record s { active = true; attempt = 0 })
    else (s, [])

unfoldable pub reconnect : ConnectionProfile → List Action
reconnect p =
    if text_eq p.transport (codes "tcp")
    then connect_tcp p.tcp_host p.tcp_port ∷ []
    else if text_eq p.transport (codes "serial")
    then connect_serial p.serial_port ∷ []
    else if text_eq p.transport (codes "ble")
    then connect_ble p.ble_address ∷ []
    else []

reconnect_with : Option ConnectionProfile → List Action
unfolding reconnect
reconnect_with none = []
reconnect_with (some p) = reconnect p

unfoldable pub attempt_reconnect : Supervisor → List Action
unfolding reconnect_with
attempt_reconnect s = if s.active then reconnect_with s.profile else []

-- the single-shot timer stops before its slot runs, and does not fire unless it is started
fire : Option ℕ → Supervisor → Supervisor × List Action
unfolding attempt_reconnect
fire none s = (s, [])
fire (some delay) s = (record s { timer = none }, attempt_reconnect s)

unfoldable pub step : Event → Supervisor → Supervisor × List Action
unfolding fire on_connected on_disconnected on_error cancel_retry
step (set_profile p) s = (record s { profile = some p }, [])
step cancel s = (cancel_retry s, [])
step connected s = (on_connected s, [])
step (disconnected reason) s = (on_disconnected reason s, [])
step (error_occurred code) s = on_error code s
step timeout s = fire s.timer s

unfoldable pub run : List Event → Supervisor → Supervisor × List Action
run [] s = (s, [])
run (e ∷ es) s =
    let (s', actions) = step e s in let (s'', later) = run es s' in (s'', actions ++ later)

-- int(setting or "4403"), and 4403 where the setting is no number
abbrev port_or_default : Option ℤ → ℤ
port_or_default none = pos 4403
port_or_default (some port) = port

unfoldable pub profile_of : Settings → Text → Option ConnectionProfile
profile_of store [] = none
profile_of store (c ∷ transport) = some (record {
  transport = c ∷ transport;
  ble_address = text_or (lookup "connection.ble_address" store) [];
  tcp_host = text_or (lookup "connection.tcp_host" store) [];
  tcp_port =
      port_or_default (parse_int (text_or (lookup "connection.tcp_port" store) (codes "4403")));
  serial_port = text_or (lookup "connection.serial_port" store) [];
})

unfoldable pub load_profile : Settings → Option ConnectionProfile
unfolding profile_of
load_profile store = profile_of store (text_or (lookup "connection.transport" store) [])
