-- ===== src/Model/Message.antt =====
-- `ChatMessage` of src/meshchat/controllers/meshtastic_controller.py and `NetworkSession` of
-- src/meshchat/models/network_session.py.
use orc_mesh.Prelude.{ℕ, Option}
use orc_mesh.Prelude.Int.{ℤ}
use orc_mesh.Prelude.Text.{Text, codes}

pub data MessageDirection : Type 0 where
  inbound outbound system : MessageDirection

pub data MessageStatus : Type 0 where
  received sending accepted_by_radio acknowledged failed unknown_delivery : MessageStatus

-- MessageDirection.value
unfoldable pub direction_value : MessageDirection → Text
direction_value inbound = codes "inbound"
direction_value outbound = codes "outbound"
direction_value system = codes "system"

-- MessageStatus.value
unfoldable pub status_value : MessageStatus → Text
status_value received = codes "received"
status_value sending = codes "sending"
status_value accepted_by_radio = codes "accepted_by_radio"
status_value acknowledged = codes "acknowledged"
status_value failed = codes "failed"
status_value unknown_delivery = codes "unknown_delivery"

pub record ChatMessage : Type 0 where
  pub local_id : Text
  pub packet_id : Option ℕ
  pub channel_index : ℕ
  pub direction : MessageDirection
  pub sender_num : Option ℕ
  pub sender_id : Option Text
  pub sender_name : Text
  pub text : Text
  pub timestamp : ℕ
  pub status : MessageStatus
  pub snr : Option ℤ
  pub hop_count : Option ℕ
  pub destination_num : Option ℕ
  pub session_id : Text

pub record NetworkSession : Type 0 where
  pub transport : Text
  pub connection_target : Text
  pub id : Text
  pub started_at : ℕ
  pub ended_at : Option ℕ
  pub local_node_num : Option ℕ
  pub local_node_id : Option Text
  pub meshtastic_version : Option Text
  pub firmware_version : Option Text
  pub packet_count : ℕ
