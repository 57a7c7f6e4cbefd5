-- ===== src/Model/Packet.antt =====
-- `NetworkPacket` of src/meshchat/models/network_packet.py. Times are microseconds since the epoch;
-- a float reading (SNR) is an integer count of a fixed fraction, which nothing here computes with.
use orc_mesh.Prelude.{ℕ, Bool, true, false, Option, none, some, ◌&&◌, ltb, ◌==◌, not}
use orc_mesh.Prelude.Int.{ℤ}
use orc_mesh.Prelude.Text.{Text}

-- what `raw_metadata_json` holds where it is not None: the packet's id, its destination and its
-- channel
pub record SafeMeta : Type 0 where
  pub id : Option ℕ
  pub to : Option ℕ
  pub channel : Option ℕ

pub record NetworkPacket : Type 0 where
  pub session_id : Text
  pub observed_at : ℕ
  pub rx_time : Option ℕ
  pub sender_num : Option ℕ
  pub sender_id : Option Text
  pub destination_num : Option ℕ
  pub packet_id : Option ℕ
  pub channel_index : ℕ
  pub portnum : Option ℤ
  pub portnum_name : Text
  pub text : Option Text
  pub payload_size : Option ℕ
  pub rx_snr : Option ℤ
  pub rx_rssi : Option ℤ
  pub hop_start : Option ℕ
  pub hop_limit : Option ℕ
  pub hops_used : Option ℕ
  pub via_mqtt : Option Bool
  pub transport_mechanism : Option Text
  pub pki_encrypted : Option Bool
  pub want_ack : Option Bool
  pub priority : Option Text
  pub raw_metadata : Option SafeMeta

abbrev pub is_zero : Option ℕ → Bool
is_zero none = false
is_zero (some n) = n == 0

abbrev pub is_positive : Option ℕ → Bool
is_positive none = false
is_positive (some n) = ltb 0 n

abbrev pub is_true : Option Bool → Bool
is_true (some true) = true
is_true (some false) = false
is_true none = false

-- is_direct_rf of analytics/hop_metrics.py: a confirmed zero-hop RF packet
unfoldable pub is_direct_rf : Option ℕ → Option ℕ → Option Bool → Bool
is_direct_rf hops_used hop_start via_mqtt =
    is_zero hops_used && (is_positive hop_start && not (is_true via_mqtt))

-- NetworkPacket.is_direct_rf
unfoldable pub packet_is_direct : NetworkPacket → Bool
packet_is_direct pkt =
    is_zero pkt.hops_used && (is_positive pkt.hop_start && not (is_true pkt.via_mqtt))
