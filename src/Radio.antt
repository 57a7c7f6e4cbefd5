-- ===== src/Radio.antt =====
-- src/meshchat/analytics: the LoRa band plans and the airtime of a packet.
pub mod Bands
pub mod Plans
pub mod Airtime
