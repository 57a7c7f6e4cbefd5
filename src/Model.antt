-- ===== src/Model.antt =====
-- src/meshchat/models: the records that the services exchange.
pub mod Packet
pub mod Node
pub mod Samples
pub mod Message
