-- ===== src/Ingest.antt =====
-- src/meshchat/services/packet_ingestor.py: the packet ingestion pipeline.
pub mod Raw
pub mod Dedup
pub mod Normalize
pub mod Keys
pub mod Nodes
pub mod Samples
pub mod Pipeline
