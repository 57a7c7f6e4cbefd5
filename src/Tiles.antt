-- ===== src/Tiles.antt =====
-- src/meshchat/services/orcmaps.py: the tile cache and the tile server.
pub mod Cache
pub mod Pack
pub mod Ppm
pub mod Server
pub mod Handler
