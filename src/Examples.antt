-- ===== src/Examples.antt =====
-- Each theorem at a concrete input, and what the definitions compute there.
pub mod Ingesting
pub mod Serving
pub mod Measuring
pub mod Storing
pub mod Mapping
