-- ===== src/Store.antt =====
-- `MonitorStore` of src/meshchat/services/monitor_store.py: the tables, and the thread that writes
-- them.
pub mod Columns
pub mod Tables
pub mod Nodes
pub mod Items
pub mod Writer
pub mod Reads
pub mod Schema
