-- ===== src/Routing/Consistency/Refreshes.antt =====
-- `refreshDV` and the tables: its first two loops.
pub mod Ports
pub mod Collect
pub mod Drops
