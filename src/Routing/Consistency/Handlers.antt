-- ===== src/Routing/Consistency/Handlers.antt =====
-- The entry points of project3 and the invariant of a router.
pub mod Effects
pub mod Vectors
pub mod Neighbors
pub mod Refreshed
pub mod Reach
