-- ===== src/Routing.antt =====
-- project3: the distance vector routing protocol of a simulated router.
pub mod Map
pub mod State
pub mod Sweep
pub mod PingPong
pub mod Vector
pub mod Refresh
pub mod Within
pub mod Protocol
pub mod Starting
pub mod Consistency
mod Tests
