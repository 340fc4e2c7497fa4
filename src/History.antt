-- ===== src/History.antt =====
-- native/crates/orbitnet-core/src/history.rs: the tick-addressed history ring and the planning of
-- resimulation.
pub mod Ring
pub mod Window
pub mod Planner
mod Tests
