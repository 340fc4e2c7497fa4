-- ===== src/Pacing.antt =====
-- native/crates/orbitnet-core/src/pacing.rs: how many ticks a physics frame runs, and the lead of the
-- input. A double is the number of its bits.
pub mod Slew
pub mod Lead
mod Tests
