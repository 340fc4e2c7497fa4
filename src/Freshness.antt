-- ===== src/Freshness.antt =====
-- native/crates/orbitnet-core/src/freshness.rs: input-novelty freshness and the tick memo.
pub mod Ledger
pub mod Memo
mod Tests
