-- ===== src/Auth.antt =====
-- native/crates/orbitnet-core/src/auth.rs: what authenticates a datagram and refuses a repeat of it.
pub mod Window
pub mod Sip
pub mod Keys
pub mod Exchange
pub mod Budget
pub mod Session
mod Tests
