-- ===== src/Wire.antt =====
-- native/crates/orbitnet-core/src/codec.rs: the bytes of every frame.
pub mod Bytes
pub mod Frame
pub mod Join
pub mod Manifest
pub mod Mask
pub mod Block
mod Tests
