-- ===== src/Cbor.antt =====
-- The package cbor.
pub mod Major
pub mod Emit
pub mod State
pub mod Parse
