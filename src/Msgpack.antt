-- ===== src/Msgpack.antt =====
-- The package msgpack.
pub mod Tag
pub mod Emit
pub mod Values
pub mod Parse
