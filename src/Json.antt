-- ===== src/Json.antt =====
-- The package json.
pub mod Emit
pub mod Parse
