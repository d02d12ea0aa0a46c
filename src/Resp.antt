-- ===== src/Resp.antt =====
-- The package resp.
pub mod Line
pub mod Emit
pub mod Parse
