-- ===== src/Objutil.antt =====
-- The package objutil.
pub mod Limits
pub mod Int
pub mod Duration
pub mod Tag
