-- ===== src/Go.antt =====
-- What the packages use of Go and of its standard library.
pub mod Outcome
pub mod Slice
pub mod Io
pub mod Float
pub mod Time
pub mod Strconv
pub mod Unicode
pub mod Base64
