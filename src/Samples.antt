-- ===== src/Samples.antt =====
-- Concrete readers and writers, and runs of the packages on them.
pub mod Streams
pub mod Buffers
pub mod Packed
pub mod Arrays
pub mod Concise
pub mod Items
pub mod Texts
pub mod Encoders
pub mod Lines
pub mod Decoders
pub mod Values
