-- ===== src/Tests.antt =====
-- The theorems at concrete inputs.
pub mod Fixtures
pub mod Sequences
pub mod Packing
pub mod Search
pub mod Workers
pub mod Transforms
pub mod Streams
pub mod Delayed
pub mod BigInt
pub mod Secondary
