-- ===== src/Http.antt =====
-- The HTTP client of nauti-fabric/src/plan.rs, with which a node asks the head for a plan.
pub mod Utf8
pub mod Text
pub mod Lines
pub mod Bytes
pub mod Url
pub mod Response
pub mod Ask
pub mod Slices
pub mod Sizes
pub mod Chunks
pub mod Reading
pub mod Encoded
pub mod Named
pub mod Request
pub mod Promises
