-- ===== src/Core.antt =====
-- The crate `core`: what a file goes through between its owner and the shards.
pub mod Bytes
pub mod Errors
pub mod Crypto
pub mod Erasure
pub mod Chunker
pub mod Pipeline
