-- ===== src/Store.antt =====
-- The crate `store`: what a node keeps on its disk, and the index of it.
pub mod Errors
pub mod Chunkstore
pub mod Manifest
pub mod Service
