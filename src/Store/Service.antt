-- ===== src/Store/Service.antt =====
-- store/src/service.rs: the pipeline, the manifest and the store of shards put together.
pub mod Chunks
pub mod Trash
pub mod Retention
pub mod Plan
pub mod Packs
pub mod Tree
pub mod Push
pub mod Pull
pub mod Packing
mod Sample
mod Examples
