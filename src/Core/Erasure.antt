-- ===== src/Core/Erasure.antt =====
-- core/src/erasure.rs: a sealed chunk is striped into ten data shards, four parity shards are added,
-- and any ten of the fourteen give the chunk back.
pub mod Code
pub mod Shards
pub mod Stripe
pub mod Striping
pub mod Reconstruct
pub mod Copies
mod Examples
