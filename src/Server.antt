-- ===== src/Server.antt =====
-- The crate `server`: the decisions that it makes for the store.
pub mod Placement
