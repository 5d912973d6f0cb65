-- ===== src/Dht.antt =====
-- p2p/src/dht.rs: the Kademlia overlay that finds peers. `Ids` has the identifiers and distances,
-- `Addr` the address policy, `Table` the routing table, `Sources` the bookkeeping per source, and
-- `Overlay` the handlers that join them.
pub mod Ids
pub mod Addr
pub mod Table
pub mod Sources
pub mod Overlay
mod Examples
