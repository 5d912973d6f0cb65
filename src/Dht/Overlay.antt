-- ===== src/Dht/Overlay.antt =====
-- p2p/src/dht.rs: `DhtNode`, the messages and the handlers. An operation runs as a whole, under the
-- locks it takes; what the world outside decides is the record `World`.
pub mod Node
pub mod Safety
pub mod Invariant
pub mod Operations
pub mod Proven
pub mod Reach
pub mod Replies
mod Examples
use p2pnas.Prelude.{ℕ, Bool, true, false, List, Option}
use p2pnas.Core.Bytes.{Bytes}
use p2pnas.Dht.Ids.{NodeId}
use p2pnas.Dht.Addr.{IpAddr, SocketAddr, AddrPolicy}
use p2pnas.Dht.Table.{RoutingTable}
use p2pnas.Dht.Sources.{SourceState}

-- A text as its characters.
abbrev pub Text : Type 0
Text = List ℕ

abbrev pub k_unverified : ℕ
k_unverified = 2

abbrev pub max_nodes_per_msg : ℕ
max_nodes_per_msg = 8

abbrev pub verify_batch : ℕ
verify_batch = 8

abbrev pub max_persist_nodes : ℕ
max_persist_nodes = 512

-- `NodeRec`, and `PersistNode` with the same fields.
pub record NodeRec : Type 0 where
  pub id : Text
  pub ip : Text
  pub udp_port : ℕ
  pub p2p_port : ℕ

-- `from` and `p2p` come first in each message.
pub data DhtMsg : Type 0 where
  ping : Text → ℕ → DhtMsg
  pong : Text → ℕ → DhtMsg
  find_node : Text → ℕ → Text → DhtMsg
  nodes : Text → ℕ → List NodeRec → DhtMsg

abbrev pub sender : DhtMsg → Text × ℕ
sender (ping from p2p) = (from, p2p)
sender (pong from p2p) = (from, p2p)
sender (find_node from p2p target) = (from, p2p)
sender (nodes from p2p recs) = (from, p2p)

unfoldable pub is_answer : DhtMsg → Bool
is_answer (ping from p2p) = false
is_answer (pong from p2p) = true
is_answer (find_node from p2p target) = false
is_answer (nodes from p2p recs) = true

-- The clock and the socket by the number of their use, the encoding of messages, the resolver, and
-- the texts of addresses.
pub record World : Type 0 where
  pub clock : ℕ → ℕ
  pub delivers : ℕ → Bool
  pub to_vec : DhtMsg → Option Bytes
  pub from_slice : Bytes → Option DhtMsg
  pub lookup_host : Text → Option SocketAddr
  pub parse_ip : Text → Option IpAddr
  pub parse_socket : Text → Option SocketAddr
  pub show_ip : IpAddr → Text

-- The fields of `DhtNode` that never change.
pub record Config : Type 0 where
  pub self_id : NodeId
  pub p2p_port : ℕ
  pub policy : AddrPolicy

-- The fields behind locks, how often clock and socket were used, and the datagrams that were handed
-- to the socket, the latest first.
pub record DhtNode : Type 0 where
  pub table : RoutingTable
  pub sources : SourceState
  pub reads : ℕ
  pub sends : ℕ
  pub sent : List (SocketAddr × DhtMsg)
