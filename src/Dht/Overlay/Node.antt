-- ===== src/Dht/Overlay/Node.antt =====
-- p2p/src/dht.rs: the methods of `DhtNode`.
use Prim.Native.Nat.{bit_xor}
use mathlib.Core.Option.{get_or}
use mathlib.Core.List.{map}
use p2pnas.Prelude.{
  ℕ, suc, ◌/◌, ◌%◌, ◌^◌, Bool, true, false, not, ◌&&◌, ◌||◌, List, [], ◌∷◌, Option, none, some,
  take, set, get_elem?, if◌then◌else◌,
}
use p2pnas.Core.Bytes.{Bytes}
use p2pnas.Dht.Ids.{NodeId, hex, unhex}
use p2pnas.Dht.Addr.{IpAddr, SocketAddr, accepts_ip, accepts, is_contactable_port}
use p2pnas.Dht.Table.{
  Node, k, new, id_discrete, contains, add, mark_verified, is_verified_source, all, closest,
}
use p2pnas.Dht.Sources.{default, allow_learn, note_query, take_pending, allow_ping}
use p2pnas.Dht.Overlay.{
  Text, k_unverified, max_nodes_per_msg, verify_batch, max_persist_nodes, NodeRec, DhtMsg, ping,
  pong, find_node, nodes, sender, is_answer, World, Config, DhtNode,
}

abbrev pub same_id : NodeId → NodeId → Bool
same_id a b = elim (id_discrete a b) [ yes _ ↦ true | no _ ↦ false ]

abbrev pub filter : (Node → Bool) → List Node → List Node
filter test [] = []
filter test (n ∷ ns) = let rest = filter test ns in if test n then n ∷ rest else rest

-- The state that `bind_with_policy` creates.
unfoldable pub bind : Config → DhtNode
bind c = record { table = new c.self_id; sources = default; reads = 0; sends = 0; sent = [] }

module _ (w : World) (c : Config) where
  abbrev pub my_find : NodeId → DhtMsg
  my_find target = find_node (hex c.self_id) c.p2p_port (hex target)

  abbrev pub my_ping : DhtMsg
  my_ping = ping (hex c.self_id) c.p2p_port

  -- A query is remembered.
  unfoldable pub remember : DhtNode → DhtMsg → SocketAddr → DhtNode
  remember st msg to =
      if is_answer msg
      then st
      else record st { sources = note_query st.sources to (w.clock st.reads); reads = suc st.reads }

  abbrev pub hand_over : DhtNode → DhtMsg → SocketAddr → DhtNode
  hand_over st msg to = record st { sends = suc st.sends; sent = (to, msg) ∷ st.sent }

  unfoldable pub send : DhtNode → DhtMsg → SocketAddr → DhtNode × Bool
  send st msg to =
      if accepts_ip c.policy to.ip
      then elim (w.to_vec msg) [
        | none ↦ (st, false)
        | some bytes ↦ (hand_over (remember st msg to) msg to, w.delivers st.sends)
      ]
      else (st, false)

  unfoldable pub add_node : DhtNode → Node → DhtNode × Bool
  add_node st node =
      let (table, gained) = add st.table node in (record st { table = table }, gained)

  -- A node that is not known yet is charged to the budget of its source.
  unfoldable pub learn_charged : DhtNode → Node → DhtNode × Bool
  learn_charged st node =
      if contains st.table node.id
      then add_node st node
      else (let (sources, allowed) = allow_learn st.sources node.udp.ip node.last_seen in
          let st' = record st { sources = sources } in
          if allowed then add_node st' node else (st', false))

  unfoldable pub learn : DhtNode → Node → DhtNode × Bool
  learn st node =
      if same_id node.id c.self_id || not (accepts c.policy node.udp.ip node.p2p_port)
      then (st, false)
      else learn_charged st node

  -- An unverified node from a record: `None` where a text does not parse.
  unfoldable pub node_of : NodeRec → ℕ → Option Node
  node_of r now = elim (unhex r.id) [
    | none ↦ none
    | some id ↦ elim (w.parse_ip r.ip) [
      | none ↦ none
      | some ip ↦ some (record {
        id = id;
        udp = record { ip = ip; port = r.udp_port };
        p2p_port = r.p2p_port;
        verified = false;
        last_seen = now;
      })
    ]
  ]

  abbrev pub learn_some : DhtNode → Option Node → DhtNode
  learn_some st none = st
  learn_some st (some node) = (learn st node).0

  unfoldable pub absorb : DhtNode → List NodeRec → ℕ → DhtNode
  absorb st [] now = st
  absorb st (r ∷ rs) now = absorb (learn_some st (node_of r now)) rs now

  abbrev pub rec_of : Node → NodeRec
  rec_of n = record {
    id = hex n.id;
    ip = w.show_ip n.udp.ip;
    udp_port = n.udp.port;
    p2p_port = n.p2p_port;
  }

  -- The challenge of a questioner that is not verified.
  unfoldable pub challenge : DhtNode → SocketAddr → ℕ → DhtNode
  challenge st to now =
      let (sources, allowed) = allow_ping st.sources to now in
      let st' = record st { sources = sources } in if allowed then (send st' my_ping to).0 else st'

  unfoldable pub answer_find : DhtNode → Text → SocketAddr → ℕ → DhtNode
  answer_find st target src now =
      let verified_src = is_verified_source st.table src in
      let want = if verified_src then k else k_unverified in
      let found = closest st.table (get_or (unhex target) c.self_id) want in
      let st' = (send st (nodes (hex c.self_id) c.p2p_port (map rec_of found)) src).0 in
      if verified_src then st' else challenge st' src now

  unfoldable pub answer : DhtNode → DhtMsg → SocketAddr → ℕ → DhtNode
  answer st (ping from p2p) src now = (send st (pong (hex c.self_id) c.p2p_port) src).0
  answer st (find_node from p2p target) src now = answer_find st target src now
  answer st (nodes from p2p recs) src now = absorb st (take max_nodes_per_msg recs) now
  answer st (pong from p2p) src now = st

  -- Whether the message answers a question of ours; if it does, its source is verified.
  unfoldable pub prove_source : DhtNode → DhtMsg → SocketAddr → ℕ → DhtNode × Bool
  prove_source st msg src now =
      if is_answer msg
      then (let (sources, solicited) = take_pending st.sources src now in
          let st' = record st { sources = sources } in
          if solicited
          then (
            record st' {
              table = mark_verified st.table src (w.clock st.reads);
              reads = suc st.reads;
            },
            true,
          )
          else (st', false))
      else (st, false)

  abbrev pub sender_node : DhtMsg → SocketAddr → Bool → ℕ → Option NodeId → Option Node
  sender_node msg src solicited now none = none
  sender_node msg src solicited now (some id) = some (record {
    id = id;
    udp = src;
    p2p_port = (sender msg).1;
    verified = solicited;
    last_seen = now;
  })

  unfoldable pub handle : DhtNode → DhtMsg → SocketAddr → DhtNode
  handle st msg src =
      if accepts_ip c.policy src.ip
      then (let now = w.clock st.reads in
          let proven = prove_source (record st { reads = suc st.reads }) msg src now in
          let learned =
            learn_some proven.0 (sender_node msg src proven.1 now (unhex (sender msg).0)) in
          answer learned msg src now)
      else st

  -- One turn of `run` with a datagram.
  unfoldable pub receive : DhtNode → Bytes → SocketAddr → DhtNode
  receive st bytes src = elim (w.from_slice bytes) [ none ↦ st | some msg ↦ handle st msg src ]

  -- `import_nodes`: an entry is added without a charge, after the tests on it.
  unfoldable pub import_node : DhtNode → Option Node → DhtNode
  import_node st none = st
  import_node st (some node) =
      if same_id node.id c.self_id
        || (not (accepts c.policy node.udp.ip node.udp.port)
            || not (is_contactable_port node.p2p_port))
      then st
      else (add_node st node).0

  unfoldable pub import_each : DhtNode → List NodeRec → ℕ → DhtNode
  import_each st [] now = st
  import_each st (r ∷ rs) now = import_each (import_node st (node_of r now)) rs now

  unfoldable pub import_nodes : DhtNode → List NodeRec → DhtNode
  import_nodes st recs =
      import_each (record st { reads = suc st.reads }) (take max_persist_nodes recs)
        (w.clock st.reads)

  unfoldable pub export_nodes : DhtNode → List NodeRec
  export_nodes st = map rec_of (
      take max_persist_nodes
        (filter (λ n. n.verified && accepts c.policy n.udp.ip n.p2p_port) (all st.table)))

  -- The address and port that `collect_addrs` writes as `ip:port`.
  unfoldable pub collect_addrs : DhtNode → Bool → List (IpAddr × ℕ)
  collect_addrs st verified_only =
      map (λ (n : Node). (n.udp.ip, n.p2p_port))
        (filter (λ n. accepts c.policy n.udp.ip n.p2p_port)
          (filter (λ n. not verified_only || n.verified) (all st.table)))

  unfoldable pub send_each : DhtNode → DhtMsg → List Node → DhtNode
  send_each st msg [] = st
  send_each st msg (n ∷ ns) = send_each (send st msg n.udp).0 msg ns

  unfoldable pub find_each : DhtNode → List NodeId → List Node → DhtNode
  find_each st [] near = st
  find_each st (t ∷ ts) near = find_each (send_each st (my_find t) near) ts near

  unfoldable pub challenge_each : DhtNode → List SocketAddr → DhtNode
  challenge_each st [] = st
  challenge_each st (addr ∷ addrs) =
      challenge_each (challenge (record st { reads = suc st.reads }) addr (w.clock st.reads)) addrs

  -- `self_id` with the bit flipped.
  abbrev pub perturbed : ℕ → NodeId
  perturbed bit =
      set c.self_id (bit / 8)
        (bit_xor (get_or (get_elem? c.self_id (bit / 8)) 0) (0x80 / 2 ^ (bit % 8)))

  unfoldable pub refresh_targets : List NodeId
  refresh_targets = c.self_id ∷ perturbed 0 ∷ perturbed 1 ∷ perturbed 2 ∷ perturbed 4 ∷ []

  unfoldable pub refresh : DhtNode → DhtNode
  refresh st =
      let near = closest st.table c.self_id k in
      let unverified =
        take verify_batch (map Node.udp (filter (λ n. not n.verified) (all st.table))) in
      challenge_each (find_each st refresh_targets near) unverified

  abbrev pub bootstrap_target : Text → Option SocketAddr
  bootstrap_target a = elim (w.parse_socket a) [ some sa ↦ some sa | none ↦ w.lookup_host a ]

  unfoldable pub bootstrap : DhtNode → List Text → DhtNode
  bootstrap st [] = st
  bootstrap st (a ∷ addrs) =
      bootstrap
        (elim (bootstrap_target a) [ none ↦ st | some sa ↦ (send st (my_find c.self_id) sa).0 ])
        addrs
