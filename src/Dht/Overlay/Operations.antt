-- ===== src/Dht/Overlay/Operations.antt =====
-- The operations of a node besides its handler keep the invariant, and a new node has it.
use p2pnas.Prelude.{
  ℕ, suc, zero, ◌≡◌, Bool, true, ◌&&◌, List, [], ◌∷◌, Option, none, some, take, All, Bool-cases,
  Option-cases, inl, inr, replicate, arith,
}
use p2pnas.Dht.Ids.{NodeId}
use p2pnas.Dht.Ids.Distance.{IsId}
use p2pnas.Dht.Addr.{SocketAddr, accepts_ip, accepts, is_contactable_port}
use p2pnas.Dht.Table.{Node, k, new, closest}
use p2pnas.Dht.Table.Invariant.{new-IsTable}
use p2pnas.Dht.Sources.Bounds.{default-IsBounded}
use p2pnas.Dht.Overlay.{Text, DhtMsg, NodeRec, World, Config, DhtNode, max_persist_nodes}
use p2pnas.Dht.Overlay.Node.{
  bind, send, node_of, challenge, my_find, same_id, import_node, import_each, import_nodes,
  send_each, find_each, challenge_each, refresh, refresh_targets, bootstrap, bootstrap_target,
}
use p2pnas.Dht.Overlay.Safety.{IsSafe, IsOverlay, IsCandidate, add_node-IsOverlay, send-IsOverlay}
use p2pnas.Dht.Overlay.Invariant.{node_of-IsCandidate, challenge-IsOverlay}

-- An acceptable address is one with an acceptable port too, whichever port was tested first.
accepts_ports :
    (policy_ip port_ok other_ok : Bool)
    → (port_ok && policy_ip) ≡ true
    → other_ok ≡ true
    → (other_ok && policy_ip) ≡ true
accepts_ports policy_ip port_ok other_ok h o = ground arith

module _ (w : World) (c : Config) (V : SocketAddr → Type 0) where
  pub bind-IsOverlay : IsId c.self_id → IsOverlay w c V (bind c)
  unfolding bind new
  bind-IsOverlay id = record {
    table = unfold new in new-IsTable c.self_id id;
    entries = no_entries 160;
    sources = default-IsBounded;
    sent = tt;
  }
    where
      no_entries : (n : ℕ) → All (All (IsSafe w c V)) (replicate n [])
      no_entries zero = tt
      no_entries (suc n) = (tt, no_entries n)

  import_some-IsOverlay :
      (st : DhtNode) (node : Node)
      → IsOverlay w c V st
      → IsId node.id
      → (node.verified ≡ true → V node.udp)
      → IsOverlay w c V (import_node w c st (some node))
  unfolding import_node accepts
  import_some-IsOverlay st node h id v = elim (Bool-cases (same_id node.id c.self_id)) [
    | inl own ↦ rw (own, import_node) h
    | inr other ↦ elim (Bool-cases (accepts c.policy node.udp.ip node.udp.port)) [
      | inr refused ↦ rw (other, refused, import_node) h
      | inl ok_addr ↦ elim (Bool-cases (is_contactable_port node.p2p_port)) [
        | inr privileged ↦ rw (other, ok_addr, privileged, import_node) h
        | inl ok_port ↦
            rw (other, ok_addr, ok_port, import_node)
              (add_node-IsOverlay w c V st node h id (
                accepts_ports (accepts_ip c.policy node.udp.ip) (is_contactable_port node.udp.port)
                    (is_contactable_port node.p2p_port) ok_addr ok_port,
                v,
              ))
      ]
    ]
  ]

  import_node-IsOverlay :
      (st : DhtNode) (o : Option Node)
      → IsOverlay w c V st
      → IsCandidate w c V o
      → IsOverlay w c V (import_node w c st o)
  unfolding import_node
  import_node-IsOverlay st none h p = h
  import_node-IsOverlay st (some node) h (id, v) = import_some-IsOverlay st node h id v

  import_each-IsOverlay :
      (st : DhtNode) (rs : List NodeRec) (now : ℕ)
      → IsOverlay w c V st
      → IsOverlay w c V (import_each w c st rs now)
  unfolding import_each
  import_each-IsOverlay st [] now h = h
  import_each-IsOverlay st (r ∷ rs) now h =
      import_each-IsOverlay (import_node w c st (node_of w c r now)) rs now
        (import_node-IsOverlay st (node_of w c r now) h (node_of-IsCandidate w c V r now))

  -- Reading the clock changes nothing that the invariant is about.
  tick-IsOverlay :
      (st : DhtNode) → IsOverlay w c V st → IsOverlay w c V (record st { reads = suc st.reads })
  tick-IsOverlay st h = record {
    table = h.table;
    entries = h.entries;
    sources = h.sources;
    sent = h.sent;
  }

  pub import_nodes-IsOverlay :
      (st : DhtNode) (recs : List NodeRec)
      → IsOverlay w c V st
      → IsOverlay w c V (import_nodes w c st recs)
  unfolding import_nodes
  import_nodes-IsOverlay st recs h =
      import_each-IsOverlay (record st { reads = suc st.reads }) (take max_persist_nodes recs)
        (w.clock st.reads) (tick-IsOverlay st h)

  send_each-IsOverlay :
      (st : DhtNode) (msg : DhtMsg) (ns : List Node)
      → IsOverlay w c V st
      → IsOverlay w c V (send_each w c st msg ns)
  unfolding send_each
  send_each-IsOverlay st msg [] h = h
  send_each-IsOverlay st msg (n ∷ ns) h =
      send_each-IsOverlay (send w c st msg n.udp).0 msg ns (send-IsOverlay w c V st msg n.udp h)

  find_each-IsOverlay :
      (st : DhtNode) (ts : List NodeId) (near : List Node)
      → IsOverlay w c V st
      → IsOverlay w c V (find_each w c st ts near)
  unfolding find_each
  find_each-IsOverlay st [] near h = h
  find_each-IsOverlay st (t ∷ ts) near h =
      find_each-IsOverlay (send_each w c st (my_find w c t) near) ts near
        (send_each-IsOverlay st (my_find w c t) near h)

  challenge_each-IsOverlay :
      (st : DhtNode) (addrs : List SocketAddr)
      → IsOverlay w c V st
      → IsOverlay w c V (challenge_each w c st addrs)
  unfolding challenge_each
  challenge_each-IsOverlay st [] h = h
  challenge_each-IsOverlay st (addr ∷ addrs) h =
      let st' = record st { reads = suc st.reads } in
      challenge_each-IsOverlay (challenge w c st' addr (w.clock st.reads)) addrs
        (challenge-IsOverlay w c V st' addr (w.clock st.reads) (tick-IsOverlay st h))

  pub refresh-IsOverlay : (st : DhtNode) → IsOverlay w c V st → IsOverlay w c V (refresh w c st)
  unfolding refresh
  refresh-IsOverlay st h =
      let near = closest st.table c.self_id k in
      challenge_each-IsOverlay (find_each w c st (refresh_targets w c) near) _
        (find_each-IsOverlay st (refresh_targets w c) near h)

  pub bootstrap-IsOverlay :
      (st : DhtNode) (addrs : List Text)
      → IsOverlay w c V st
      → IsOverlay w c V (bootstrap w c st addrs)
  unfolding bootstrap
  bootstrap-IsOverlay st [] h = h
  bootstrap-IsOverlay st (a ∷ addrs) h = elim (Option-cases (bootstrap_target w c a)) [
    | inl unknown ↦ rw (unknown, bootstrap) (bootstrap-IsOverlay st addrs h)
    | inr (sa, found) ↦
        rw (found, bootstrap)
          (bootstrap-IsOverlay (send w c st (my_find w c c.self_id) sa).0 addrs
            (send-IsOverlay w c V st (my_find w c c.self_id) sa h))
  ]
