-- ===== src/Dht/Overlay/Reach.antt =====
-- The states that a node reaches, and how an address comes to count as verified.
use p2pnas.Prelude.{
  ℕ, ◌-◌, ◌*◌, ◌≤◌, ◌≡◌, refl, Bool, true, ◌&&◌, List, [], ◌∷◌, Option, none, some, All, All-imp,
  leb→le, ◌⊎◌, arith, inl, inr,
}
use p2pnas.Prelude.Dict.{lookup}
use p2pnas.Dht.Addr.{SocketAddr, socket_discrete}
use p2pnas.Dht.Table.{Node, flatten, all, is_verified_source}
use p2pnas.Dht.Sources.{take_pending, pending_ttl, second, answered_in_time}
use p2pnas.Dht.Ids.Distance.{IsId}
use p2pnas.Dht.Overlay.{Text, DhtMsg, is_answer, NodeRec, World, Config, DhtNode}
use p2pnas.Dht.Overlay.Node.{bind, handle, import_nodes, refresh, bootstrap}
use p2pnas.Dht.Overlay.Safety.{IsSafe, IsOverlay}
use p2pnas.Dht.Overlay.Invariant.{handle-IsOverlay}
use p2pnas.Dht.Overlay.Operations.{
  bind-IsOverlay, import_nodes-IsOverlay, refresh-IsOverlay, bootstrap-IsOverlay,
}
use p2pnas.Dht.Overlay.Proven.{verified_in_buckets, verified_out, flatten-All}

-- One operation of a node, with the messages and texts that it gets.
pub data Step (w : World) (c : Config) : DhtNode → DhtNode → Type 0 where
  handled : (st : DhtNode) (msg : DhtMsg) (src : SocketAddr) → Step w c st (handle w c st msg src)
  imported : (st : DhtNode) (recs : List NodeRec) → Step w c st (import_nodes w c st recs)
  refreshed : (st : DhtNode) → Step w c st (refresh w c st)
  bootstrapped : (st : DhtNode) (addrs : List Text) → Step w c st (bootstrap w c st addrs)

-- The states that operations lead to from the one that `bind` creates.
pub data IsReachable (w : World) (c : Config) : DhtNode → Type 0 where
  bound : IsReachable w c (bind c)
  stepped : (st st' : DhtNode) → IsReachable w c st → Step w c st st' → IsReachable w c st'

-- The step handles an answer from the address to a query that is at most 120 seconds old.
abbrev pub IsAnswered : World → Config → DhtNode → DhtNode → SocketAddr → Type 0
IsAnswered w c st st' addr =
    (msg : DhtMsg) × (st' ≡ handle w c st msg addr)
    × (is_answer msg ≡ true)
    × ((t : ℕ) × (lookup socket_discrete addr st.sources.pending ≡ some t)
        × (w.clock st.reads - t ≤ 120 * second))

abbrev pub Anything : SocketAddr → Type 0
Anything addr = Unit {0}

pub both_true : (x y : Bool) → (x && y) ≡ true → (x ≡ true) × (y ≡ true)
both_true x y e = ground arith

Step-IsOverlay :
    (w : World) (c : Config) (V : SocketAddr → Type 0) {st st' : DhtNode}
    → ((addr : SocketAddr) → IsAnswered w c st st' addr → V addr)
    → IsOverlay w c V st
    → Step w c st st'
    → IsOverlay w c V st'
unfolding take_pending
Step-IsOverlay w c V v h (handled st msg src) =
    handle-IsOverlay w c V st msg src
      (λ e.
        let (answers, taken) =
          both_true (is_answer msg) (take_pending st.sources src (w.clock st.reads)).1 e in
        v src (msg, refl, answers, in_time (lookup socket_discrete src st.sources.pending) taken))
      h
  where
    in_time :
        (o : Option ℕ)
        → answered_in_time o (w.clock st.reads) ≡ true
        → (t : ℕ) × (o ≡ some t) × (w.clock st.reads - t ≤ 120 * second)
    in_time none e = cc
    in_time (some t) e = (t, refl, leb→le (w.clock st.reads - t) pending_ttl e)
Step-IsOverlay w c V v h (imported st recs) = import_nodes-IsOverlay w c V st recs h
Step-IsOverlay w c V v h (refreshed st) = refresh-IsOverlay w c V st h
Step-IsOverlay w c V v h (bootstrapped st addrs) = bootstrap-IsOverlay w c V st addrs h

-- Where the node's own id has twenty bytes: in every state that any sequence of operations reaches,
-- whatever datagrams, snapshots and texts they get, the routing table is well formed, every entry has
-- an address and a port that the policy accepts, the maps of the bookkeeping are within their cap, and
-- every datagram went to an accepted address.
pub reachable-IsOverlay :
    (w : World) (c : Config) (st : DhtNode)
    → IsId c.self_id
    → IsReachable w c st
    → IsOverlay w c Anything st
reachable-IsOverlay w c st id bound = bind-IsOverlay w c Anything id
reachable-IsOverlay w c st id (stepped st0 st' r step) =
    Step-IsOverlay w c Anything (λ addr a. tt) (reachable-IsOverlay w c st0 id r) step

and_verified :
    (w : World) (c : Config) (V : SocketAddr → Type 0) (st : DhtNode)
    → ((addr : SocketAddr) → is_verified_source st.table addr ≡ true → V addr)
    → IsOverlay w c Anything st
    → IsOverlay w c V st
unfolding is_verified_source all
and_verified w c V st v h = record {
  table = h.table;
  entries = merged st.table.buckets h.entries (verified_in_buckets V st.table.buckets v);
  sources = h.sources;
  sent = h.sent;
}
  where
    merged :
        (bs : List (List Node))
        → All (All (IsSafe w c Anything)) bs
        → All (All (λ n. n.verified ≡ true → V n.udp)) bs
        → All (All (IsSafe w c V)) bs
    merged [] h q = tt
    merged (b ∷ bs) (hb, h) (qb, q) = (one b hb qb, merged bs h q)
      where
        one :
            (ns : List Node)
            → All (IsSafe w c Anything) ns
            → All (λ n. n.verified ≡ true → V n.udp) ns
            → All (IsSafe w c V) ns
        one [] h q = tt
        one (n ∷ ns) (p, h) (q, qs) = ((p.0, q), one ns h qs)

-- From a state with the invariant: an address that is verified after an operation was verified before
-- it, or the operation is the handling of an answer from that very address to a query to it that was
-- at most 120 seconds old.
pub proof_of_address :
    (w : World) (c : Config) (st st' : DhtNode) (addr : SocketAddr)
    → IsOverlay w c Anything st
    → Step w c st st'
    → is_verified_source st'.table addr ≡ true
    → (is_verified_source st.table addr ≡ true) ⊎ IsAnswered w c st st' addr
unfolding is_verified_source all
proof_of_address w c st st' addr h step e =
    let V : SocketAddr → Type 0 =
      λ a. (is_verified_source st.table a ≡ true) ⊎ IsAnswered w c st st' a in
    let h' : IsOverlay w c V st' =
      Step-IsOverlay w c V (λ a answered. inr answered) (and_verified w c V st (λ a v. inl v) h)
        step in
    verified_out V (flatten st'.table.buckets) addr
      (All-imp (IsSafe w c V) (λ n. n.verified ≡ true → V n.udp) (flatten st'.table.buckets)
        (λ n p. p.1) (flatten-All (IsSafe w c V) st'.table.buckets h'.entries))
      e
