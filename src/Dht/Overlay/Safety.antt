-- ===== src/Dht/Overlay/Safety.antt =====
-- The invariant of a running node, for any property of the addresses that count as verified.
use mathlib.Core.Path.{subst}
use p2pnas.Prelude.{
  ℕ, zero, suc, ◌≡◌, sym, true, List, [], ◌∷◌, Option, none, some, All, All-set, Bool-cases,
  Option-cases, Dec-cases, inl, inr,
}
use p2pnas.Dht.Ids.{xor, bucket_index}
use p2pnas.Dht.Ids.Distance.{IsId}
use p2pnas.Dht.Addr.{SocketAddr, socket_discrete, accepts_ip, accepts}
use p2pnas.Dht.Table.{
  Node, RoutingTable, refresh, contains, bucket_at, add_to_bucket, add, mark_at, map_nodes,
  map_buckets,
}
use p2pnas.Dht.Table.Bucket.{add_to_bucket_cases}
use p2pnas.Dht.Table.Invariant.{IsTable, Added-All, add-IsTable}
use p2pnas.Dht.Sources.{allow_learn}
use p2pnas.Dht.Sources.Bounds.{IsBounded, maps_capped}
use p2pnas.Dht.Overlay.{DhtMsg, is_answer, World, Config, DhtNode}
use p2pnas.Dht.Overlay.Node.{remember, send, add_node, learn_charged, learn, learn_some, same_id}

-- A property of the entries of a table.
abbrev pub Entries : (Node → Type 0) → RoutingTable → Type 0
Entries P t = All (All P) t.buckets

bucket_at-All :
    (P : Node → Type 0) (bs : List (List Node)) (i : ℕ) → All (All P) bs → All P (bucket_at bs i)
bucket_at-All P [] i h = tt
bucket_at-All P (b ∷ bs) zero (hb, h) = hb
bucket_at-All P (b ∷ bs) (suc i) (hb, h) = bucket_at-All P bs i h

Entries-add :
    (P : Node → Type 0) (t : RoutingTable) (node : Node)
    → ((e : Node) → P e → P (refresh e node))
    → P node
    → Entries P t
    → Entries P (add t node).0
unfolding add
Entries-add P t node keep p h = elim (Option-cases (bucket_index (xor t.self_id node.id))) [
  | inl own ↦ rw (own, add) h
  | inr (idx, found) ↦
      let b = bucket_at t.buckets idx in
      rw (found, add)
        (All-set (All P) t.buckets idx (add_to_bucket b node).0 h (
          Added-All P b node (add_to_bucket_cases b node) (λ e same. keep e) p
            (bucket_at-All P t.buckets idx h)))
]

map_nodes-All :
    (P : Node → Type 0) (f : Node → Node) (b : List Node)
    → ((n : Node) → P n → P (f n))
    → All P b
    → All P (map_nodes f b)
map_nodes-All P f [] keep h = tt
map_nodes-All P f (n ∷ b) keep (p, h) = (keep n p, map_nodes-All P f b keep h)

pub map_buckets-All :
    (P : Node → Type 0) (f : Node → Node) (bs : List (List Node))
    → ((n : Node) → P n → P (f n))
    → All (All P) bs
    → All (All P) (map_buckets f bs)
map_buckets-All P f [] keep h = tt
map_buckets-All P f (b ∷ bs) keep (p, h) =
    (map_nodes-All P f b keep p, map_buckets-All P f bs keep h)

module _ (w : World) (c : Config) (V : SocketAddr → Type 0) where
  -- An entry may be contacted, and if it is verified its address is one of `V`.
  abbrev pub IsSafe : Node → Type 0
  IsSafe n = (accepts c.policy n.udp.ip n.p2p_port ≡ true) × (n.verified ≡ true → V n.udp)

  abbrev pub IsAllowed : SocketAddr × DhtMsg → Type 0
  IsAllowed datagram = accepts_ip c.policy datagram.0.ip ≡ true

  pub record IsOverlay (st : DhtNode) : Type 0 where
    pub table : IsTable st.table
    pub entries : Entries IsSafe st.table
    pub sources : IsBounded st.sources
    pub sent : All IsAllowed st.sent

  refresh-IsSafe : (e node : Node) → IsSafe node → IsSafe e → IsSafe (refresh e node)
  unfolding refresh
  refresh-IsSafe e node p q = elim (Bool-cases node.verified) [
    | inl proven ↦ rw proven (p.0, λ _. p.1 proven)
    | inr unproven ↦ rw unproven q
  ]

  pub mark_at-IsSafe :
      (addr : SocketAddr) (now : ℕ) → V addr → (n : Node) → IsSafe n → IsSafe (mark_at addr now n)
  mark_at-IsSafe addr now v n p = elim (Dec-cases (socket_discrete n.udp addr)) [
    | inl (same, d) ↦ rw (d, mark_at) (p.0, λ _. subst V (sym same) v)
    | inr (other, d) ↦ rw (d, mark_at) p
  ]

  pub add_node-IsOverlay :
      (st : DhtNode) (node : Node)
      → IsOverlay st
      → IsId node.id
      → IsSafe node
      → IsOverlay (add_node w c st node).0
  unfolding add_node
  add_node-IsOverlay st node h id p = record {
    table = add-IsTable st.table node h.table id;
    entries = Entries-add IsSafe st.table node (λ e q. refresh-IsSafe e node p q) p h.entries;
    sources = h.sources;
    sent = h.sent;
  }

  pub send-IsOverlay :
      (st : DhtNode) (msg : DhtMsg) (to : SocketAddr)
      → IsOverlay st
      → IsOverlay (send w c st msg to).0
  unfolding send remember
  send-IsOverlay st msg to h = elim (Bool-cases (accepts_ip c.policy to.ip)) [
    | inr refused ↦ rw refused h
    | inl allowed ↦ elim (Option-cases (w.to_vec msg)) [
      | inl no_bytes ↦ rw (allowed, no_bytes) h
      | inr (bytes, encoded) ↦ elim (Bool-cases (is_answer msg)) [
        | inl answers ↦
            rw (allowed, encoded, answers)
              (record {
                table = h.table;
                entries = h.entries;
                sources = h.sources;
                sent = (allowed, h.sent);
              })
        | inr asks ↦
            let (_, _, noted, _, _) =
              maps_capped st.sources to.ip to (w.clock st.reads) h.sources in
            rw (allowed, encoded, asks)
              (record {
                table = h.table;
                entries = h.entries;
                sources = noted;
                sent = (allowed, h.sent);
              })
      ]
    ]
  ]

  learn_charged-IsOverlay :
      (st : DhtNode) (node : Node)
      → IsOverlay st
      → IsId node.id
      → IsSafe node
      → IsOverlay (learn_charged w c st node).0
  unfolding learn_charged
  learn_charged-IsOverlay st node h id p = elim (Bool-cases (contains st.table node.id)) [
    | inl known ↦ rw known (add_node-IsOverlay st node h id p)
    | inr unknown ↦
        let (_, charged, _, _, _) =
          maps_capped st.sources node.udp.ip node.udp node.last_seen h.sources in
        let st' = record st { sources = (allow_learn st.sources node.udp.ip node.last_seen).0 } in
        let h' : IsOverlay st' = record {
          table = h.table;
          entries = h.entries;
          sources = charged;
          sent = h.sent;
        } in
        elim (Bool-cases (allow_learn st.sources node.udp.ip node.last_seen).1) [
          | inl allowed ↦ rw (unknown, allowed) (add_node-IsOverlay st' node h' id p)
          | inr spent ↦ rw (unknown, spent) h'
        ]
  ]

  -- What an entry must satisfy apart from the tests of `learn`.
  abbrev pub IsCandidate : Option Node → Type 0
  IsCandidate none = Unit {0}
  IsCandidate (some node) = IsId node.id × (node.verified ≡ true → V node.udp)

  learn-IsOverlay :
      (st : DhtNode) (node : Node)
      → IsOverlay st
      → IsId node.id
      → (node.verified ≡ true → V node.udp)
      → IsOverlay (learn w c st node).0
  unfolding learn
  learn-IsOverlay st node h id v = elim (Bool-cases (same_id node.id c.self_id)) [
    | inl own ↦ rw (own, learn) h
    | inr other ↦ elim (Bool-cases (accepts c.policy node.udp.ip node.p2p_port)) [
      | inl ok_addr ↦ rw (other, ok_addr, learn) (learn_charged-IsOverlay st node h id (ok_addr, v))
      | inr refused ↦ rw (other, refused, learn) h
    ]
  ]

  pub learn_some-IsOverlay :
      (st : DhtNode) (o : Option Node)
      → IsOverlay st
      → IsCandidate o
      → IsOverlay (learn_some w c st o)
  learn_some-IsOverlay st none h p = h
  learn_some-IsOverlay st (some node) h (id, v) = learn-IsOverlay st node h id v
