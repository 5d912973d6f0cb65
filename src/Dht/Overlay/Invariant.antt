-- ===== src/Dht/Overlay/Invariant.antt =====
-- The handlers and the other operations of a node keep its invariant.
use mathlib.Core.Option.{get_or}
use mathlib.Core.List.{map}
use p2pnas.Prelude.{
  ℕ, suc, ◌≡◌, refl, Bool, true, ◌&&◌, List, [], ◌∷◌, Option, none, some, take, Bool-cases,
  Option-cases, inl, inr,
}
use p2pnas.Dht.Ids.{NodeId, hex, unhex}
use p2pnas.Dht.Ids.Distance.{IsId}
use p2pnas.Dht.Ids.Hex.{unhex-IsId}
use p2pnas.Dht.Addr.{SocketAddr, accepts_ip}
use p2pnas.Dht.Table.{k, mark_at, mark_verified, is_verified_source, closest}
use p2pnas.Dht.Table.Invariant.{mark_verified-IsTable}
use p2pnas.Dht.Sources.{take_pending, allow_ping}
use p2pnas.Dht.Sources.Bounds.{maps_capped}
use p2pnas.Dht.Overlay.{
  Text, DhtMsg, ping, pong, find_node, nodes, sender, is_answer, NodeRec, World, Config, DhtNode,
  max_nodes_per_msg, k_unverified,
}
use p2pnas.Dht.Overlay.Node.{
  send, learn_some, node_of, absorb, challenge, rec_of, answer_find, answer, prove_source,
  sender_node, handle, my_ping,
}
use p2pnas.Dht.Overlay.Safety.{
  IsSafe, IsOverlay, IsCandidate, map_buckets-All, mark_at-IsSafe, send-IsOverlay,
  learn_some-IsOverlay,
}

module _ (w : World) (c : Config) (V : SocketAddr → Type 0) where
  pub node_of-IsCandidate : (r : NodeRec) (now : ℕ) → IsCandidate w c V (node_of w c r now)
  unfolding node_of
  node_of-IsCandidate r now = elim (Option-cases (unhex r.id)) [
    | inl unread ↦ rw (unread, node_of) tt
    | inr (id, read) ↦ elim (Option-cases (w.parse_ip r.ip)) [
      | inl unparsed ↦ rw (read, unparsed, node_of) tt
      | inr (ip, parsed) ↦ rw (read, parsed, node_of) (unhex-IsId r.id read, λ e. cc)
    ]
  ]

  absorb-IsOverlay :
      (st : DhtNode) (rs : List NodeRec) (now : ℕ)
      → IsOverlay w c V st
      → IsOverlay w c V (absorb w c st rs now)
  unfolding absorb
  absorb-IsOverlay st [] now h = h
  absorb-IsOverlay st (r ∷ rs) now h =
      absorb-IsOverlay (learn_some w c st (node_of w c r now)) rs now
        (learn_some-IsOverlay w c V st (node_of w c r now) h (node_of-IsCandidate r now))

  pub challenge-IsOverlay :
      (st : DhtNode) (to : SocketAddr) (now : ℕ)
      → IsOverlay w c V st
      → IsOverlay w c V (challenge w c st to now)
  unfolding challenge
  challenge-IsOverlay st to now h =
      let (_, _, _, _, capped) = maps_capped st.sources to.ip to now h.sources in
      let st' = record st { sources = (allow_ping st.sources to now).0 } in
      let h' : IsOverlay w c V st' = record {
        table = h.table;
        entries = h.entries;
        sources = capped;
        sent = h.sent;
      } in
      elim (Bool-cases (allow_ping st.sources to now).1) [
        | inl allowed ↦ rw allowed (send-IsOverlay w c V st' (my_ping w c) to h')
        | inr throttled ↦ rw throttled h'
      ]

  answer_find-IsOverlay :
      (st : DhtNode) (target : Text) (src : SocketAddr) (now : ℕ)
      → IsOverlay w c V st
      → IsOverlay w c V (answer_find w c st target src now)
  unfolding answer_find
  answer_find-IsOverlay st target src now h =
      let reply : ℕ → DhtMsg = λ want.
        nodes (hex c.self_id) c.p2p_port
          (map (rec_of w c) (closest st.table (get_or (unhex target) c.self_id) want)) in
      elim (Bool-cases (is_verified_source st.table src)) [
        | inl proven ↦ rw proven (send-IsOverlay w c V st (reply k) src h)
        | inr unproven ↦ rw unproven (
            challenge-IsOverlay (send w c st (reply k_unverified) src).0 src now
              (send-IsOverlay w c V st (reply k_unverified) src h))
      ]

  answer-IsOverlay :
      (st : DhtNode) (msg : DhtMsg) (src : SocketAddr) (now : ℕ)
      → IsOverlay w c V st
      → IsOverlay w c V (answer w c st msg src now)
  unfolding answer
  answer-IsOverlay st (ping from p2p) src now h =
      send-IsOverlay w c V st (pong (hex c.self_id) c.p2p_port) src h
  answer-IsOverlay st (pong from p2p) src now h = h
  answer-IsOverlay st (find_node from p2p target) src now h =
      answer_find-IsOverlay st target src now h
  answer-IsOverlay st (nodes from p2p recs) src now h =
      absorb-IsOverlay st (take max_nodes_per_msg recs) now h

  -- The source is proven only where `V` holds of it, and then its entries may be marked.
  prove_source-IsOverlay :
      (st : DhtNode) (msg : DhtMsg) (src : SocketAddr) (now : ℕ)
      → ((is_answer msg && (take_pending st.sources src now).1) ≡ true → V src)
      → IsOverlay w c V st
      → IsOverlay w c V (prove_source w c st msg src now).0
        × ((prove_source w c st msg src now).1 ≡ true → V src)
  unfolding prove_source mark_verified
  prove_source-IsOverlay st msg src now v h =
      let (_, _, _, taken, _) = maps_capped st.sources src.ip src now h.sources in
      elim (Bool-cases (is_answer msg)) [
        | inr asks ↦ rw asks (h, λ e. cc)
        | inl answers ↦ elim (Bool-cases (take_pending st.sources src now).1) [
          | inr unsolicited ↦
              rw (answers, unsolicited)
                (
                  record { table = h.table; entries = h.entries; sources = taken; sent = h.sent },
                  λ e. cc,
                )
          | inl solicited ↦
              let vsrc : V src = v (rw (answers, solicited) refl) in
              rw (answers, solicited)
                (
                  record {
                    table = mark_verified-IsTable st.table src (w.clock st.reads) h.table;
                    entries =
                        map_buckets-All (IsSafe w c V) (mark_at src (w.clock st.reads))
                          st.table.buckets (mark_at-IsSafe w c V src (w.clock st.reads) vsrc)
                          h.entries;
                    sources = taken;
                    sent = h.sent;
                  },
                  λ _. vsrc,
                )
        ]
      ]

  sender_node-IsCandidate :
      (msg : DhtMsg) (src : SocketAddr) (solicited : Bool) (now : ℕ)
      → (solicited ≡ true → V src)
      → IsCandidate w c V (sender_node w c msg src solicited now (unhex (sender msg).0))
  sender_node-IsCandidate msg src solicited now v =
      go (unhex (sender msg).0) (λ id e. unhex-IsId (sender msg).0 e)
    where
      go :
          (o : Option NodeId)
          → ((id : NodeId) → o ≡ some id → IsId id)
          → IsCandidate w c V (sender_node w c msg src solicited now o)
      go none is_id = tt
      go (some id) is_id = (is_id id refl, v)

  pub handle-IsOverlay :
      (st : DhtNode) (msg : DhtMsg) (src : SocketAddr)
      → ((is_answer msg && (take_pending st.sources src (w.clock st.reads)).1) ≡ true → V src)
      → IsOverlay w c V st
      → IsOverlay w c V (handle w c st msg src)
  unfolding handle
  handle-IsOverlay st msg src v h = elim (Bool-cases (accepts_ip c.policy src.ip)) [
    | inr refused ↦ rw refused h
    | inl accepted ↦
        let now = w.clock st.reads in
        let st' = record st { reads = suc st.reads } in
        let h' : IsOverlay w c V st' = record {
          table = h.table;
          entries = h.entries;
          sources = h.sources;
          sent = h.sent;
        } in
        let (hp, vp) = prove_source-IsOverlay st' msg src now v h' in
        let proven = prove_source w c st' msg src now in
        let o = sender_node w c msg src proven.1 now (unhex (sender msg).0) in
        rw accepted (
          answer-IsOverlay (learn_some w c proven.0 o) msg src now (
            learn_some-IsOverlay w c V proven.0 o hp
              (sender_node-IsCandidate msg src proven.1 now vp)))
  ]
