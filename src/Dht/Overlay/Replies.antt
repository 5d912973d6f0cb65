-- ===== src/Dht/Overlay/Replies.antt =====
-- What a node sends when it handles a datagram, and what it hands to the transport.
use mathlib.Core.Option.{get_or}
use mathlib.Core.Path.{subst}
use mathlib.Core.List.{map}
use p2pnas.Prelude.{
  ℕ, suc, ◌≤◌, ◌≡◌, refl, sym, ap, ◌∙◌, List, [], ◌∷◌, ◌++◌, Option, none, some, take, length, All,
  arith, length-take, length-map, length-append, append_assoc, All-append, Bool-cases, Option-cases,
  inl, inr, if◌then◌else◌,
}
use p2pnas.Dht.Ids.{hex, unhex}
use p2pnas.Dht.Addr.{SocketAddr, accepts_ip}
use p2pnas.Dht.Table.{Node, RoutingTable, k, closest, all, is_verified_source, sort_by_distance}
use p2pnas.Dht.Sources.{allow_ping}
use p2pnas.Dht.Overlay.{
  Text, DhtMsg, ping, pong, find_node, nodes, is_answer, NodeRec, World, Config, DhtNode,
  k_unverified, max_nodes_per_msg, sender,
}
use p2pnas.Dht.Overlay.Node.{
  send, remember, add_node, learn_charged, learn, learn_some, node_of, absorb, rec_of, challenge,
  answer_find, answer, prove_source, sender_node, handle, my_ping,
}

-- The number of records that a source may get.
abbrev pub allowance : RoutingTable → SocketAddr → ℕ
allowance t src = if is_verified_source t src then 8 else 2

abbrev pub IsSmall : ℕ → DhtMsg → Type 0
IsSmall n (ping from p2p) = Unit {0}
IsSmall n (pong from p2p) = Unit {0}
IsSmall n (find_node from p2p target) = ⊥
IsSmall n (nodes from p2p recs) = length recs ≤ n

-- What was sent between two states: at most `count` datagrams, all of them to `src`, none with more
-- records than it may get.
pub record IsReply (src : SocketAddr) (count : ℕ) (n : ℕ) (st st' : DhtNode) : Type 0 where
  pub new : List (SocketAddr × DhtMsg)
  pub sent : st'.sent ≡ new ++ st.sent
  pub few : length new ≤ count
  pub each : All (λ (d : SocketAddr × DhtMsg). (d.0 ≡ src) × IsSmall n d.1) new

module _ (w : World) (c : Config) where
  table-send :
      (st : DhtNode) (msg : DhtMsg) (to : SocketAddr) → (send w c st msg to).0.table ≡ st.table
  unfolding send remember
  table-send st msg to = elim (Bool-cases (accepts_ip c.policy to.ip)) [
    | inr refused ↦ rw refused refl
    | inl allowed ↦ elim (Option-cases (w.to_vec msg)) [
      | inl no_bytes ↦ rw (allowed, no_bytes) refl
      | inr (bytes, encoded) ↦ elim (Bool-cases (is_answer msg)) [
        | inl answers ↦ rw (allowed, encoded, answers) refl
        | inr asks ↦ rw (allowed, encoded, asks) refl
      ]
    ]
  ]

  send-IsReply :
      (st : DhtNode) (msg : DhtMsg) (to : SocketAddr) (n : ℕ)
      → IsSmall n msg
      → IsReply to 1 n st (send w c st msg to).0
  unfolding send remember
  send-IsReply st msg to n small =
      let nothing : IsReply to 1 n st st = record {
        new = [];
        sent = refl;
        few = omega arith;
        each = tt;
      } in
      elim (Bool-cases (accepts_ip c.policy to.ip)) [
        | inr refused ↦ rw refused nothing
        | inl allowed ↦ elim (Option-cases (w.to_vec msg)) [
          | inl no_bytes ↦ rw (allowed, no_bytes) nothing
          | inr (bytes, encoded) ↦ elim (Bool-cases (is_answer msg)) [
            | inl answers ↦
                rw (allowed, encoded, answers)
                  (record {
                    new = (to, msg) ∷ [];
                    sent = refl;
                    few = omega arith;
                    each = ((refl, small), tt);
                  })
            | inr asks ↦
                rw (allowed, encoded, asks)
                  (record {
                    new = (to, msg) ∷ [];
                    sent = refl;
                    few = omega arith;
                    each = ((refl, small), tt);
                  })
          ]
        ]
      ]

  table-challenge :
      (st : DhtNode) (to : SocketAddr) (now : ℕ) → (challenge w c st to now).table ≡ st.table
  unfolding challenge
  table-challenge st to now =
      let st' = record st { sources = (allow_ping st.sources to now).0 } in
      elim (Bool-cases (allow_ping st.sources to now).1) [
        | inl allowed ↦ rw allowed (table-send st' (my_ping w c) to)
        | inr throttled ↦ rw throttled refl
      ]

  challenge-IsReply :
      (st : DhtNode) (to : SocketAddr) (now n : ℕ) → IsReply to 1 n st (challenge w c st to now)
  unfolding challenge
  challenge-IsReply st to now n =
      let st' = record st { sources = (allow_ping st.sources to now).0 } in
      elim (Bool-cases (allow_ping st.sources to now).1) [
        | inl allowed ↦
            let r = send-IsReply st' (my_ping w c) to n tt in
            rw allowed (record { new = r.new; sent = r.sent; few = r.few; each = r.each })
        | inr throttled ↦
            rw throttled (record { new = []; sent = refl; few = omega arith; each = tt })
      ]

  -- The tables before and after an answer to a search are the same.
  table-answer_find :
      (st : DhtNode) (target : Text) (src : SocketAddr) (now : ℕ)
      → (answer_find w c st target src now).table ≡ st.table
  unfolding answer_find
  table-answer_find st target src now =
      let reply : ℕ → DhtMsg = λ want.
        nodes (hex c.self_id) c.p2p_port
          (map (rec_of w c) (closest st.table (get_or (unhex target) c.self_id) want)) in
      elim (Bool-cases (is_verified_source st.table src)) [
        | inl proven ↦ rw proven (table-send st (reply k) src)
        | inr unproven ↦ rw unproven (
            table-challenge (send w c st (reply k_unverified) src).0 src now
            ∙ table-send st (reply k_unverified) src)
      ]

  small_reply :
      (t : RoutingTable) (target : List ℕ) (want : ℕ)
      → length (map (rec_of w c) (closest t target want)) ≤ want
  unfolding closest
  small_reply t target want =
      let sorted = sort_by_distance target (all t) in
      omega (arith, length-map (rec_of w c) (take want sorted), length-take want sorted)

  answer_find-IsReply :
      (st : DhtNode) (target : Text) (src : SocketAddr) (now : ℕ)
      → IsReply src 2 (allowance st.table src) st (answer_find w c st target src now)
  unfolding answer_find
  answer_find-IsReply st target src now =
      let id = get_or (unhex target) c.self_id in
      let reply : ℕ → DhtMsg =
        λ want. nodes (hex c.self_id) c.p2p_port (map (rec_of w c) (closest st.table id want)) in
      elim (Bool-cases (is_verified_source st.table src)) [
        | inl proven ↦
            let r = send-IsReply st (reply k) src 8 (small_reply st.table id k) in
            rw proven
              (record { new = r.new; sent = r.sent; few = omega (arith, r.few); each = r.each })
        | inr unproven ↦
            let st' = (send w c st (reply k_unverified) src).0 in
            let r =
              send-IsReply st (reply k_unverified) src 2 (small_reply st.table id k_unverified) in
            let q = challenge-IsReply st' src now 2 in
            rw unproven (record {
              new = q.new ++ r.new;
              sent = q.sent ∙ ap (λ l. q.new ++ l) r.sent ∙ sym (append_assoc q.new r.new st.sent);
              few = omega (arith, q.few, r.few, length-append q.new r.new);
              each =
                  All-append (λ (d : SocketAddr × DhtMsg). (d.0 ≡ src) × IsSmall 2 d.1) q.new r.new
                    q.each r.each;
            })
      ]

  sent-learn : (st : DhtNode) (node : Node) → (learn w c st node).0.sent ≡ st.sent
  unfolding learn learn_charged add_node
  sent-learn st node = ground (arith)

  sent-learn_some : (st : DhtNode) (o : Option Node) → (learn_some w c st o).sent ≡ st.sent
  sent-learn_some st none = refl
  sent-learn_some st (some node) = sent-learn st node

  sent-absorb : (st : DhtNode) (rs : List NodeRec) (now : ℕ) → (absorb w c st rs now).sent ≡ st.sent
  unfolding absorb
  sent-absorb st [] now = refl
  sent-absorb st (r ∷ rs) now =
      sent-absorb (learn_some w c st (node_of w c r now)) rs now
      ∙ sent-learn_some st (node_of w c r now)

  sent-prove_source :
      (st : DhtNode) (msg : DhtMsg) (src : SocketAddr) (now : ℕ)
      → (prove_source w c st msg src now).0.sent ≡ st.sent
  unfolding prove_source
  sent-prove_source st msg src now = ground (arith)

  answer-IsReply :
      (st : DhtNode) (msg : DhtMsg) (src : SocketAddr) (now : ℕ)
      → IsReply src 2
          (allowance (answer w c st msg src now).table src)
          st
          (answer w c st msg src now)
  unfolding answer
  answer-IsReply st (ping from p2p) src now =
      let r = send-IsReply st (pong (hex c.self_id) c.p2p_port) src _ tt in
      record { new = r.new; sent = r.sent; few = omega (arith, r.few); each = r.each }
  answer-IsReply st (pong from p2p) src now = record {
    new = [];
    sent = refl;
    few = omega arith;
    each = tt;
  }
  answer-IsReply st (find_node from p2p target) src now =
      subst (λ t. IsReply src 2 (allowance t src) st (answer_find w c st target src now))
        (sym (table-answer_find st target src now)) (answer_find-IsReply st target src now)
  answer-IsReply st (nodes from p2p recs) src now = record {
    new = [];
    sent = sent-absorb st (take max_nodes_per_msg recs) now;
    few = omega arith;
    each = tt;
  }

  -- Whatever a datagram says, its handling sends at most two datagrams, all of them to its source,
  -- and none of them lists more than eight nodes, or more than two where the source is not verified.
  pub handle-IsReply :
      (st : DhtNode) (msg : DhtMsg) (src : SocketAddr)
      → IsReply src 2 (allowance (handle w c st msg src).table src) st (handle w c st msg src)
  unfolding handle
  handle-IsReply st msg src = elim (Bool-cases (accepts_ip c.policy src.ip)) [
    | inr refused ↦ rw refused (record { new = []; sent = refl; few = omega arith; each = tt })
    | inl accepted ↦
        let now = w.clock st.reads in
        let st' = record st { reads = suc st.reads } in
        let proven = prove_source w c st' msg src now in
        let o = sender_node w c msg src proven.1 now (unhex (sender msg).0) in
        let r = answer-IsReply (learn_some w c proven.0 o) msg src now in
        rw accepted (record {
          new = r.new;
          sent =
              r.sent
              ∙ ap (λ l. r.new ++ l)
                  (sent-learn_some proven.0 o ∙ sent-prove_source st' msg src now);
          few = r.few;
          each = r.each;
        })
  ]
