-- ===== src/Dht/Table/Sightings.antt =====
-- Three promises of `add`: an unverified sighting moves no contact, a verified one sets its own, and
-- a gain is reported exactly when an unknown id enters.
use p2pnas.Prelude.{
  ℕ, zero, suc, ◌<◌, ◌≡◌, refl, sym, ap, ◌∙◌, ◌≢◌, Bool, true, false, List, [], ◌∷◌, ◌++◌, none,
  some, arith, length, get_elem?, set, Option-cases, Dec-cases, inl, inr,
}
use native.Mathlib.Decide.{ℕ_discrete}
use mathlib.Core.Path.{subst}
use p2pnas.Dht.Ids.{NodeId, xor, bucket_index}
use p2pnas.Dht.Ids.Distance.{IsId, bucket_index-lt}
use p2pnas.Dht.Table.{
  Node, RoutingTable, id_discrete, bucket_at, any_id, contains, refresh, add_to_bucket, add,
}
use p2pnas.Dht.Table.Bucket.{
  Fresh, Distinct, Out, Added, refreshed, appended, replaced, refused, add_to_bucket_cases,
  refresh-id,
}
use p2pnas.Dht.Table.Contact.{
  contact_of, contact_in, contact, contact_in_moved, contact_in-append_Fresh, contact_in_here,
  contact_in-Out,
}
use p2pnas.Dht.Table.Eviction.{victim_from-IsVictim, IsVictim}
use p2pnas.Dht.Table.Invariant.{IsTable, bucket_at-IsBucket}

any_id-Fresh : (id : NodeId) (b : List Node) → Fresh id b → any_id id b ≡ false
unfolding any_id
any_id-Fresh id [] f = refl
any_id-Fresh id (n ∷ b) (ne, f) = elim (Dec-cases (id_discrete n.id id)) [
  | inl (e, _) ↦ absurd (ne e)
  | inr (_, d) ↦ rw (d, any_id) (any_id-Fresh id b f)
]

any_id_at :
    (id : NodeId) (b : List Node) (i : ℕ) {m : Node}
    → get_elem? b i ≡ some m
    → m.id ≡ id
    → any_id id b ≡ true
unfolding any_id
any_id_at id [] i e same = cc
any_id_at id (n ∷ b) zero {m} e same = elim (Dec-cases (id_discrete n.id id)) [
  | inl (_, d) ↦ rw (d, any_id)
  | inr (ne, _) ↦ let n_m : n ≡ m = cc in absurd (ne (ap Node.id n_m ∙ same))
]
any_id_at id (n ∷ b) (suc i) e same = elim (Dec-cases (id_discrete n.id id)) [
  | inl (_, d) ↦ rw (d, any_id)
  | inr (_, d) ↦ rw (d, any_id) (any_id_at id b i e same)
]

get_elem?_last : (b : List Node) (n : Node) → get_elem? (b ++ (n ∷ [])) (length b) ≡ some n
get_elem?_last [] n = refl
get_elem?_last (m ∷ b) n = get_elem?_last b n

get_elem?-set_at :
    (b : List Node) (i : ℕ) (n m : Node) → get_elem? b i ≡ some m → get_elem? (set b i n) i ≡ some n
get_elem?-set_at [] i n m e = cc
get_elem?-set_at (x ∷ b) zero n m e = refl
get_elem?-set_at (x ∷ b) (suc i) n m e = get_elem?-set_at b i n m e

-- A bucket reports a gain exactly for an id that it did not know, and then it knows it.
gained_in_bucket :
    (b : List Node) (node : Node) {r : List Node × Bool}
    → Added b node r
    → r.1 ≡ true
    → (any_id node.id b ≡ false) × (any_id node.id r.0 ≡ true)
gained_in_bucket b node (refreshed e rest out) g = cc
gained_in_bucket b node (appended fresh room) g = (
  any_id-Fresh node.id b fresh,
  any_id_at node.id (b ++ (node ∷ [])) (length b) (get_elem?_last b node) refl,
)
gained_in_bucket b node (replaced i m fresh full found) g =
    let spec : IsVictim node.last_seen b (some (i, m)) =
      subst (IsVictim node.last_seen b) found (victim_from-IsVictim node.last_seen [] b none tt) in
    (
      any_id-Fresh node.id b fresh,
      any_id_at node.id (set b i node) i (get_elem?-set_at b i node m spec.0) refl,
    )
gained_in_bucket b node (refused fresh full found) g = cc

contact_of-refresh :
    (e node : Node) → node.verified ≡ false → contact_of (refresh e node) ≡ contact_of e
unfolding refresh
contact_of-refresh e node u = rw u

contact_of-refresh_verified :
    (e node : Node)
    → node.verified ≡ true
    → contact_of (refresh e node) ≡ (node.udp, node.p2p_port, true)
unfolding refresh
contact_of-refresh_verified e node v = rw v

-- An unverified sighting of a known id moves no contact of its bucket.
contact_in-Added :
    (id : NodeId) (b : List Node) (node : Node) {r : List Node × Bool}
    → Added b node r
    → Distinct b
    → any_id node.id b ≡ true
    → node.verified ≡ false
    → contact_in id r.0 ≡ contact_in id b
contact_in-Added id b node (refreshed e rest out) d known u =
    let same_id : (refresh e node).id ≡ node.id = refresh-id e node ∙ out.same in
    contact_in_moved id b rest e (refresh e node) (subst (λ x. Out x b e rest) (sym same_id) out) d
      (contact_of-refresh e node u)
contact_in-Added id b node (appended fresh room) d known u =
    cc (sym known ∙ any_id-Fresh node.id b fresh)
contact_in-Added id b node (replaced i m fresh full found) d known u =
    cc (sym known ∙ any_id-Fresh node.id b fresh)
contact_in-Added id b node (refused fresh full found) d known u =
    cc (sym known ∙ any_id-Fresh node.id b fresh)

-- A verified sighting of a known id sets its contact.
contact_in-Added_verified :
    (b : List Node) (node : Node) {r : List Node × Bool}
    → Added b node r
    → Distinct b
    → any_id node.id b ≡ true
    → node.verified ≡ true
    → contact_in node.id r.0 ≡ some (node.udp, node.p2p_port, true)
contact_in-Added_verified b node (refreshed e rest out) d known v =
    let (_, fresh) = contact_in-Out node.id b e rest out d in
    contact_in-append_Fresh node.id rest (refresh e node ∷ []) fresh
    ∙ contact_in_here (refresh e node) node.id [] (refresh-id e node ∙ out.same)
    ∙ ap some (contact_of-refresh_verified e node v)
contact_in-Added_verified b node (appended fresh room) d known v =
    cc (sym known ∙ any_id-Fresh node.id b fresh)
contact_in-Added_verified b node (replaced i m fresh full found) d known v =
    cc (sym known ∙ any_id-Fresh node.id b fresh)
contact_in-Added_verified b node (refused fresh full found) d known v =
    cc (sym known ∙ any_id-Fresh node.id b fresh)

bucket_at-set_self :
    (bs : List (List Node)) (i : ℕ) (b : List Node) → i < length bs → bucket_at (set bs i b) i ≡ b
bucket_at-set_self [] i b h = absurd (omega arith)
bucket_at-set_self (c ∷ bs) zero b h = refl
bucket_at-set_self (c ∷ bs) (suc i) b h = bucket_at-set_self bs i b (omega arith)

bucket_at-set_ne :
    (bs : List (List Node)) (i j : ℕ) (b : List Node)
    → i ≢ j
    → bucket_at (set bs i b) j ≡ bucket_at bs j
bucket_at-set_ne [] i j b ne = refl
bucket_at-set_ne (c ∷ bs) zero zero b ne = absurd (ne refl)
bucket_at-set_ne (c ∷ bs) zero (suc j) b ne = refl
bucket_at-set_ne (c ∷ bs) (suc i) zero b ne = refl
bucket_at-set_ne (c ∷ bs) (suc i) (suc j) b ne = bucket_at-set_ne bs i j b (λ e. ne (ap suc e))

module _ (t : RoutingTable) (node : Node) (h : IsTable t) (node_id : IsId node.id) where
  -- Where `add` puts a node that is not the table's own.
  abbrev after : ℕ → RoutingTable
  after idx = record t {
    buckets = set t.buckets idx (add_to_bucket (bucket_at t.buckets idx) node).0;
  }

  in_range : (idx : ℕ) → bucket_index (xor t.self_id node.id) ≡ some idx → idx < length t.buckets
  in_range idx found =
      omega (arith, h.count, bucket_index-lt t.self_id node.id h.self_id node_id found)

  unique_at : (idx : ℕ) → idx < length t.buckets → Distinct (bucket_at t.buckets idx)
  unique_at idx lt =
      (bucket_at-IsBucket t.self_id 0 t.buckets idx idx h.buckets lt (omega arith)).distinct

  contains_at :
      (idx : ℕ)
      → bucket_index (xor t.self_id node.id) ≡ some idx
      → contains t node.id ≡ any_id node.id (bucket_at t.buckets idx)
  unfolding contains
  contains_at idx found = rw (found, contains)

  -- An unverified sighting of a known id changes no contact address in the whole table, and no proof
  -- of one: neither of that id nor of any other.
  pub contact-add_unverified :
      node.verified ≡ false
      → contains t node.id ≡ true
      → (id : NodeId) → contact (add t node).0 id ≡ contact t id
  unfolding add contact
  contact-add_unverified u known id = elim (Option-cases (bucket_index (xor t.self_id node.id))) [
    | inl own ↦ rw (own, add)
    | inr (idx, found) ↦
        let lt = in_range idx found in
        let b = bucket_at t.buckets idx in
        let kept : contact_in id (add_to_bucket b node).0 ≡ contact_in id b =
          contact_in-Added id b node (add_to_bucket_cases b node) (unique_at idx lt)
            (sym (contains_at idx found) ∙ known) u in
        rw (found, add)
          (elim (Option-cases (bucket_index (xor t.self_id id))) [
            | inl none_found ↦ rw (none_found, contact)
            | inr (j, at_j) ↦ elim (ℕ_discrete idx j) [
              | yes same ↦
                  rw (at_j, contact)
                    (ap
                        (λ i.
                          contact_in id (bucket_at (set t.buckets idx (add_to_bucket b node).0) i))
                        (sym same)
                      ∙ ap (contact_in id)
                          (bucket_at-set_self t.buckets idx (add_to_bucket b node).0 lt)
                      ∙ kept
                      ∙ ap (λ i. contact_in id (bucket_at t.buckets i)) same)
              | no other ↦
                  rw (at_j, contact)
                    (ap (contact_in id)
                      (bucket_at-set_ne t.buckets idx j (add_to_bucket b node).0 other))
            ]
          ])
  ]

  -- A verified sighting of a known id makes the node's address and port the contact of that id.
  pub contact-add_verified :
      node.verified ≡ true
      → contains t node.id ≡ true
      → contact (add t node).0 node.id ≡ some (node.udp, node.p2p_port, true)
  unfolding add contact contains
  contact-add_verified v known = elim (Option-cases (bucket_index (xor t.self_id node.id))) [
    | inl own ↦ cc (rw (own, contains) at known)
    | inr (idx, found) ↦
        let lt = in_range idx found in
        let b = bucket_at t.buckets idx in
        rw (found, add)
          (rw (found, contact)
            (ap (contact_in node.id) (bucket_at-set_self t.buckets idx (add_to_bucket b node).0 lt)
              ∙ contact_in-Added_verified b node (add_to_bucket_cases b node) (unique_at idx lt)
                  (sym (contains_at idx found) ∙ known) v))
  ]

  -- Where `add` reports a gain, the node's id was not in the table before and is in it afterwards.
  pub add_gained :
      (add t node).1 ≡ true
      → (contains t node.id ≡ false) × (contains (add t node).0 node.id ≡ true)
  unfolding add contains
  add_gained gain = elim (Option-cases (bucket_index (xor t.self_id node.id))) [
    | inl own ↦ cc (rw (own, add) at gain)
    | inr (idx, found) ↦
        let lt = in_range idx found in
        let b = bucket_at t.buckets idx in
        let (before, now) =
          gained_in_bucket b node (add_to_bucket_cases b node) (rw (found, add) at gain) in
        (
          contains_at idx found ∙ before,
          rw (found, add)
              (rw (found, contains)
                (ap (any_id node.id) (bucket_at-set_self t.buckets idx (add_to_bucket b node).0 lt)
                  ∙ now)),
        )
  ]
