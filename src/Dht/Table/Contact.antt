-- ===== src/Dht/Table/Contact.antt =====
-- What a sighting changes in the table: the contact address of an id, and which ids are known.
use p2pnas.Prelude.{
  ℕ, ◌≡◌, refl, sym, ap, ◌∙◌, ◌≢◌, Bool, List, [], ◌∷◌, ◌++◌, append-nil, Option, none, some,
  All-front, Dec-cases, inl, inr,
}
use mathlib.Core.Path.{subst}
use p2pnas.Dht.Ids.{NodeId, xor, bucket_index}
use p2pnas.Dht.Addr.{SocketAddr}
use p2pnas.Dht.Table.{Node, RoutingTable, id_discrete, bucket_at}
use p2pnas.Dht.Table.Bucket.{Fresh, Distinct, Out, Distinct-middle}

-- Where an id is contacted, and whether it proved that address.
abbrev pub Contact : Type 0
Contact = SocketAddr × ℕ × Bool

abbrev pub contact_of : Node → Contact
contact_of n = (n.udp, n.p2p_port, n.verified)

-- The contact of the first entry with the id.
unfoldable pub contact_in : NodeId → List Node → Option Contact
contact_in id [] = none
contact_in id (n ∷ b) = elim (id_discrete n.id id) [
  | yes _ ↦ some (contact_of n)
  | no _ ↦ contact_in id b
]

unfoldable pub contact : RoutingTable → NodeId → Option Contact
contact t id = elim (bucket_index (xor t.self_id id)) [
  | some idx ↦ contact_in id (bucket_at t.buckets idx)
  | none ↦ none
]

pub contact_in_here :
    (n : Node) (id : NodeId) (b : List Node)
    → n.id ≡ id
    → contact_in id (n ∷ b) ≡ some (contact_of n)
unfolding contact_in
contact_in_here n id b e = elim (Dec-cases (id_discrete n.id id)) [
  | inl (_, d) ↦ rw (d, contact_in)
  | inr (ne, _) ↦ absurd (ne e)
]

contact_in_later :
    (n : Node) (id : NodeId) (b : List Node) → n.id ≢ id → contact_in id (n ∷ b) ≡ contact_in id b
unfolding contact_in
contact_in_later n id b ne = elim (Dec-cases (id_discrete n.id id)) [
  | inl (e, _) ↦ absurd (ne e)
  | inr (_, d) ↦ rw (d, contact_in)
]

contact_in-Fresh : (id : NodeId) (b : List Node) → Fresh id b → contact_in id b ≡ none
unfolding contact_in
contact_in-Fresh id [] f = refl
contact_in-Fresh id (n ∷ b) (ne, f) = contact_in_later n id b ne ∙ contact_in-Fresh id b f

pub contact_in-append_Fresh :
    (id : NodeId) (xs ys : List Node) → Fresh id xs → contact_in id (xs ++ ys) ≡ contact_in id ys
contact_in-append_Fresh id [] ys f = refl
contact_in-append_Fresh id (n ∷ xs) ys (ne, f) =
    contact_in_later n id (xs ++ ys) ne ∙ contact_in-append_Fresh id xs ys f

-- An entry of another id plays no part, wherever it stands.
contact_in_skip :
    (id : NodeId) (xs ys : List Node) (n : Node)
    → n.id ≢ id
    → contact_in id (xs ++ (n ∷ ys)) ≡ contact_in id (xs ++ ys)
contact_in_skip id [] ys n ne = contact_in_later n id ys ne
contact_in_skip id (m ∷ xs) ys n ne = elim (id_discrete m.id id) [
  | yes e ↦ contact_in_here m id (xs ++ (n ∷ ys)) e ∙ sym (contact_in_here m id (xs ++ ys) e)
  | no me ↦
      contact_in_later m id (xs ++ (n ∷ ys)) me
      ∙ contact_in_skip id xs ys n ne
      ∙ sym (contact_in_later m id (xs ++ ys) me)
]

-- The entry of an id in a bucket without duplicates.
pub contact_in-Out :
    (id : NodeId) (b : List Node) (e : Node) (rest : List Node)
    → Out id b e rest
    → Distinct b
    → (contact_in id b ≡ some (contact_of e)) × Fresh id rest
contact_in-Out id b e rest out d =
    let (_, fresh) = Distinct-middle out.front out.back e (subst Distinct out.whole d) in
    let fresh_id = subst (λ x. Fresh x (out.front ++ out.back)) out.same fresh in
    let (front, _) = All-front (λ (m : Node). m.id ≢ id) out.front out.back fresh_id in
    (
      ap (contact_in id) out.whole
          ∙ contact_in-append_Fresh id out.front (e ∷ out.back) front
          ∙ contact_in_here e id out.back out.same,
      subst (Fresh id) (sym out.left) fresh_id,
    )

-- Moving an entry with a kept contact to the end of the bucket.
pub contact_in_moved :
    (id : NodeId) (b rest : List Node) (e e' : Node)
    → Out e'.id b e rest
    → Distinct b
    → contact_of e' ≡ contact_of e
    → contact_in id (rest ++ (e' ∷ [])) ≡ contact_in id b
contact_in_moved id b rest e e' out d same = elim (id_discrete e'.id id) [
  | yes here ↦
      let (found, fresh) = contact_in-Out e'.id b e rest out d in
      contact_in-append_Fresh id rest (e' ∷ []) (subst (λ x. Fresh x rest) here fresh)
      ∙ contact_in_here e' id [] here
      ∙ ap some same
      ∙ sym found
      ∙ ap (λ x. contact_in x b) here
  | no other ↦
      contact_in_skip id rest [] e' other
      ∙ ap (contact_in id) (append-nil rest ∙ out.left)
      ∙ sym (contact_in_skip id out.front out.back e (λ q. other (sym out.same ∙ q)))
      ∙ ap (contact_in id) (sym out.whole)
]
