-- ===== src/Dht/Overlay/Proven.antt =====
-- Which addresses count as verified, and which are handed to the transport.
use mathlib.Core.Path.{subst}
use mathlib.Core.List.{map}
use p2pnas.Prelude.{
  ℕ, ◌≡◌, refl, Bool, true, List, [], ◌∷◌, ◌++◌, All, All-append, Bool-cases, Dec-cases, inl, inr,
}
use p2pnas.Dht.Addr.{IpAddr, SocketAddr, socket_discrete, accepts}
use p2pnas.Dht.Table.{Node, flatten, all, any_verified, is_verified_source}
use p2pnas.Dht.Overlay.{World, Config, DhtNode}
use p2pnas.Dht.Overlay.Node.{filter, collect_addrs}

any_verified_here :
    (n : Node) (ns : List Node) → n.verified ≡ true → any_verified n.udp (n ∷ ns) ≡ true
unfolding any_verified
any_verified_here n ns v = elim (Dec-cases (socket_discrete n.udp n.udp)) [
  | inl (_, d) ↦ rw (d, any_verified) (rw v refl)
  | inr (ne, _) ↦ absurd (ne refl)
]

any_verified_later :
    (addr : SocketAddr) (n : Node) (ns : List Node)
    → any_verified addr ns ≡ true
    → any_verified addr (n ∷ ns) ≡ true
unfolding any_verified
any_verified_later addr n ns h = elim (Dec-cases (socket_discrete n.udp addr)) [
  | inl (_, d) ↦ elim (Bool-cases n.verified) [
    | inl v ↦ rw (d, any_verified) (rw v refl)
    | inr u ↦ rw (d, any_verified) (rw u h)
  ]
  | inr (_, d) ↦ rw (d, any_verified) h
]

any_verified_left :
    (addr : SocketAddr) (xs ys : List Node)
    → any_verified addr xs ≡ true
    → any_verified addr (xs ++ ys) ≡ true
unfolding any_verified
any_verified_left addr [] ys h = cc
any_verified_left addr (n ∷ xs) ys h = elim (Dec-cases (socket_discrete n.udp addr)) [
  | inl (_, d) ↦ elim (Bool-cases n.verified) [
    | inl v ↦ rw (d, any_verified) (rw v refl)
    | inr u ↦
        rw (d, any_verified)
          (rw u (any_verified_left addr xs ys (rw u at (rw (d, any_verified) at h))))
  ]
  | inr (_, d) ↦ rw (d, any_verified) (any_verified_left addr xs ys (rw (d, any_verified) at h))
]

any_verified_right :
    (addr : SocketAddr) (xs ys : List Node)
    → any_verified addr ys ≡ true
    → any_verified addr (xs ++ ys) ≡ true
any_verified_right addr [] ys h = h
any_verified_right addr (n ∷ xs) ys h =
    any_verified_later addr n (xs ++ ys) (any_verified_right addr xs ys h)

-- What holds of the verified addresses of a list holds of its verified entries.
verified_in :
    (V : SocketAddr → Type 0) (ns : List Node)
    → ((addr : SocketAddr) → any_verified addr ns ≡ true → V addr)
    → All (λ n. n.verified ≡ true → V n.udp) ns
verified_in V [] h = tt
verified_in V (n ∷ ns) h = (
  λ v. h n.udp (any_verified_here n ns v),
  verified_in V ns (λ addr e. h addr (any_verified_later addr n ns e)),
)

pub verified_in_buckets :
    (V : SocketAddr → Type 0) (bs : List (List Node))
    → ((addr : SocketAddr) → any_verified addr (flatten bs) ≡ true → V addr)
    → All (All (λ n. n.verified ≡ true → V n.udp)) bs
unfolding flatten
verified_in_buckets V [] h = tt
verified_in_buckets V (b ∷ bs) h = (
  verified_in V b (λ addr e. h addr (any_verified_left addr b (flatten bs) e)),
  verified_in_buckets V bs (λ addr e. h addr (any_verified_right addr b (flatten bs) e)),
)

-- And back.
pub verified_out :
    (V : SocketAddr → Type 0) (ns : List Node) (addr : SocketAddr)
    → All (λ n. n.verified ≡ true → V n.udp) ns
    → any_verified addr ns ≡ true
    → V addr
unfolding any_verified
verified_out V [] addr h e = cc
verified_out V (n ∷ ns) addr (p, h) e = elim (Dec-cases (socket_discrete n.udp addr)) [
  | inl (same, d) ↦ elim (Bool-cases n.verified) [
    | inl v ↦ subst V same (p v)
    | inr u ↦ verified_out V ns addr h (rw u at (rw (d, any_verified) at e))
  ]
  | inr (_, d) ↦ verified_out V ns addr h (rw (d, any_verified) at e)
]

pub flatten-All : (P : Node → Type 0) (bs : List (List Node)) → All (All P) bs → All P (flatten bs)
unfolding flatten
flatten-All P [] h = tt
flatten-All P (b ∷ bs) (p, h) = All-append P b (flatten bs) p (flatten-All P bs h)

filter-All :
    (P : Node → Type 0) (test : Node → Bool) (ns : List Node)
    → All P ns
    → All (λ n. P n × (test n ≡ true)) (filter test ns)
filter-All P test [] h = tt
filter-All P test (n ∷ ns) (p, h) = elim (Bool-cases (test n)) [
  | inl passed ↦ rw passed ((p, passed), filter-All P test ns h)
  | inr failed ↦ rw failed (filter-All P test ns h)
]

map-All :
    {B : Type 0} (P : Node → Type 0) (Q : B → Type 0) (f : Node → B) (ns : List Node)
    → ((n : Node) → P n → Q (f n))
    → All P ns
    → All Q (map f ns)
map-All P Q f [] keep h = tt
map-All P Q f (n ∷ ns) keep (p, h) = (keep n p, map-All P Q f ns keep h)

-- Each address that discovery hands to the transport is accepted by the policy, with its port, and
-- is the address of a verified source.
pub collect_addrs_verified :
    (w : World) (c : Config) (st : DhtNode)
    → All
        (λ (a : IpAddr × ℕ).
          (accepts c.policy a.0 a.1 ≡ true)
          × ((port : ℕ) × (is_verified_source st.table (record { ip = a.0; port = port }) ≡ true)))
        (collect_addrs w c st true)
unfolding collect_addrs is_verified_source all
collect_addrs_verified w c st =
    let ns = flatten st.table.buckets in
    let V : SocketAddr → Type 0 = λ a. any_verified a ns ≡ true in
    let P : Node → Type 0 = λ n. n.verified ≡ true → V n.udp in
    let proven = filter-All P Node.verified ns (verified_in V ns (λ addr e. e)) in
    let P' : Node → Type 0 = λ n. P n × (n.verified ≡ true) in
    map-All (λ n. P' n × (accepts c.policy n.udp.ip n.p2p_port ≡ true)) _ _ _
      (λ n p. (p.1, (n.udp.port, p.0.0 p.0.1)))
      (filter-All P' (λ n. accepts c.policy n.udp.ip n.p2p_port) (filter Node.verified ns) proven)
