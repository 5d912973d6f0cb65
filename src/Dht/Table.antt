-- ===== src/Dht/Table.antt =====
-- p2p/src/dht.rs: `RoutingTable`. Instants are numbers of nanoseconds; a method that changes the
-- table returns the new one.
pub mod Bucket
pub mod Invariant
pub mod Eviction
pub mod Contact
pub mod Sightings
use native.Mathlib.Decide.{ℕ_discrete}
use p2pnas.Prelude.{
  ℕ, zero, suc, ◌+◌, ◌-◌, ◌*◌, Bool, true, false, not, ◌&&◌, ltb, leb, List, [], ◌∷◌, ◌++◌, Option,
  none, some, length, set, replicate, take, if◌then◌else◌,
}
use p2pnas.Dht.Ids.{NodeId, id_len, xor, bucket_index}
use p2pnas.Dht.Addr.{SocketAddr, socket_discrete}

unfoldable pub id_discrete : Discrete NodeId
id_discrete = hlevel ℕ_discrete

-- Bucket size and fan-out.
abbrev pub k : ℕ
k = 8

-- Fifteen minutes.
abbrev pub stale_after : ℕ
stale_after = 900 * 1_000_000_000

pub record Node : Type 0 where
  pub id : NodeId
  pub udp : SocketAddr
  pub p2p_port : ℕ
  pub verified : Bool
  pub last_seen : ℕ

pub record RoutingTable : Type 0 where
  pub self_id : NodeId
  pub buckets : List (List Node)

unfoldable pub new : NodeId → RoutingTable
new self_id = record { self_id = self_id; buckets = replicate (id_len * 8) [] }

-- `self.buckets[idx]`; the index is below the number of buckets, so no other case arises.
abbrev pub bucket_at : List (List Node) → ℕ → List Node
bucket_at [] i = []
bucket_at (b ∷ bs) zero = b
bucket_at (b ∷ bs) (suc i) = bucket_at bs i

-- `iter().any(|n| n.id == *id)`
unfoldable pub any_id : NodeId → List Node → Bool
any_id id [] = false
any_id id (n ∷ b) = elim (id_discrete n.id id) [ yes _ ↦ true | no _ ↦ any_id id b ]

unfoldable pub contains : RoutingTable → NodeId → Bool
contains t id = elim (bucket_index (xor t.self_id id)) [
  | some idx ↦ any_id id (bucket_at t.buckets idx)
  | none ↦ false
]

-- `position` of an id and `remove` at it: the entry, and the bucket without it.
abbrev pub put_back : Node → Option (Node × List Node) → Option (Node × List Node)
put_back n none = none
put_back n (some (found, rest)) = some (found, n ∷ rest)

unfoldable pub take_out : NodeId → List Node → Option (Node × List Node)
take_out id [] = none
take_out id (n ∷ b) =
    let later = put_back n (take_out id b) in
    elim (id_discrete n.id id) [ yes _ ↦ some (n, b) | no _ ↦ later ]

-- Recency is refreshed; the contact address changes only for a verified sighting.
unfoldable pub refresh : Node → Node → Node
refresh existing node =
    if node.verified
    then record existing {
      udp = node.udp;
      p2p_port = node.p2p_port;
      verified = true;
      last_seen = node.last_seen;
    }
    else record existing { last_seen = node.last_seen }

-- `saturating_duration_since` stops at zero, as `-` does.
abbrev pub is_stale : ℕ → Node → Bool
is_stale now n = ltb stale_after (now - n.last_seen)

-- The order of the keys `(verified, last_seen)`, `false` before `true`.
abbrev pub key_lt : Node → Node → Bool
key_lt n m =
    if n.verified
    then m.verified && ltb n.last_seen m.last_seen
    else if m.verified
    then true
    else ltb n.last_seen m.last_seen

-- `enumerate().filter(stale).min_by_key(..)` from index `i` on, with the best one so far; of equal
-- keys the first wins.
abbrev pub better : ℕ → Node → Option (ℕ × Node) → Option (ℕ × Node)
better i n none = some (i, n)
better i n (some (j, m)) = if key_lt n m then some (i, n) else some (j, m)

unfoldable pub victim_from : ℕ → ℕ → Option (ℕ × Node) → List Node → Option (ℕ × Node)
victim_from now i best [] = best
victim_from now i best (n ∷ b) =
    victim_from now (suc i) (if is_stale now n then better i n best else best) b

unfoldable pub add_to_bucket : List Node → Node → List Node × Bool
add_to_bucket b node = elim (take_out node.id b) [
  | some (existing, rest) ↦ (rest ++ (refresh existing node ∷ []), false)
  | none ↦
      if ltb (length b) k
      then (b ++ (node ∷ []), true)
      else elim (victim_from node.last_seen 0 none b) [
        | some (i, _) ↦ (set b i node, true)
        | none ↦ (b, false)
      ]
]

unfoldable pub add : RoutingTable → Node → RoutingTable × Bool
add t node = elim (bucket_index (xor t.self_id node.id)) [
  | none ↦ (t, false)
  | some idx ↦
      let (b, gained) = add_to_bucket (bucket_at t.buckets idx) node in
      (record t { buckets = set t.buckets idx b }, gained)
]

abbrev pub map_nodes : (Node → Node) → List Node → List Node
map_nodes f [] = []
map_nodes f (n ∷ b) = f n ∷ map_nodes f b

abbrev pub map_buckets : (Node → Node) → List (List Node) → List (List Node)
map_buckets f [] = []
map_buckets f (b ∷ bs) = map_nodes f b ∷ map_buckets f bs

-- The instant is the one at which the entries are marked.
abbrev pub mark_at : SocketAddr → ℕ → Node → Node
mark_at addr now n = elim (socket_discrete n.udp addr) [
  | yes _ ↦ record n { verified = true; last_seen = now }
  | no _ ↦ n
]

unfoldable pub mark_verified : RoutingTable → SocketAddr → ℕ → RoutingTable
mark_verified t addr now = record t { buckets = map_buckets (mark_at addr now) t.buckets }

unfoldable pub flatten : List (List Node) → List Node
flatten [] = []
flatten (b ∷ bs) = b ++ flatten bs

unfoldable pub all : RoutingTable → List Node
unfolding flatten
all t = flatten t.buckets

unfoldable pub any_verified : SocketAddr → List Node → Bool
any_verified addr [] = false
any_verified addr (n ∷ ns) =
    let rest = any_verified addr ns in
    elim (socket_discrete n.udp addr) [ yes _ ↦ if n.verified then true else rest | no _ ↦ rest ]

unfoldable pub is_verified_source : RoutingTable → SocketAddr → Bool
is_verified_source t addr = any_verified addr (all t)

-- Lexicographic order of two arrays of bytes: not greater.
unfoldable pub bytes_le : NodeId → NodeId → Bool
bytes_le [] bs = true
bytes_le (a ∷ as') [] = false
bytes_le (a ∷ as') (b ∷ bs) = if ltb a b then true else if ltb b a then false else bytes_le as' bs

-- A stable sort by a key, as the standard library's; here by insertion.
abbrev pub closer : NodeId → Node → Node → Bool
closer target n m = bytes_le (xor n.id target) (xor m.id target)

unfoldable pub insert_sorted : NodeId → Node → List Node → List Node
insert_sorted target n [] = n ∷ []
insert_sorted target n (m ∷ ns) =
    if closer target n m then n ∷ (m ∷ ns) else m ∷ insert_sorted target n ns

unfoldable pub sort_by_distance : NodeId → List Node → List Node
unfolding insert_sorted
sort_by_distance target [] = []
sort_by_distance target (n ∷ ns) = insert_sorted target n (sort_by_distance target ns)

unfoldable pub closest : RoutingTable → NodeId → ℕ → List Node
closest t target count = take count (sort_by_distance target (all t))
