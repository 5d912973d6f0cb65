-- ===== src/Dht/Examples.antt =====
-- The overlay's data at small inputs: runs, and the theorems of this component at them.
use native.Mathlib.Decide.{ℕ_discrete}
use p2pnas.Prelude.{
  ℕ, zero, ◌-◌, ◌*◌, ◌≤◌, ◌<◌, ◌≡◌, ◌≢◌, refl, ◌↔◌, ◌⊎◌, ◌^◌, Bool, true, false, List, [], ◌∷◌,
  arith, none, some, replicate, length, set, suc, All,
}
use p2pnas.Prelude.Dict.{lookup, insert}
use p2pnas.Dht.Ids.{
  NodeId, xor, leading_zeros, bucket_index, bucket_index_from, hex, unhex, digit_value, byte_of,
  unhex_pairs,
}
use p2pnas.Dht.Ids.Distance.{IsId, xor_comm, leading_zeros_bounds}
use p2pnas.Dht.Ids.Hex.{unhex-hex}
use p2pnas.Dht.Addr.{SocketAddr, v4, socket_discrete, allow_private, is_routable_v4, accepts_ip}
use p2pnas.Dht.Addr.Blocks.{
  value, InSome, special_blocks, mapped, is_routable_v4_iff, accepts_ip-mapped,
}
use p2pnas.Dht.Table.{
  Node, RoutingTable, new, add, contains, add_to_bucket, take_out, any_id, id_discrete,
}
use p2pnas.Dht.Table.Invariant.{IsTable, new-IsTable, add-IsTable}
use p2pnas.Dht.Table.Eviction.{IsVictim, add_to_bucket_full}
use p2pnas.Dht.Table.Contact.{contact}
use p2pnas.Dht.Table.Sightings.{contact-add_unverified}
use p2pnas.Dht.Sources.{SourceState, default, take_pending, allow_ping, prune, prune_map, second}
use p2pnas.Dht.Sources.Bounds.{IsBounded}
use p2pnas.Dht.Sources.Proofs.{take_pending_iff, allow_ping_throttle}

abbrev pub own_id : NodeId
own_id = replicate 20 0

-- Ids whose distance to `own_id` starts with eight zeros and a bit set.
abbrev pub id_of : ℕ → NodeId
id_of n = 0 ∷ 128 ∷ n ∷ replicate 17 7

sevens : (n x : ℕ) → x < 256 → All (λ b. b < 256) (replicate n x)
sevens zero x h = tt
sevens (suc n) x h = (h, sevens n x h)

pub own_id-IsId : IsId own_id
own_id-IsId = record { len = refl; bytes = sevens 20 0 (omega arith) }

id_of-IsId : (n : ℕ) → n < 256 → IsId (id_of n)
id_of-IsId n h = record {
  len = refl;
  bytes = (omega arith, (omega arith, (h, sevens 17 7 (omega arith))));
}

abbrev pub home : SocketAddr
home = record { ip = v4 93 184 216 34; port = 4002 }

abbrev pub elsewhere : SocketAddr
elsewhere = record { ip = v4 1 1 1 1; port = 4002 }

abbrev node : ℕ → SocketAddr → Bool → Node
node n addr verified = record {
  id = id_of n;
  udp = addr;
  p2p_port = 4001;
  verified = verified;
  last_seen = 5;
}

abbrev table : RoutingTable
table = (add (new own_id) (node 1 home false)).0

table-IsTable : IsTable table
table-IsTable =
    add-IsTable (new own_id) (node 1 home false) (new-IsTable own_id own_id-IsId)
      (id_of-IsId 1 (omega arith))

table_knows : contains table (id_of 1) ≡ true
unfolding ℕ_discrete id_discrete contains add new xor bucket_index bucket_index_from leading_zeros
    add_to_bucket take_out any_id
table_knows = refl

table_gains : (add table (node 2 elsewhere true)).1 ≡ true
unfolding ℕ_discrete id_discrete add new xor bucket_index bucket_index_from leading_zeros
    add_to_bucket take_out any_id
table_gains = refl

unhex-hex_example : unhex (hex (id_of 9)) ≡ some (id_of 9)
unhex-hex_example = unhex-hex (id_of 9) (id_of-IsId 9 (omega arith))

zeros_read : unhex (replicate 40 b'0') ≡ some own_id
unfolding unhex unhex_pairs byte_of digit_value
zeros_read = refl

first_bit : bucket_index (xor own_id (id_of 1)) ≡ some 8
unfolding xor bucket_index bucket_index_from leading_zeros
first_bit = refl

xor_comm_example : xor own_id (id_of 1) ≡ xor (id_of 1) own_id
xor_comm_example = xor_comm own_id (id_of 1) own_id-IsId (id_of-IsId 1 (omega arith))

leading_zeros_bounds_example : (2 ^ (7 - leading_zeros 5) ≤ 5) × (5 < 2 ^ (8 - leading_zeros 5))
leading_zeros_bounds_example = leading_zeros_bounds 5 (omega arith) (omega arith)

is_routable_v4_iff_example :
    (is_routable_v4 10 1 2 3 ≡ false) ↔ InSome (value 10 1 2 3) special_blocks
is_routable_v4_iff_example =
    is_routable_v4_iff 10 1 2 3 (omega arith) (omega arith) (omega arith) (omega arith)

accepts_ip-mapped_example :
    accepts_ip allow_private
      (mapped 224 0 0 1 (omega arith) (omega arith) (omega arith) (omega arith))
    ≡ true
accepts_ip-mapped_example =
    accepts_ip-mapped 224 0 0 1 (omega arith) (omega arith) (omega arith) (omega arith)

new-IsTable_example : IsTable (new own_id)
new-IsTable_example = new-IsTable own_id own_id-IsId

add-IsTable_example : IsTable (add table (node 2 elsewhere true)).0
add-IsTable_example =
    add-IsTable table (node 2 elsewhere true) table-IsTable (id_of-IsId 2 (omega arith))

contact-add_unverified_example :
    contact (add table (node 1 elsewhere false)).0 (id_of 1) ≡ contact table (id_of 1)
contact-add_unverified_example =
    contact-add_unverified table (node 1 elsewhere false) table-IsTable (id_of-IsId 1 (omega arith))
      refl table_knows (id_of 1)

-- Eight entries, all live.
abbrev full : List Node
full =
    node 1 home true
    ∷ node 2 home true
    ∷ node 3 home true
    ∷ node 4 home true
    ∷ node 5 home true
    ∷ node 6 home true
    ∷ node 7 home true
    ∷ node 8 home true
    ∷ []

abbrev newcomer : Node
newcomer = node 9 elsewhere false

other_ids : (n m : ℕ) → n ≢ m → id_of n ≢ id_of m
other_ids n m ne e = ne (cc)

add_to_bucket_full_example :
    ((i : ℕ) × (m : Node) × (add_to_bucket full newcomer ≡ (set full i newcomer, true))
      × IsVictim 5 full (some (i, m)))
    ⊎ ((add_to_bucket full newcomer ≡ (full, false)) × IsVictim 5 full none)
add_to_bucket_full_example =
    add_to_bucket_full full newcomer
      (
        other_ids 1 9 (omega arith),
        (
          other_ids 2 9 (omega arith),
          (
            other_ids 3 9 (omega arith),
            (
              other_ids 4 9 (omega arith),
              (
                other_ids 5 9 (omega arith),
                (
                  other_ids 6 9 (omega arith),
                  (other_ids 7 9 (omega arith), (other_ids 8 9 (omega arith), tt)),
                ),
              ),
            ),
          ),
        ),
      )
      (omega arith)

apart : home ≢ elsewhere
apart e = cc

empty : IsBounded default
unfolding default
empty = record { learn = omega arith; pending = omega arith; pinged = omega arith }

take_pending_iff_example :
    (((take_pending default home 7).1 ≡ true)
      ↔ ((t : ℕ) × (lookup socket_discrete home default.pending ≡ some t) × (7 - t ≤ 120 * second)))
    × (lookup socket_discrete home (take_pending default home 7).0.pending ≡ none)
    × (lookup socket_discrete elsewhere (take_pending default home 7).0.pending
        ≡ lookup socket_discrete elsewhere default.pending)
take_pending_iff_example = take_pending_iff default home elsewhere 7 apart

free : (allow_ping default home 3).1 ≡ true
unfolding allow_ping default prune prune_map lookup
free = refl

few : length (allow_ping default home 3).0.pinged < 4096
unfolding allow_ping default prune prune_map lookup insert
few = omega arith

allow_ping_throttle_example : (allow_ping (allow_ping default home 3).0 home 7).1 ≡ false
allow_ping_throttle_example = allow_ping_throttle default home 3 7 free few (omega arith)

-- One source used fifteen of its sixteen entries.
abbrev nearly_spent : SourceState
nearly_spent = record { learn = (home.ip, (5, 15)) ∷ []; pending = []; pinged = [] }
