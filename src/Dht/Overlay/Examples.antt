-- ===== src/Dht/Overlay/Examples.antt =====
-- A node that is bootstrapped, and hears from the peer that it asked.
use native.Mathlib.Decide.{ℕ_discrete}
use p2pnas.Prelude.{ℕ, ◌*◌, ◌≡◌, refl, true, [], ◌∷◌, none, some, All, ◌⊎◌}
use p2pnas.Prelude.Dict.{lookup, insert, remove}
use p2pnas.Dht.Ids.{
  xor, leading_zeros, bucket_index, bucket_index_from, hex, hex_digit, unhex, unhex_pairs, byte_of,
  digit_value,
}
use p2pnas.Dht.Addr.{
  IpAddr, public_only, ip_discrete, socket_discrete, accepts, accepts_ip, is_routable_ip,
  is_routable_v4, is_contactable_port,
}
use p2pnas.Dht.Table.{
  new, id_discrete, contains, any_id, add, add_to_bucket, take_out, mark_verified,
  is_verified_source, any_verified, flatten, all,
}
use p2pnas.Dht.Sources.{default, prune, prune_map, note_query, take_pending, allow_learn, charge}
use p2pnas.Dht.Examples.{own_id, own_id-IsId, id_of, home}
use p2pnas.Dht.Overlay.{DhtMsg, pong, find_node, World, Config, DhtNode, is_answer}
use p2pnas.Dht.Overlay.Node.{
  bind, remember, send, add_node, learn_charged, learn, answer, prove_source, handle, bootstrap,
  collect_addrs,
}
use p2pnas.Dht.Overlay.Safety.{IsOverlay}
use p2pnas.Dht.Overlay.Proven.{collect_addrs_verified}
use p2pnas.Dht.Overlay.Reach.{
  handled, bootstrapped, IsReachable, bound, stepped, IsAnswered, Anything, reachable-IsOverlay,
  proof_of_address,
}
use p2pnas.Dht.Overlay.Replies.{IsReply, allowance, handle-IsReply}

abbrev world : World
world = record {
  clock = λ i. i * 1_000_000;
  delivers = λ i. true;
  to_vec = λ msg. some [];
  from_slice = λ bytes. none;
  lookup_host = λ text. none;
  parse_ip = λ text. none;
  parse_socket = λ text. some home;
  show_ip = λ ip. [];
}

abbrev config : Config
config = record { self_id = own_id; p2p_port = 4001; policy = public_only }

abbrev asked : DhtNode
asked = bootstrap world config (bind config) ([] ∷ [])

abbrev reply : DhtMsg
reply = pong (hex (id_of 1)) 4001

abbrev answered : DhtNode
answered = handle world config asked reply home

asked-IsReachable : IsReachable world config asked
asked-IsReachable = stepped (bind config) asked bound (bootstrapped (bind config) ([] ∷ []))

answered-IsReachable : IsReachable world config answered
answered-IsReachable = stepped asked answered asked-IsReachable (handled asked reply home)

reachable-IsOverlay_example : IsOverlay world config Anything answered
reachable-IsOverlay_example =
    reachable-IsOverlay world config answered own_id-IsId answered-IsReachable

home_verified : is_verified_source answered.table home ≡ true
unfolding ℕ_discrete id_discrete ip_discrete socket_discrete lookup insert remove xor leading_zeros
    bucket_index bucket_index_from hex hex_digit unhex unhex_pairs byte_of digit_value accepts
    accepts_ip is_routable_ip is_routable_v4 is_contactable_port new contains any_id add
    add_to_bucket take_out mark_verified is_verified_source any_verified flatten all default prune
    prune_map note_query take_pending allow_learn charge bind remember send add_node learn_charged
    learn answer prove_source handle bootstrap is_answer
home_verified = refl

proof_of_address_example :
    (is_verified_source asked.table home ≡ true) ⊎ IsAnswered world config asked answered home
proof_of_address_example =
    proof_of_address world config asked answered home
      (reachable-IsOverlay world config asked own_id-IsId asked-IsReachable)
      (handled asked reply home) home_verified

handle-IsReply_example :
    IsReply home 2
      (allowance (handle world config asked (find_node (hex (id_of 1)) 4001 []) home).table home)
      asked
      (handle world config asked (find_node (hex (id_of 1)) 4001 []) home)
handle-IsReply_example = handle-IsReply world config asked (find_node (hex (id_of 1)) 4001 []) home

collect_addrs_verified_example :
    All
      (λ (a : IpAddr × ℕ).
        (accepts config.policy a.0 a.1 ≡ true)
        × ((port : ℕ) × (is_verified_source answered.table (record { ip = a.0; port = port })
              ≡ true)))
      (collect_addrs world config answered true)
collect_addrs_verified_example = collect_addrs_verified world config answered
