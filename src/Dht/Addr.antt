-- ===== src/Dht/Addr.antt =====
-- p2p/src/dht.rs: which addresses the overlay talks to. The predicates of the standard library on
-- IP addresses are written out.
pub mod Blocks
use Prim.Native.Nat.{bit_and}
use native.Mathlib.Decide.{ℕ_discrete}
use p2pnas.Prelude.{
  ℕ, ◌+◌, ◌*◌, ◌/◌, ◌%◌, Bool, true, false, not, ◌&&◌, ◌||◌, ltb, leb, ◌==◌, List, [], ◌∷◌, Option,
  none, some, if◌then◌else◌,
}

-- The four bytes, or the eight groups of sixteen bits.
pub data IpAddr : Type 0 where
  v4 : ℕ → ℕ → ℕ → ℕ → IpAddr
  v6 : ℕ → ℕ → ℕ → ℕ → ℕ → ℕ → ℕ → ℕ → IpAddr

unfoldable pub ip_discrete : Discrete IpAddr
ip_discrete = hlevel ℕ_discrete

-- `SocketAddr`; the flow label and the scope of an IPv6 address are not used by the program.
pub record SocketAddr : Type 0 where
  pub ip : IpAddr
  pub port : ℕ

unfoldable pub socket_discrete : Discrete SocketAddr
socket_discrete = hlevel (ip_discrete, ℕ_discrete)

pub data AddrPolicy : Type 0 where
  public_only allow_private : AddrPolicy

-- The predicates of `Ipv4Addr` in the standard library.
abbrev pub is_unspecified_v4 : ℕ → ℕ → ℕ → ℕ → Bool
is_unspecified_v4 a b c d = (a == 0) && ((b == 0) && ((c == 0) && (d == 0)))

abbrev pub is_loopback_v4 : ℕ → ℕ → ℕ → ℕ → Bool
is_loopback_v4 a b c d = a == 127

abbrev pub is_private : ℕ → ℕ → ℕ → ℕ → Bool
is_private a b c d =
    (a == 10) || (((a == 172) && (leb 16 b && leb b 31)) || ((a == 192) && (b == 168)))

abbrev pub is_link_local : ℕ → ℕ → ℕ → ℕ → Bool
is_link_local a b c d = (a == 169) && (b == 254)

abbrev pub is_broadcast_v4 : ℕ → ℕ → ℕ → ℕ → Bool
is_broadcast_v4 a b c d = (a == 255) && ((b == 255) && ((c == 255) && (d == 255)))

abbrev pub is_multicast_v4 : ℕ → ℕ → ℕ → ℕ → Bool
is_multicast_v4 a b c d = leb 224 a && leb a 239

abbrev pub is_documentation : ℕ → ℕ → ℕ → ℕ → Bool
is_documentation a b c d =
    ((a == 192) && ((b == 0) && (c == 2)))
    || (((a == 198) && ((b == 51) && (c == 100))) || ((a == 203) && ((b == 0) && (c == 113))))

unfoldable pub is_routable_v4 : ℕ → ℕ → ℕ → ℕ → Bool
is_routable_v4 a b c d =
    let this_network = a == 0 in
    let cgnat = (a == 100) && (leb 64 b && ltb b 128) in
    let benchmarking = (a == 198) && ((b == 18) || (b == 19)) in
    let reserved = leb 240 a in
    not (
      is_unspecified_v4 a b c d
      || (is_loopback_v4 a b c d
          || (is_private a b c d
              || (is_link_local a b c d
                  || (is_broadcast_v4 a b c d
                      || (is_multicast_v4 a b c d
                          || (is_documentation a b c d
                              || (this_network || (cgnat || (benchmarking || reserved))))))))))

-- The first six groups are zero.
abbrev pub high_zero : ℕ → ℕ → ℕ → ℕ → ℕ → ℕ → Bool
high_zero a b c d e f = (a == 0) && ((b == 0) && ((c == 0) && ((d == 0) && ((e == 0) && (f == 0)))))

-- The predicates of `Ipv6Addr` in the standard library.
abbrev pub is_unspecified_v6 : ℕ → ℕ → ℕ → ℕ → ℕ → ℕ → ℕ → ℕ → Bool
is_unspecified_v6 a b c d e f g h = high_zero a b c d e f && ((g == 0) && (h == 0))

abbrev pub is_loopback_v6 : ℕ → ℕ → ℕ → ℕ → ℕ → ℕ → ℕ → ℕ → Bool
is_loopback_v6 a b c d e f g h = high_zero a b c d e f && ((g == 0) && (h == 1))

abbrev pub is_multicast_v6 : ℕ → Bool
is_multicast_v6 a = bit_and a 0xff00 == 0xff00

-- `to_ipv4_mapped`: the four bytes of an address `::ffff:a.b.c.d`.
abbrev pub is_mapped : ℕ → ℕ → ℕ → ℕ → ℕ → ℕ → Bool
is_mapped a b c d e f =
    (a == 0) && ((b == 0) && ((c == 0) && ((d == 0) && ((e == 0) && (f == 0xffff)))))

unfoldable pub is_routable_v6 : ℕ → ℕ → ℕ → ℕ → ℕ → ℕ → ℕ → ℕ → Bool
is_routable_v6 a b c d e f g h =
    let unique_local = bit_and a 0xfe00 == 0xfc00 in
    let link_local = bit_and a 0xffc0 == 0xfe80 in
    let documentation = (a == 0x2001) && (b == 0x0db8) in
    let discard = (a == 0x0100) && ((b == 0) && ((c == 0) && (d == 0))) in
    let embedded_v4_or_special = high_zero a b c d e f in
    if is_mapped a b c d e f
    then is_routable_v4 (g / 256) (g % 256) (h / 256) (h % 256)
    else not (
        is_unspecified_v6 a b c d e f g h
        || (is_loopback_v6 a b c d e f g h
            || (is_multicast_v6 a
                || (unique_local
                    || (link_local || (documentation || (discard || embedded_v4_or_special)))))))

unfoldable pub is_routable_ip : IpAddr → Bool
is_routable_ip (v4 a b c d) = is_routable_v4 a b c d
is_routable_ip (v6 a b c d e f g h) = is_routable_v6 a b c d e f g h

unfoldable pub is_broadcast : IpAddr → Bool
is_broadcast (v4 a b c d) = is_broadcast_v4 a b c d
is_broadcast (v6 a b c d e f g h) = false

-- `IpAddr::is_unspecified` and `IpAddr::is_multicast`
abbrev pub is_unspecified : IpAddr → Bool
is_unspecified (v4 a b c d) = is_unspecified_v4 a b c d
is_unspecified (v6 a b c d e f g h) = is_unspecified_v6 a b c d e f g h

abbrev pub is_multicast : IpAddr → Bool
is_multicast (v4 a b c d) = is_multicast_v4 a b c d
is_multicast (v6 a b c d e f g h) = is_multicast_v6 a

unfoldable pub is_contactable_port : ℕ → Bool
is_contactable_port port = leb 1024 port

unfoldable pub accepts_ip : AddrPolicy → IpAddr → Bool
accepts_ip public_only ip = is_routable_ip ip
accepts_ip allow_private ip = not (is_unspecified ip || (is_multicast ip || is_broadcast ip))

unfoldable pub accepts : AddrPolicy → IpAddr → ℕ → Bool
accepts policy ip port = is_contactable_port port && accepts_ip policy ip

-- `is_routable_peer_addr` on the result of parsing the text as a `SocketAddr`.
unfoldable pub is_routable_peer_addr : Option SocketAddr → Bool
is_routable_peer_addr (some sa) = is_contactable_port sa.port && is_routable_ip sa.ip
is_routable_peer_addr none = false
