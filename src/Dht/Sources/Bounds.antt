-- ===== src/Dht/Sources/Bounds.antt =====
-- The three maps never grow past their cap, whatever the traffic.
use p2pnas.Prelude.{
  ℕ, ◌+◌, ◌≤◌, ◌<◌, ◌≡◌, Bool, arith, length, leb, leb→gt, gt→leb, Bool-cases, inl, inr,
}
use p2pnas.Prelude.Dict.{Dict, lookup, retain, length-insert, length-remove}
use p2pnas.Dht.Addr.{IpAddr, SocketAddr, ip_discrete, socket_discrete}
use p2pnas.Dht.Sources.{
  SourceState, prune_map, prune, charge, allow_learn, note_query, take_pending, allow_ping, slot_of,
  pinged_lately, default, learn_per_window,
}

pub record IsBounded (s : SourceState) : Type 0 where
  pub learn : length s.learn ≤ 4096
  pub pending : length s.pending ≤ 4096
  pub pinged : length s.pinged ≤ 4096

prune_map-lt : {K V : Type 0} (keep : V → Bool) (m : Dict K V) → length (prune_map keep m) < 4096
unfolding prune_map
prune_map-lt keep m = elim (Bool-cases (leb 4096 (length m))) [
  | inl large ↦ elim (Bool-cases (leb 4096 (length (retain keep m)))) [
    | inl still ↦ rw (large, still) (omega arith)
    | inr fits ↦ rw (large, fits) (leb→gt 4096 (length (retain keep m)) fits)
  ]
  | inr fits ↦ rw fits (leb→gt 4096 (length m) fits)
]

-- After pruning there is room for one more entry in each map.
pub prune-lt :
    (s : SourceState) (now : ℕ)
    → (length (prune s now).learn < 4096)
      × (length (prune s now).pending < 4096)
      × (length (prune s now).pinged < 4096)
unfolding prune
prune-lt s now = (prune_map-lt _ s.learn, prune_map-lt _ s.pending, prune_map-lt _ s.pinged)

pub default-IsBounded : IsBounded default
unfolding default
default-IsBounded = record { learn = omega arith; pending = omega arith; pinged = omega arith }

-- Starting empty, every operation on the bookkeeping keeps each map at 4096 entries or fewer: those
-- that prune first do so from any state.
pub maps_capped :
    (s : SourceState) (ip : IpAddr) (addr : SocketAddr) (now : ℕ)
    → IsBounded s
    → IsBounded default
      × IsBounded (allow_learn s ip now).0
      × IsBounded (note_query s addr now)
      × IsBounded (take_pending s addr now).0
      × IsBounded (allow_ping s addr now).0
unfolding allow_learn charge note_query take_pending allow_ping default
maps_capped s ip addr now h =
    let (l, p, g) = prune-lt s now in
    let s' = prune s now in
    let slot = slot_of (lookup ip_discrete ip s'.learn) now in
    (
      record { learn = omega arith; pending = omega arith; pinged = omega arith },
      elim (Bool-cases (leb learn_per_window slot.1)) [
        | inl spent ↦ rw spent (record {
          learn = omega (arith, length-insert ip_discrete ip slot s'.learn);
          pending = omega arith;
          pinged = omega arith;
        })
        | inr left ↦ rw left (record {
          learn = omega (arith, length-insert ip_discrete ip (slot.0, slot.1 + 1) s'.learn);
          pending = omega arith;
          pinged = omega arith;
        })
      ],
      record {
        learn = omega arith;
        pending = omega (arith, length-insert socket_discrete addr now s'.pending);
        pinged = omega arith;
      },
      record {
        learn = h.learn;
        pending = omega (arith, length-remove socket_discrete addr s.pending, h.pending);
        pinged = h.pinged;
      },
      elim (Bool-cases (pinged_lately (lookup socket_discrete addr s'.pinged) now)) [
        | inl lately ↦
            rw lately (record { learn = omega arith; pending = omega arith; pinged = omega arith })
        | inr free ↦ rw free (record {
          learn = omega arith;
          pending = omega arith;
          pinged = omega (arith, length-insert socket_discrete addr now s'.pinged);
        })
      ],
    )

-- Pruning changes nothing while the map is below the cap.
pub prune_map_small :
    {K V : Type 0} (keep : V → Bool) (m : Dict K V) → length m < 4096 → prune_map keep m ≡ m
unfolding prune_map
prune_map_small keep m h = rw (gt→leb 4096 (length m) h)
