-- ===== src/Dht/Sources/Proofs.antt =====
-- What proves an address, and how often it is challenged.
use p2pnas.Prelude.{
  ℕ, ◌-◌, ◌*◌, ◌≤◌, ◌<◌, ◌≡◌, refl, ◌≢◌, ◌↔◌, true, false, Option, none, some, length, leb, lt→ltb,
  leb→le, le→leb, Bool-cases, inl, inr,
}
use p2pnas.Prelude.Dict.{lookup, insert, lookup-insert_self, lookup-remove_self, lookup-remove_ne}
use p2pnas.Dht.Addr.{SocketAddr, socket_discrete}
use p2pnas.Dht.Sources.{
  SourceState, pending_ttl, ping_min_interval, prune, note_query, take_pending, allow_ping, second,
  answered_in_time, pinged_lately,
}
use p2pnas.Dht.Sources.Bounds.{prune_map_small}

-- An answer proves its source exactly if a query to that very address is outstanding and at most 120
-- seconds old. The query is consumed either way, and those to other addresses stay.
pub take_pending_iff :
    (s : SourceState) (addr other : SocketAddr) (now : ℕ)
    → addr ≢ other
    → (((take_pending s addr now).1 ≡ true)
        ↔ ((t : ℕ) × (lookup socket_discrete addr s.pending ≡ some t) × (now - t ≤ 120 * second)))
      × (lookup socket_discrete addr (take_pending s addr now).0.pending ≡ none)
      × (lookup socket_discrete other (take_pending s addr now).0.pending
          ≡ lookup socket_discrete other s.pending)
unfolding take_pending
take_pending_iff s addr other now ne = (
  in_time (lookup socket_discrete addr s.pending),
  lookup-remove_self socket_discrete addr s.pending,
  lookup-remove_ne socket_discrete addr other s.pending ne,
)
  where
    in_time :
        (o : Option ℕ)
        → (answered_in_time o now ≡ true) ↔ ((t : ℕ) × (o ≡ some t) × (now - t ≤ 120 * second))
    in_time none = (λ e. cc, λ (t, e, _). cc)
    in_time (some u) = (
      λ e. (u, refl, leb→le (now - u) pending_ttl e),
      λ (t, e, h). let same : u ≡ t = cc in rw same (le→leb (now - t) pending_ttl h),
    )

-- A query makes the next answer from its address a proof for 120 seconds, and only the next one.
pub take_pending-note_query :
    (s : SourceState) (addr : SocketAddr) (sent now later : ℕ)
    → now - sent ≤ 120 * second
    → ((take_pending (note_query s addr sent) addr now).1 ≡ true)
      × ((take_pending (take_pending (note_query s addr sent) addr now).0 addr later).1 ≡ false)
unfolding take_pending note_query
take_pending-note_query s addr sent now later h = (
  rw (lookup-insert_self socket_discrete addr sent (prune s sent).pending)
      (le→leb (now - sent) pending_ttl h),
  rw (
      lookup-remove_self socket_discrete addr
        (insert socket_discrete addr sent (prune s sent).pending)),
)

allow_ping_granted :
    (s : SourceState) (addr : SocketAddr) (t : ℕ)
    → (allow_ping s addr t).1 ≡ true
    → (allow_ping s addr t).0.pinged ≡ insert socket_discrete addr t (prune s t).pinged
unfolding allow_ping
allow_ping_granted s addr t e =
    elim (Bool-cases (pinged_lately (lookup socket_discrete addr (prune s t).pinged) t)) [
      | inl lately ↦ cc (rw lately at e)
      | inr free ↦ rw free refl
    ]

pinged-prune :
    (s : SourceState) (now : ℕ) → length s.pinged < 4096 → (prune s now).pinged ≡ s.pinged
unfolding prune
pinged-prune s now small = prune_map_small (λ t. leb (now - t) ping_min_interval) s.pinged small

allow_ping_recent :
    (s : SourceState) (addr : SocketAddr) (t now : ℕ)
    → lookup socket_discrete addr s.pinged ≡ some t
    → length s.pinged < 4096
    → now - t < 30 * second
    → (allow_ping s addr now).1 ≡ false
unfolding allow_ping
allow_ping_recent s addr t now held small h =
    rw (pinged-prune s now small) (rw held (rw (lt→ltb (now - t) ping_min_interval h) refl))

-- While fewer than 4096 addresses are tracked, an address that was just challenged is not challenged
-- again within 30 seconds.
pub allow_ping_throttle :
    (s : SourceState) (addr : SocketAddr) (t now : ℕ)
    → (allow_ping s addr t).1 ≡ true
    → length (allow_ping s addr t).0.pinged < 4096
    → now - t < 30 * second
    → (allow_ping (allow_ping s addr t).0 addr now).1 ≡ false
allow_ping_throttle s addr t now first small h =
    let stored : lookup socket_discrete addr (allow_ping s addr t).0.pinged ≡ some t =
      rw (allow_ping_granted s addr t first)
        (lookup-insert_self socket_discrete addr t (prune s t).pinged) in
    allow_ping_recent (allow_ping s addr t).0 addr t now stored small h
