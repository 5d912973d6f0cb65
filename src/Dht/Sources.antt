-- ===== src/Dht/Sources.antt =====
-- p2p/src/dht.rs: `SourceState`, what the node remembers of the sources it hears from. The maps are
-- dictionaries, and instants and durations are numbers of nanoseconds.
pub mod Bounds
pub mod Budget
pub mod Proofs
use p2pnas.Prelude.{
  ℕ, ◌+◌, ◌-◌, ◌*◌, Bool, true, false, ltb, leb, List, [], Option, none, some, length,
  if◌then◌else◌,
}
use p2pnas.Prelude.Dict.{Dict, lookup, insert, remove, retain}
use p2pnas.Dht.Addr.{IpAddr, SocketAddr, ip_discrete, socket_discrete}

abbrev pub learn_per_window : ℕ
learn_per_window = 16

abbrev pub second : ℕ
second = 1_000_000_000

abbrev pub learn_window : ℕ
learn_window = 60 * second

abbrev pub pending_ttl : ℕ
pending_ttl = 120 * second

abbrev pub ping_min_interval : ℕ
ping_min_interval = 30 * second

abbrev pub max_tracked_sources : ℕ
max_tracked_sources = 4096

pub record SourceState : Type 0 where
  -- The start of the window and the new entries in it.
  pub learn : Dict IpAddr (ℕ × ℕ)
  pub pending : Dict SocketAddr ℕ
  pub pinged : Dict SocketAddr ℕ

unfoldable pub default : SourceState
default = record { learn = []; pending = []; pinged = [] }

-- Expired entries go first; a map that is still too large is cleared.
unfoldable pub prune_map : {K V : Type 0} → (V → Bool) → Dict K V → Dict K V
prune_map keep m =
    if leb max_tracked_sources (length m)
    then (let kept = retain keep m in if leb max_tracked_sources (length kept) then [] else kept)
    else m

unfoldable pub prune : SourceState → ℕ → SourceState
unfolding prune_map
prune s now = record {
  learn = prune_map (λ (slot : ℕ × ℕ). leb (now - slot.0) learn_window) s.learn;
  pending = prune_map (λ t. leb (now - t) pending_ttl) s.pending;
  pinged = prune_map (λ t. leb (now - t) ping_min_interval) s.pinged;
}

-- The slot of a source: as stored, new, or reset because its window is over.
abbrev pub slot_of : Option (ℕ × ℕ) → ℕ → ℕ × ℕ
slot_of none now = (now, 0)
slot_of (some (start, count)) now =
    if ltb learn_window (now - start) then (now, 0) else (start, count)

unfoldable pub charge : SourceState → IpAddr → ℕ × ℕ → SourceState × Bool
charge s ip slot =
    if leb learn_per_window slot.1
    then (record s { learn = insert ip_discrete ip slot s.learn }, false)
    else (record s { learn = insert ip_discrete ip (slot.0, slot.1 + 1) s.learn }, true)

unfoldable pub allow_learn : SourceState → IpAddr → ℕ → SourceState × Bool
unfolding charge
allow_learn s ip now =
    let s' = prune s now in charge s' ip (slot_of (lookup ip_discrete ip s'.learn) now)

unfoldable pub note_query : SourceState → SocketAddr → ℕ → SourceState
note_query s addr now =
    let s' = prune s now in record s' { pending = insert socket_discrete addr now s'.pending }

abbrev pub answered_in_time : Option ℕ → ℕ → Bool
answered_in_time none now = false
answered_in_time (some t) now = leb (now - t) pending_ttl

unfoldable pub take_pending : SourceState → SocketAddr → ℕ → SourceState × Bool
take_pending s addr now = (
  record s { pending = remove socket_discrete addr s.pending },
  answered_in_time (lookup socket_discrete addr s.pending) now,
)

abbrev pub pinged_lately : Option ℕ → ℕ → Bool
pinged_lately none now = false
pinged_lately (some t) now = ltb (now - t) ping_min_interval

unfoldable pub allow_ping : SourceState → SocketAddr → ℕ → SourceState × Bool
allow_ping s addr now =
    let s' = prune s now in
    if pinged_lately (lookup socket_discrete addr s'.pinged) now
    then (s', false)
    else (record s' { pinged = insert socket_discrete addr now s'.pinged }, true)
