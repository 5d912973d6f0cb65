-- ===== src/Server/Placement.antt =====
-- server/src/placement.rs: `plan_placement_zoned`. Numbers of type `f64` and the operations on them
-- are a parameter, `Floats`.
pub mod Caps
pub mod Overflow
mod Examples
use native.Mathlib.Decide.{ℕ_discrete}
use p2pnas.Prelude.{
  ℕ, zero, suc, ◌+◌, Bool, true, false, not, ◌&&◌, ltb, leb, List, [], ◌∷◌, Option, none, some,
  replicate, set, length, if◌then◌else◌,
}
use p2pnas.Prelude.Dict.{Dict, lookup, insert}

pub record Floats (F : Type 0) : Type 0 where
  pub add : F → F → F
  pub sub : F → F → F
  pub mul : F → F → F
  pub div : F → F → F
  pub max : F → F → F
  pub clamp : F → F → F → F
  pub lt : F → F → Bool
  pub of_usize : ℕ → F
  pub infinity : F
  pub half : F

abbrev pub Text : Type 0
Text = List ℕ

-- `Some i` is the peer of that index, `None` the owner.
abbrev pub Placement : Type 0
Placement = Option ℕ

pub record PeerCandidate (F : Type 0) : Type 0 where
  pub rtt_ms : F
  pub zone : Option Text
  pub reliability : F

-- The texts `zone:…` and `unzoned-peer:…`, which are never equal.
pub data ZoneKey : Type 0 where
  zone : Text → ZoneKey
  unzoned_peer : ℕ → ZoneKey

unfoldable pub zone_discrete : Discrete ZoneKey
zone_discrete = hlevel ℕ_discrete

-- An empty label counts as none.
unfoldable pub zone_key : Option Text → ZoneKey → ZoneKey
zone_key none unlabelled = unlabelled
zone_key (some []) unlabelled = unlabelled
zone_key (some (c ∷ z)) unlabelled = zone (c ∷ z)

-- `get(key).copied().unwrap_or(0)`
abbrev pub zone_load : ZoneKey → Dict ZoneKey ℕ → ℕ
zone_load key m = elim (lookup zone_discrete key m) [ none ↦ 0 | some n ↦ n ]

pub record Counts : Type 0 where
  pub zone_count : Dict ZoneKey ℕ
  pub peer_count : List ℕ
  pub self_count : ℕ

-- `peer_count[i]`, for an index of a peer.
abbrev pub load : List ℕ → ℕ → ℕ
load [] i = 0
load (n ∷ ns) zero = n
load (n ∷ ns) (suc i) = load ns i

module _ {F : Type 0} (f : Floats F) (self_key : ZoneKey) (alpha max_rtt : F) (parity : ℕ) where
  unfoldable pub score : PeerCandidate F → ℕ → F
  score p count =
      let unreliability =
        f.sub (f.of_usize 1)
          (f.div (f.clamp p.reliability (f.of_usize 0) (f.of_usize 100)) (f.of_usize 100)) in
      f.add (f.add (f.div p.rtt_ms max_rtt) (f.mul alpha (f.of_usize count)))
        (f.mul f.half unreliability)

  -- `continue`: the peer or, where zones are honoured, its zone has no room.
  unfoldable pub skipped : Bool → Dict ZoneKey ℕ → ZoneKey → ℕ → Bool
  skipped honor_zones zones key count =
      if leb parity count then true else honor_zones && leb parity (zone_load key zones)

  abbrev pub Best : Type 0
  Best = Option Placement × F

  -- The loop over the peers from index `i` on, with their counts.
  unfoldable pub scan : Bool → Dict ZoneKey ℕ → ℕ → List (PeerCandidate F) → List ℕ → Best → Best
  scan honor_zones zones i [] counts best = best
  scan honor_zones zones i (p ∷ ps) [] best = best
  scan honor_zones zones i (p ∷ ps) (n ∷ ns) best = scan honor_zones zones (suc i) ps ns (
      if skipped honor_zones zones (zone_key p.zone (unzoned_peer i)) n
      then best
      else if f.lt (score p n) best.1
      then (some (some i), score p n)
      else best)

  unfoldable pub self_best : Bool → Counts → Best
  self_best honor_zones st =
      if ltb st.self_count parity
        && not (honor_zones && leb parity (zone_load self_key st.zone_count))
      then (some none, f.mul alpha (f.of_usize st.self_count))
      else (none, f.infinity)

  unfoldable pub pass : Bool → List (PeerCandidate F) → Counts → Option Placement
  pass honor_zones peers st =
      (scan honor_zones st.zone_count 0 peers st.peer_count (self_best honor_zones st)).0

  -- Two passes: the zone caps are relaxed only if that leaves nowhere to go.
  unfoldable pub choose : List (PeerCandidate F) → Counts → Option Placement
  choose peers st = elim (pass true peers st) [ some p ↦ some p | none ↦ pass false peers st ]

  abbrev pub flatten : Option Placement → Placement
  flatten none = none
  flatten (some p) = p

  abbrev pub key_of : ℕ → ℕ → List (PeerCandidate F) → ZoneKey
  key_of i j [] = unzoned_peer i
  key_of i zero (p ∷ ps) = zone_key p.zone (unzoned_peer i)
  key_of i (suc j) (p ∷ ps) = key_of i j ps

  unfoldable pub count_in : List (PeerCandidate F) → Counts → Placement → Counts
  count_in peers st none = record st {
    zone_count = insert zone_discrete self_key (zone_load self_key st.zone_count + 1) st.zone_count;
    self_count = st.self_count + 1;
  }
  count_in peers st (some i) = record st {
    zone_count =
        insert zone_discrete (key_of i i peers) (zone_load (key_of i i peers) st.zone_count + 1)
          st.zone_count;
    peer_count = set st.peer_count i (load st.peer_count i + 1);
  }

  -- The loop over the shards.
  unfoldable pub place : List (PeerCandidate F) → ℕ → Counts → List Placement
  place peers zero st = []
  place peers (suc total) st =
      let placement = flatten (choose peers st) in
      placement ∷ place peers total (count_in peers st placement)

-- `fold(1.0, f64::max)` over the round trips.
unfoldable pub slowest : {F : Type 0} → Floats F → F → List (PeerCandidate F) → F
slowest f acc [] = acc
slowest f acc (p ∷ ps) = slowest f (Floats.max f acc p.rtt_ms) ps

-- `1.0 / parity.max(1)`
abbrev pub alpha_of : {F : Type 0} → Floats F → ℕ → F
alpha_of f parity =
    Floats.div f (Floats.of_usize f 1) (Floats.of_usize f (if leb 1 parity then parity else 1))

abbrev pub self_key_of : Option Text → ZoneKey
self_key_of self_zone = zone_key self_zone (zone (b'@' ∷ b's' ∷ b'e' ∷ b'l' ∷ b'f' ∷ []))

unfoldable pub plan_placement_zoned :
    {F : Type 0} → Floats F → List (PeerCandidate F) → Option Text → ℕ → ℕ → List Placement
plan_placement_zoned f peers self_zone total parity =
    place f (self_key_of self_zone) (alpha_of f parity) (slowest f (Floats.of_usize f 1) peers)
      parity peers total
      (record { zone_count = []; peer_count = replicate (length peers) 0; self_count = 0 })
