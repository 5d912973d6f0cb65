-- ===== src/Server/Placement/Overflow.antt =====
-- The owner gets more than `parity` shards only where every peer is full.
use p2pnas.Prelude.{
  ℕ, zero, suc, ◌+◌, ◌≤◌, ◌<◌, ◌≡◌, refl, ◌∙◌, Bool, true, false, not, ◌&&◌, ltb, leb, ltb→lt, List,
  [], ◌∷◌, Option, none, some, replicate, length, length-replicate, arith, All, Bool-cases,
  Option-cases, Dec-cases, ◌⊎◌, inl, inr,
}
use p2pnas.Prelude.Dict.{Dict}
use p2pnas.Server.Placement.{
  Floats, Text, Placement, PeerCandidate, ZoneKey, unzoned_peer, zone_key, zone_load, Counts, load,
  score, skipped, Best, scan, self_best, pass, choose, flatten, count_in, place, slowest, alpha_of,
  self_key_of, plan_placement_zoned,
}
use p2pnas.Server.Placement.Caps.{
  placement_discrete, count, counts_moved, length-next, load-replicate, next,
  plan_placement_zoned-count,
}

module _ {F : Type 0} (f : Floats F) (self_key : ZoneKey) (alpha max_rtt : F) (parity : ℕ) where
  abbrev B : Type 0
  B = Best f self_key alpha max_rtt parity

  -- Every score of the peer is below infinity.
  abbrev pub IsFinite : PeerCandidate F → Type 0
  IsFinite p = (n : ℕ) → f.lt (score f self_key alpha max_rtt parity p n) f.infinity ≡ true

  skipped_relaxed :
      (zones : Dict ZoneKey ℕ) (key : ZoneKey) (n : ℕ)
      → skipped f self_key alpha max_rtt parity false zones key n ≡ true
      → parity ≤ n
  unfolding skipped
  skipped_relaxed zones key n e = ground arith

  -- Once a location is found, one stays found.
  scan-some :
      (honor : Bool) (zones : Dict ZoneKey ℕ) (i : ℕ) (ps : List (PeerCandidate F)) (ns : List ℕ)
      (best : B)
      → (scan f self_key alpha max_rtt parity honor zones i ps ns best).0 ≡ none
      → best.0 ≡ none
  unfolding scan
  scan-some honor zones i [] ns best e = e
  scan-some honor zones i (p ∷ ps) [] best e = e
  scan-some honor zones i (p ∷ ps) (n ∷ ns) best e =
      let key = zone_key p.zone (unzoned_peer i) in
      let later = scan-some honor zones (suc i) ps ns _ e in
      elim (Bool-cases (skipped f self_key alpha max_rtt parity honor zones key n)) [
        | inl skip ↦ rw skip at later
        | inr room ↦ elim (Bool-cases (f.lt (score f self_key alpha max_rtt parity p n) best.1)) [
          | inl better ↦ cc (rw (room, better) at later)
          | inr worse ↦ rw (room, worse) at later
        ]
      ]

  here_or_later :
      (ns : List ℕ) (n j : ℕ)
      → parity ≤ n
      → ((j' : ℕ) → j ≡ suc j' → parity ≤ load ns j')
      → parity ≤ load (n ∷ ns) j
  here_or_later ns n zero le later = le
  here_or_later ns n (suc j) le later = later j refl

  -- Where the relaxed pass finds nothing, every peer is full.
  scan-full :
      (zones : Dict ZoneKey ℕ) (i : ℕ) (ps : List (PeerCandidate F)) (ns : List ℕ) (j : ℕ)
      → (scan f self_key alpha max_rtt parity false zones i ps ns (none, f.infinity)).0 ≡ none
      → All IsFinite ps
      → j < length ps
      → length ns ≡ length ps
      → parity ≤ load ns j
  unfolding scan
  scan-full zones i [] ns j e fin lt len = absurd (omega arith)
  scan-full zones i (p ∷ ps) [] j e fin lt len = absurd (omega arith)
  scan-full zones i (p ∷ ps) (n ∷ ns) j e (finite, fin) lt len =
      let key = zone_key p.zone (unzoned_peer i) in
      let s = score f self_key alpha max_rtt parity p n in
      elim (Bool-cases (skipped f self_key alpha max_rtt parity false zones key n)) [
        | inl skip ↦ here_or_later ns n j (skipped_relaxed zones key n skip) (λ j' e'.
            scan-full zones (suc i) ps ns j' (rw (skip, scan) at e) fin (omega (arith, e', lt))
              (omega (arith, len)))
        | inr room ↦
            let found : (scan f self_key alpha max_rtt parity false zones (suc i) ps ns
                  (some (some i), s)).0
                ≡ none =
              rw (room, finite n, scan) at e in
            cc (scan-some false zones (suc i) ps ns (some (some i), s) found)
      ]

  -- The owner stays chosen only where it had room.
  scan-owner :
      (honor : Bool) (zones : Dict ZoneKey ℕ) (i : ℕ) (ps : List (PeerCandidate F)) (ns : List ℕ)
      (best : B)
      → (scan f self_key alpha max_rtt parity honor zones i ps ns best).0 ≡ some none
      → best.0 ≡ some none
  unfolding scan
  scan-owner honor zones i [] ns best e = e
  scan-owner honor zones i (p ∷ ps) [] best e = e
  scan-owner honor zones i (p ∷ ps) (n ∷ ns) best e =
      let key = zone_key p.zone (unzoned_peer i) in
      let later = scan-owner honor zones (suc i) ps ns _ e in
      elim (Bool-cases (skipped f self_key alpha max_rtt parity honor zones key n)) [
        | inl skip ↦ rw skip at later
        | inr room ↦ elim (Bool-cases (f.lt (score f self_key alpha max_rtt parity p n) best.1)) [
          | inl better ↦ cc (rw (room, better) at later)
          | inr worse ↦ rw (room, worse) at later
        ]
      ]

  self_best-owner :
      (honor : Bool) (st : Counts)
      → (self_best f self_key alpha max_rtt parity honor st).0 ≡ some none
      → st.self_count < parity
  unfolding self_best
  self_best-owner honor st e = elim (Bool-cases (ltb st.self_count parity)) [
    | inl room ↦ ltb→lt st.self_count parity room
    | inr no_room ↦ cc (rw no_room at e)
  ]

  self_best-none :
      (honor : Bool) (st : Counts)
      → (self_best f self_key alpha max_rtt parity honor st).0 ≡ none
      → self_best f self_key alpha max_rtt parity honor st ≡ (none, f.infinity)
  unfolding self_best
  self_best-none honor st e =
      elim (Bool-cases (
        ltb st.self_count parity && not (honor && leb parity (zone_load self_key st.zone_count)))) [
          | inl room ↦ cc (rw room at e)
          | inr no_room ↦ rw no_room refl
        ]

  -- The owner is chosen with room left, and nothing is chosen only where all peers are full.
  choose-owner :
      (peers : List (PeerCandidate F)) (st : Counts)
      → choose f self_key alpha max_rtt parity peers st ≡ some none
      → st.self_count < parity
  unfolding choose pass
  choose-owner peers st e =
      let in_pass : (honor : Bool)
          → pass f self_key alpha max_rtt parity honor peers st ≡ some none
          → st.self_count < parity =
        λ honor e'.
          self_best-owner honor st (scan-owner honor st.zone_count 0 peers st.peer_count _ e') in
      elim (Option-cases (pass f self_key alpha max_rtt parity true peers st)) [
        | inl nowhere ↦ in_pass false (rw (nowhere, choose) at e)
        | inr (p, found) ↦
            let same : ◌≡◌ {A = Option Placement} (some p) (some none) = rw (found, choose) at e in
            in_pass true (found ∙ same)
      ]

  choose-full :
      (peers : List (PeerCandidate F)) (st : Counts) (i : ℕ)
      → choose f self_key alpha max_rtt parity peers st ≡ none
      → All IsFinite peers
      → i < length peers
      → length st.peer_count ≡ length peers
      → parity ≤ load st.peer_count i
  unfolding choose pass
  choose-full peers st i e fin lt len =
      elim (Option-cases (pass f self_key alpha max_rtt parity true peers st)) [
        | inr (p, found) ↦ cc (rw (found, choose) at e)
        | inl nowhere ↦
            let last : pass f self_key alpha max_rtt parity false peers st ≡ none =
              rw (nowhere, choose) at e in
            let no_self = scan-some false st.zone_count 0 peers st.peer_count _ last in
            scan-full st.zone_count 0 peers st.peer_count i
              (rw (self_best-none false st no_self, pass) at last) fin lt len
      ]

  owner_moved :
      (peers : List (PeerCandidate F)) (st : Counts) (p : Placement) (plan : List Placement)
      → (next f self_key alpha max_rtt parity peers st p).self_count + count none plan
        ≡ st.self_count + count none (p ∷ plan)
  unfolding count count_in
  owner_moved peers st none plan = elim (Dec-cases (placement_discrete none none)) [
    | inl (e, d) ↦ rw (d, count) (omega arith)
    | inr (ne, _) ↦ absurd (ne refl)
  ]
  owner_moved peers st (some j) plan = elim (Dec-cases (placement_discrete (some j) none)) [
    | inl (e, _) ↦ cc
    | inr (_, d) ↦ rw (d, count) refl
  ]

  place-owner :
      (peers : List (PeerCandidate F)) (total : ℕ) (st : Counts) (i : ℕ)
      → All IsFinite peers
      → i < length peers
      → length st.peer_count ≡ length peers
      → st.self_count ≤ parity
      → (st.self_count + count none (place f self_key alpha max_rtt parity peers total st) ≤ parity)
        ⊎ (parity
            ≤ load st.peer_count i
              + count (some i) (place f self_key alpha max_rtt parity peers total st))
  unfolding place
  place-owner peers zero st i fin lt len le = inl (unfold count in omega (arith, le))
  place-owner peers (suc total) st i fin lt len le =
      let o = choose f self_key alpha max_rtt parity peers st in
      let p = flatten f self_key alpha max_rtt parity o in
      let st' = next f self_key alpha max_rtt parity peers st p in
      let plan = place f self_key alpha max_rtt parity peers total st' in
      elim (room_or_full o refl) [
        | inr full ↦ inr (omega (arith, full))
        | inl room ↦
            elim (place-owner peers total st' i fin lt
              (length-next f self_key alpha max_rtt parity peers st p ∙ len) room) [
                | inl within ↦ inl (omega (arith, within, owner_moved peers st p plan))
                | inr full ↦ inr (
                    omega (
                      arith,
                      full,
                      counts_moved f self_key alpha max_rtt parity peers st p plan i
                          (omega (arith, lt, len)),
                    ))
              ]
      ]
    where
      room_or_full :
          (o : Option Placement)
          → choose f self_key alpha max_rtt parity peers st ≡ o
          → ((next f self_key alpha max_rtt parity peers st
                (flatten f self_key alpha max_rtt parity o)).self_count
              ≤ parity)
            ⊎ (parity ≤ load st.peer_count i)
      room_or_full none e = inr (choose-full peers st i e fin lt len)
      room_or_full (some none) e = inl (unfold count_in in omega (arith, choose-owner peers st e))
      room_or_full (some (some j)) e = inl (unfold count_in in le)

-- Where every score is finite, the owner gets more than `parity` shards of a chunk only if every peer
-- gets exactly `parity`.
pub plan_placement_zoned-owner :
    {F : Type 0} (f : Floats F) (peers : List (PeerCandidate F)) (self_zone : Option Text)
    (total parity i : ℕ)
    → All
        (IsFinite f
          (self_key_of self_zone)
          (alpha_of f parity)
          (slowest f (Floats.of_usize f 1) peers)
          parity)
        peers
    → i < length peers
    → (count none (plan_placement_zoned f peers self_zone total parity) ≤ parity)
      ⊎ (count (some i) (plan_placement_zoned f peers self_zone total parity) ≡ parity)
unfolding plan_placement_zoned
plan_placement_zoned-owner f peers self_zone total parity i fin lt =
    let start : Counts = record {
      zone_count = [];
      peer_count = replicate (length peers) 0;
      self_count = 0;
    } in
    let none_yet = load-replicate (length peers) i in
    let capped = plan_placement_zoned-count f peers self_zone total parity i lt in
    elim (place-owner f (self_key_of self_zone) (alpha_of f parity)
      (slowest f (Floats.of_usize f 1) peers) parity peers total start i fin lt
      (length-replicate {A = ℕ} (length peers) 0) (omega arith)) [
        | inl within ↦ inl (omega (arith, within))
        | inr full ↦ inr (omega (arith, full, none_yet, capped))
      ]
