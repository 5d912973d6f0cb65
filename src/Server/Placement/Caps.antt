-- ===== src/Server/Placement/Caps.antt =====
-- The cap per location: no peer gets more than `parity` shards, and the owner only when all are full.
use p2pnas.Prelude.{
  ℕ, zero, suc, ◌+◌, ◌≤◌, ◌<◌, ◌≡◌, refl, sym, ap, ◌∙◌, ◌≢◌, Bool, true, false, not, ◌&&◌, ltb, leb,
  List, [], ◌∷◌, Option, none, some, replicate, set, length, length-replicate, length-set, arith,
  Option-cases, Dec-cases, inl, inr, if◌then◌else◌,
}
use native.Mathlib.Decide.{ℕ_discrete}
use p2pnas.Prelude.Dict.{Dict}
use p2pnas.Server.Placement.{
  Floats, Text, Placement, PeerCandidate, ZoneKey, unzoned_peer, zone_key, Counts, load, score,
  skipped, Best, scan, self_best, pass, zone_load, choose, flatten, count_in, place, slowest,
  alpha_of, self_key_of, plan_placement_zoned,
}

pub placement_discrete : Discrete Placement
placement_discrete = hlevel ℕ_discrete

-- How many shards of a plan a location gets.
unfoldable pub count : Placement → List Placement → ℕ
count p [] = 0
count p (q ∷ plan) =
    let rest = count p plan in elim (placement_discrete q p) [ yes _ ↦ suc rest | no _ ↦ rest ]

load-set_self : (ns : List ℕ) (i v : ℕ) → i < length ns → load (set ns i v) i ≡ v
load-set_self [] i v lt = absurd (omega arith)
load-set_self (n ∷ ns) zero v lt = refl
load-set_self (n ∷ ns) (suc i) v lt = load-set_self ns i v (omega arith)

load-set_ne : (ns : List ℕ) (i j v : ℕ) → i ≢ j → load (set ns i v) j ≡ load ns j
load-set_ne [] i j v ne = refl
load-set_ne (n ∷ ns) zero zero v ne = absurd (ne refl)
load-set_ne (n ∷ ns) zero (suc j) v ne = refl
load-set_ne (n ∷ ns) (suc i) zero v ne = refl
load-set_ne (n ∷ ns) (suc i) (suc j) v ne = load-set_ne ns i j v (λ e. ne (ap suc e))

pub load-replicate : (n i : ℕ) → load (replicate n 0) i ≡ 0
load-replicate zero i = refl
load-replicate (suc n) zero = refl
load-replicate (suc n) (suc i) = load-replicate n i

-- What holds on both branches holds of the whole.
branches :
    {A : Type 0} (P : A → Type 0) (b : Bool) (x y : A)
    → (b ≡ true → P x)
    → (b ≡ false → P y)
    → P (if b then x else y)
branches P true x y h k = h refl
branches P false x y h k = k refl

module _ {F : Type 0} (f : Floats F) (self_key : ZoneKey) (alpha max_rtt : F) (parity : ℕ) where
  -- A peer that is chosen has room.
  abbrev pub HasRoom : List ℕ → Option Placement → Type 0
  HasRoom all none = Unit {0}
  HasRoom all (some none) = Unit {0}
  HasRoom all (some (some j)) = load all j < parity

  skipped_full :
      (honor : Bool) (zones : Dict ZoneKey ℕ) (key : ZoneKey) (n : ℕ)
      → skipped f self_key alpha max_rtt parity honor zones key n ≡ false
      → n < parity
  unfolding skipped
  skipped_full honor zones key n e = ground arith

  -- `all` is the list of counts of which `ns` are those from index `i` on.
  scan-HasRoom :
      (honor : Bool) (zones : Dict ZoneKey ℕ) (i : ℕ) (ps : List (PeerCandidate F))
      (ns all : List ℕ) (best : Best f self_key alpha max_rtt parity)
      → ((j : ℕ) → load ns j ≡ load all (i + j))
      → HasRoom all best.0
      → HasRoom all (scan f self_key alpha max_rtt parity honor zones i ps ns best).0
  unfolding scan
  scan-HasRoom honor zones i [] ns all best same h = h
  scan-HasRoom honor zones i (p ∷ ps) [] all best same h = h
  scan-HasRoom honor zones i (p ∷ ps) (n ∷ ns) all best same h =
      let key = zone_key p.zone (unzoned_peer i) in
      let later : (j : ℕ) → load ns j ≡ load all (suc i + j) =
        λ j. same (suc j) ∙ ap (load all) (let e : i + suc j ≡ suc i + j = omega arith in e) in
      let here : n ≡ load all i = same 0 ∙ ap (load all) (let e : i + 0 ≡ i = omega arith in e) in
      scan-HasRoom honor zones (suc i) ps ns all _ later (
        branches (λ (b : Best f self_key alpha max_rtt parity). HasRoom all b.0)
          (skipped f self_key alpha max_rtt parity honor zones key n) _ _ (λ _. h)
          (λ room.
            branches (λ (b : Best f self_key alpha max_rtt parity). HasRoom all b.0)
              (f.lt (score f self_key alpha max_rtt parity p n) best.1) _ _
              (λ _. omega (arith, here, skipped_full honor zones key n room)) (λ _. h)))

  self_best-HasRoom :
      (all : List ℕ) (honor : Bool) (st : Counts)
      → HasRoom all (self_best f self_key alpha max_rtt parity honor st).0
  unfolding self_best
  self_best-HasRoom all honor st =
      branches (λ (b : Best f self_key alpha max_rtt parity). HasRoom all b.0)
        (ltb st.self_count parity && not (honor && leb parity (zone_load self_key st.zone_count)))
        (some none, f.mul alpha (f.of_usize st.self_count)) (none, f.infinity) (λ _. tt) (λ _. tt)

  choose-HasRoom :
      (peers : List (PeerCandidate F)) (st : Counts)
      → HasRoom st.peer_count (choose f self_key alpha max_rtt parity peers st)
  unfolding choose pass
  choose-HasRoom peers st =
      let in_pass : (honor : Bool)
          → HasRoom st.peer_count (pass f self_key alpha max_rtt parity honor peers st) =
        λ honor.
          scan-HasRoom honor st.zone_count 0 peers st.peer_count st.peer_count
            (self_best f self_key alpha max_rtt parity honor st)
            (λ j. ap (load st.peer_count) (let e : j ≡ 0 + j = omega arith in e))
            (self_best-HasRoom st.peer_count honor st) in
      elim (Option-cases (pass f self_key alpha max_rtt parity true peers st)) [
        | inl nowhere ↦ rw (nowhere, choose) (in_pass false)
        | inr (p, found) ↦ rw (found, choose) (rw found at (in_pass true))
      ]

  abbrev pub next : List (PeerCandidate F) → Counts → Placement → Counts
  next peers st p = count_in f self_key alpha max_rtt parity peers st p

  -- What a peer has and what it still gets: a step moves one shard from the one to the other.
  pub counts_moved :
      (peers : List (PeerCandidate F)) (st : Counts) (p : Placement) (plan : List Placement) (i : ℕ)
      → i < length st.peer_count
      → load (next peers st p).peer_count i + count (some i) plan
        ≡ load st.peer_count i + count (some i) (p ∷ plan)
  unfolding count count_in
  counts_moved peers st none plan i lt = elim (Dec-cases (placement_discrete none (some i))) [
    | inl (e, _) ↦ cc
    | inr (_, d) ↦ rw (d, count) refl
  ]
  counts_moved peers st (some j) plan i lt =
      elim (Dec-cases (placement_discrete (some j) (some i))) [
        | inl (e, d) ↦
            let same : j ≡ i = cc in
            let here : load (set st.peer_count j (load st.peer_count j + 1)) i
                ≡ load st.peer_count i + 1 =
              rw same (load-set_self st.peer_count i (load st.peer_count i + 1) lt) in
            rw (d, count) (omega (arith, here))
        | inr (ne, d) ↦
            rw
              (
                d,
                count,
                load-set_ne st.peer_count j i (load st.peer_count j + 1) (λ e. ne (ap some e)),
              )
              refl
      ]

  next-le :
      (peers : List (PeerCandidate F)) (st : Counts) (o : Option Placement) (i : ℕ)
      → i < length st.peer_count
      → HasRoom st.peer_count o
      → load st.peer_count i ≤ parity
      → load (next peers st (flatten f self_key alpha max_rtt parity o)).peer_count i ≤ parity
  unfolding count_in
  next-le peers st none i lt room le = le
  next-le peers st (some none) i lt room le = le
  next-le peers st (some (some j)) i lt room le = elim (ℕ_discrete j i) [
    | yes same ↦
        let here : load (set st.peer_count j (load st.peer_count j + 1)) i
            ≡ load st.peer_count i + 1 =
          rw same (load-set_self st.peer_count i (load st.peer_count i + 1) lt) in
        let fits : load st.peer_count i < parity = rw (sym same) room in omega (arith, here, fits)
    | no ne ↦ omega (arith, load-set_ne st.peer_count j i (load st.peer_count j + 1) ne, le)
  ]

  pub length-next :
      (peers : List (PeerCandidate F)) (st : Counts) (p : Placement)
      → length (next peers st p).peer_count ≡ length st.peer_count
  unfolding count_in
  length-next peers st none = refl
  length-next peers st (some j) = length-set st.peer_count j (load st.peer_count j + 1)

  pub place-count :
      (peers : List (PeerCandidate F)) (total : ℕ) (st : Counts) (i : ℕ)
      → i < length st.peer_count
      → load st.peer_count i ≤ parity
      → load st.peer_count i + count (some i) (place f self_key alpha max_rtt parity peers total st)
        ≤ parity
  unfolding place
  place-count peers zero st i lt le = unfold count in omega (arith, le)
  place-count peers (suc total) st i lt le =
      let o = choose f self_key alpha max_rtt parity peers st in
      let p = flatten f self_key alpha max_rtt parity o in
      let plan = place f self_key alpha max_rtt parity peers total (next peers st p) in
      let rest =
        place-count peers total (next peers st p) i (omega (arith, length-next peers st p, lt))
          (next-le peers st o i lt (choose-HasRoom peers st) le) in
      omega (arith, rest, counts_moved peers st p plan i lt)

-- No peer of the list gets more than `parity` shards of a chunk, whatever the latencies, zones and
-- scores are.
pub plan_placement_zoned-count :
    {F : Type 0} (f : Floats F) (peers : List (PeerCandidate F)) (self_zone : Option Text)
    (total parity i : ℕ)
    → i < length peers
    → count (some i) (plan_placement_zoned f peers self_zone total parity) ≤ parity
unfolding plan_placement_zoned
plan_placement_zoned-count f peers self_zone total parity i lt =
    let start : Counts = record {
      zone_count = [];
      peer_count = replicate (length peers) 0;
      self_count = 0;
    } in
    let none_yet = load-replicate (length peers) i in
    let all_size = length-replicate {A = ℕ} (length peers) 0 in
    let h =
      place-count f (self_key_of self_zone) (alpha_of f parity)
        (slowest f (Floats.of_usize f 1) peers) parity peers total start i
        (omega (arith, all_size, lt)) (omega (arith, none_yet)) in
    omega (arith, h, none_yet)
