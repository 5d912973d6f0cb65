-- ===== src/Server/Placement/Examples.antt =====
-- A chunk of four shards over two peers of one zone, with whole numbers for scores.

use p2pnas.Prelude.{
  ℕ, ◌+◌, ◌-◌, ◌*◌, ◌/◌, ◌≤◌, ltb, [], ◌∷◌, none, some, arith, min, max, refl, ◌⊎◌, ◌≡◌,
}
use p2pnas.Server.Placement.{
  Floats, PeerCandidate, score, slowest, alpha_of, self_key_of, plan_placement_zoned,
}
use p2pnas.Server.Placement.Caps.{count, plan_placement_zoned-count}
use p2pnas.Server.Placement.Overflow.{IsFinite, plan_placement_zoned-owner}

abbrev whole : Floats ℕ
whole = record {
  add = λ a b. a + b;
  sub = λ a b. a - b;
  mul = λ a b. a * b;
  div = λ a b. a / b;
  max = λ a b. max a b;
  clamp = λ a lo hi. min (max a lo) hi;
  lt = ltb;
  of_usize = λ n. n;
  infinity = 1_000_000;
  half = 1;
}

abbrev neighbour : PeerCandidate ℕ
neighbour = record { rtt_ms = 10; zone = some (b'a' ∷ []); reliability = 100 }

plan_placement_zoned-count_example :
    count (some 1) (plan_placement_zoned whole (neighbour ∷ neighbour ∷ []) none 4 2) ≤ 2
plan_placement_zoned-count_example =
    plan_placement_zoned-count whole (neighbour ∷ neighbour ∷ []) none 4 2 1 (omega arith)

-- The same with no count term, so that every score is small.
abbrev flat : Floats ℕ
flat = record whole { mul = λ a b. 0 }

neighbour-IsFinite :
    IsFinite flat
      (self_key_of none)
      (alpha_of flat 1)
      (slowest flat 1 (neighbour ∷ neighbour ∷ []))
      1
      neighbour
unfolding score slowest
neighbour-IsFinite n = refl

plan_placement_zoned-owner_example :
    (count none (plan_placement_zoned flat (neighbour ∷ neighbour ∷ []) none 14 1) ≤ 1)
    ⊎ (count (some 0) (plan_placement_zoned flat (neighbour ∷ neighbour ∷ []) none 14 1) ≡ 1)
plan_placement_zoned-owner_example =
    plan_placement_zoned-owner flat (neighbour ∷ neighbour ∷ []) none 14 1 0
      (neighbour-IsFinite, (neighbour-IsFinite, tt)) (omega arith)
