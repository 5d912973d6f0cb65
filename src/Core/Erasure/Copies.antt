-- ===== src/Core/Erasure/Copies.antt =====
-- A code that meets the laws, for the examples: each recovery shard is a framed copy of all the
-- originals.
use p2pnas.Prelude.{
  ℕ, zero, suc, ◌+◌, ◌≤◌, ◌<◌, ◌≡◌, refl, ap, ◌∙◌, List, [], ◌∷◌, arith, Option, none, some, length,
  take, drop, replicate, get_elem?, length-append, take-append, drop-append, ◌⊎◌, inl, inr,
}
use mathlib.Core.Path.{ap₂, subst}
use p2pnas.Prelude.Kept.{Kept, held, held-le}
use p2pnas.Prelude.Results.{ok}
use p2pnas.Core.Bytes.{Bytes}
use p2pnas.Core.Bytes.Prefix.{joined}
use p2pnas.Core.Erasure.Code.{Code, IsErasureCode, enumerated}

abbrev pub frame : List Bytes → Bytes
frame = joined (λ n. n ∷ [])

abbrev pub unframe : ℕ → Bytes → List Bytes
unframe zero xs = []
unframe (suc fuel) [] = []
unframe (suc fuel) (n ∷ xs) = take n xs ∷ unframe fuel (drop n xs)

unframe-frame : (ps : List Bytes) (fuel : ℕ) → length ps ≤ fuel → unframe fuel (frame ps) ≡ ps
unframe-frame [] zero h = refl
unframe-frame [] (suc fuel) h = refl
unframe-frame (p ∷ ps) zero h = absurd (omega arith)
unframe-frame (p ∷ ps) (suc fuel) h =
    ap₂ (λ a b. a ∷ b) (take-append p (frame ps))
      (ap (unframe fuel) (drop-append p (frame ps)) ∙ unframe-frame ps fuel (omega arith))

length-frame : (ps : List Bytes) → length ps ≤ length (frame ps)
length-frame [] = omega arith
length-frame (p ∷ ps) = omega (arith, length-append p (frame ps), length-frame ps)

abbrev restore_from : List (ℕ × Bytes) → ℕ → Option Bytes
restore_from [] i = none
restore_from ((j, r) ∷ rest) i = get_elem? (unframe (length r) r) i

abbrev pub copies : Code
copies = record {
  encode = λ d p originals. ok (replicate p (frame originals));
  decode = λ d p originals recovery. ok (restore_from recovery);
}

-- A lost entry is not held.
held_lost :
    (os : List (Option Bytes)) (xs : List Bytes) (i : ℕ)
    → Kept os xs
    → get_elem? os i ≡ some none
    → held os < length xs
held_lost [] xs i h e = cc
held_lost (o ∷ os) [] i h e = absurd h
held_lost (none ∷ os) (x ∷ xs) i (_, h) e = omega (arith, held-le os xs h)
held_lost (some v ∷ os) (x ∷ xs) zero h e = cc
held_lost (some v ∷ os) (x ∷ xs) (suc i) (_, h) e = omega (arith, held_lost os xs i h e)

-- Of equal shards either none is held, or the first that is held is that shard.
first_held :
    (os : List (Option Bytes)) (m k : ℕ) (r : Bytes)
    → Kept os (replicate m r)
    → (held os ≡ 0) ⊎ (restore_from (enumerated k os) ≡ get_elem? (unframe (length r) r))
unfolding enumerated
first_held [] m k r h = inl refl
first_held (o ∷ os) zero k r h = absurd h
first_held (none ∷ os) (suc m) k r (_, h) = first_held os m (suc k) r h
first_held (some v ∷ os) (suc m) k r (e, h) = inr (ap (λ x. get_elem? (unframe (length x) x)) e)

restores :
    (originals recovery : List Bytes) (kept_o kept_r : List (Option Bytes))
    → length originals ≡ 10
    → recovery ≡ replicate 4 (frame originals)
    → Kept kept_o originals
    → Kept kept_r recovery
    → 10 ≤ held kept_o + held kept_r
    → (i : ℕ) → get_elem? kept_o i ≡ some none
    → restore_from (enumerated 0 kept_r) i ≡ get_elem? originals i
restores originals recovery kept_o kept_r count e ko kr enough i lost =
    elim (first_held kept_r 4 0 (frame originals) (subst (Kept kept_r) e kr)) [
      | inl nothing ↦ absurd (omega (arith, held_lost kept_o originals i ko lost))
      | inr there ↦
          ap (λ (f : ℕ → Option Bytes). f i) there
          ∙ ap (λ ps. get_elem? ps i)
              (unframe-frame originals (length (frame originals)) (length-frame originals))
    ]

all_copies :
    (originals recovery : List Bytes)
    → copies.encode 10 4 originals ≡ ok recovery
    → recovery ≡ replicate 4 (frame originals)
all_copies originals recovery e = cc

pub copies-IsErasureCode : IsErasureCode copies
copies-IsErasureCode = record {
  recovery_count = λ originals recovery e. ap length (all_copies originals recovery e);
  decode_encode = λ sl originals recovery kept_o kept_r count lengths e ko kr enough. (
    restore_from (enumerated 0 kept_r),
    refl,
    restores originals recovery kept_o kept_r count (all_copies originals recovery e) ko kr enough,
  );
}
