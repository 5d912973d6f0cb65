-- ===== src/Prelude/Kept.antt =====
-- What is left of a list when some entries are lost: a list of options of the same length.
use Prim.Native.Nat.{ℕ, zero, suc, ◌+◌, ◌≤◌}
use mathlib.Core.Path.{◌≡◌, refl}
use mathlib.Core.List.{List, [], ◌∷◌, ◌++◌}
use mathlib.Core.Option.{Option, none, some}
use mathlib.Core.Logic.{◌⊎◌, inl, inr}
use p2pnas.Prelude.Lists.{length, take, drop, get_elem?}
use native.Mathlib.Omega.{arith}

module _ {A : Type 0} where
  -- An entry is lost or as it was.
  abbrev pub KeptOne : Option A → A → Type 0
  KeptOne none a = Unit {0}
  KeptOne (some b) a = b ≡ a

  abbrev pub Kept : List (Option A) → List A → Type 0
  Kept [] [] = Unit {0}
  Kept [] (a ∷ as') = ⊥
  Kept (o ∷ os) [] = ⊥
  Kept (o ∷ os) (a ∷ as') = KeptOne o a × Kept os as'

  -- How many entries are held.
  abbrev pub held : List (Option A) → ℕ
  held [] = 0
  held (none ∷ os) = held os
  held (some a ∷ os) = suc (held os)

  pub held-append : (os os' : List (Option A)) → held (os ++ os') ≡ held os + held os'
  held-append [] os' = omega arith
  held-append (none ∷ os) os' = held-append os os'
  held-append (some a ∷ os) os' = omega (arith, held-append os os')

  pub held-le : (os : List (Option A)) (as' : List A) → Kept os as' → held os ≤ length as'
  held-le [] [] h = omega arith
  held-le [] (a ∷ as') h = absurd h
  held-le (o ∷ os) [] h = absurd h
  held-le (none ∷ os) (a ∷ as') (_, h) = omega (arith, held-le os as' h)
  held-le (some b ∷ os) (a ∷ as') (_, h) = omega (arith, held-le os as' h)

  -- What is left of a sum falls into what is left of its parts.
  pub Kept-append :
      (os : List (Option A)) (xs ys : List A)
      → Kept os (xs ++ ys)
      → Kept (take (length xs) os) xs × Kept (drop (length xs) os) ys
  Kept-append os [] ys h = (tt, h)
  Kept-append [] (x ∷ xs) ys h = absurd h
  Kept-append (o ∷ os) (x ∷ xs) ys (h, hs) =
      let (front, back) = Kept-append os xs ys hs in ((h, front), back)

  -- An entry is there as it was, or known to be lost.
  pub Kept-get_elem? :
      (os : List (Option A)) (xs : List A) (i : ℕ) {x : A}
      → Kept os xs
      → get_elem? xs i ≡ some x
      → (get_elem? os i ≡ some (some x)) ⊎ (get_elem? os i ≡ some none)
  Kept-get_elem? [] [] i h e = cc
  Kept-get_elem? [] (y ∷ xs) i h e = absurd h
  Kept-get_elem? (o ∷ os) [] i h e = absurd h
  Kept-get_elem? (none ∷ os) (y ∷ xs) zero h e = inr refl
  Kept-get_elem? (some b ∷ os) (y ∷ xs) zero (same, _) e = inl (cc)
  Kept-get_elem? (o ∷ os) (y ∷ xs) (suc i) (_, h) e = Kept-get_elem? os xs i h e
