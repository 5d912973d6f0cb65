-- ===== src/Core/Erasure/Stripe.antt =====
-- The stripes of a chunk as a plain recursion: `n` blocks of `sl` bytes, the last ones padded by
-- zeros. The two ways in which erasure.rs makes the data shards both give them.
use p2pnas.Prelude.{
  ℕ, zero, suc, ◌+◌, ◌-◌, ◌*◌, ◌≤◌, ◌<◌, ◌≡◌, refl, sym, ap, ◌∙◌, List, [], ◌∷◌, ◌++◌, arith,
  length, take, drop, length-take, length-drop, All, ge→ltb, lt→ltb,
}
use mathlib.Core.Path.{ap₂}
use p2pnas.Prelude.{take-append-drop}
use p2pnas.Core.Bytes.{Bytes}
use p2pnas.Core.Bytes.Slices.{
  zeros, pad, length-pad, take-pad, drop-pad, chunks_exact, chunks_exact_loop,
}
use p2pnas.Core.Erasure.Shards.{map_range}

-- Block `i` of a padded string.
abbrev pub block : ℕ → Bytes → Bytes
block sl xs = pad sl (take sl xs)

abbrev pub stripe : ℕ → ℕ → Bytes → List Bytes
stripe zero sl xs = []
stripe (suc n) sl xs = block sl xs ∷ stripe n sl (drop sl xs)

abbrev pub concat : List Bytes → Bytes
concat [] = []
concat (s ∷ ss) = s ++ concat ss

pub length-stripe : (n sl : ℕ) (xs : Bytes) → length (stripe n sl xs) ≡ n
length-stripe zero sl xs = refl
length-stripe (suc n) sl xs = ap suc (length-stripe n sl (drop sl xs))

pub length-block : (sl : ℕ) (xs : Bytes) → length (block sl xs) ≡ sl
length-block sl xs = length-pad sl (take sl xs) (omega (arith, length-take sl xs))

pub stripe_lengths : (n sl : ℕ) (xs : Bytes) → All (λ (s : Bytes). length s ≡ sl) (stripe n sl xs)
stripe_lengths zero sl xs = tt
stripe_lengths (suc n) sl xs = (length-block sl xs, stripe_lengths n sl (drop sl xs))

-- The blocks side by side are the string and its padding.
pub concat-stripe :
    (n sl : ℕ) (xs : Bytes) → length xs ≤ n * sl → concat (stripe n sl xs) ≡ pad (n * sl) xs
concat-stripe zero sl [] h = ap zeros (let e : 0 ≡ 0 * sl - 0 = omega arith in e)
concat-stripe zero sl (x ∷ xs) h = absurd (omega arith)
concat-stripe (suc n) sl xs h =
    ap (λ t. block sl xs ++ t) (concat-stripe n sl (drop sl xs) (omega (arith, length-drop sl xs)))
    ∙ ap₂ (λ s t. s ++ t) (sym (take-pad sl (n * sl) xs (omega arith)))
        (sym (drop-pad sl (n * sl) xs (omega arith)))
    ∙ take-append-drop sl (pad (sl + n * sl) xs)
    ∙ ap (λ k. pad k xs) (let e : sl + n * sl ≡ suc n * sl = omega arith in e)

-- The exact chunks of the padded buffer.
pub chunks_exact_loop-stripe :
    (n sl fuel : ℕ) (xs : Bytes)
    → 0 < sl
    → length xs ≤ n * sl
    → n ≤ fuel
    → chunks_exact_loop fuel sl (pad (n * sl) xs) ≡ stripe n sl xs
unfolding chunks_exact_loop
chunks_exact_loop-stripe zero sl zero xs pos h f = refl
chunks_exact_loop-stripe zero sl (suc fuel) xs pos h f =
    rw (lt→ltb (length (pad (0 * sl) xs)) sl (omega (arith, length-pad (0 * sl) xs h)))
chunks_exact_loop-stripe (suc n) sl zero xs pos h f = absurd (omega arith)
chunks_exact_loop-stripe (suc n) sl (suc fuel) xs pos h f =
    rw (ge→ltb (length (pad (suc n * sl) xs)) sl (omega (arith, length-pad (suc n * sl) xs h))) (
      ap₂ (λ s t. s ∷ t) (ap (λ k. take sl (pad k xs)) e ∙ take-pad sl (n * sl) xs (omega arith))
        (ap (λ k. chunks_exact_loop fuel sl (drop sl (pad k xs))) e
          ∙ ap (λ t. chunks_exact_loop fuel sl t) (drop-pad sl (n * sl) xs (omega arith))
          ∙ chunks_exact_loop-stripe n sl fuel (drop sl xs) pos (omega (arith, length-drop sl xs))
              (omega arith)))
  where
    e : suc n * sl ≡ sl + n * sl
    e = omega arith

pub chunks_exact-stripe :
    (n sl : ℕ) (xs : Bytes)
    → 0 < sl
    → length xs ≤ n * sl
    → chunks_exact sl (pad (n * sl) xs) ≡ stripe n sl xs
unfolding chunks_exact
chunks_exact-stripe n sl xs pos h =
    chunks_exact_loop-stripe n sl (length (pad (n * sl) xs)) xs pos h
      (rw (length-pad (n * sl) xs h) (grind arith))

drop-nil : (k : ℕ) → [] ≡ drop k (let xs : Bytes = [] in xs)
drop-nil zero = refl
drop-nil (suc k) = refl

drop-drop : (a b : ℕ) (xs : Bytes) → drop a (drop b xs) ≡ drop (b + a) xs
drop-drop a zero xs = ap (λ k. drop k xs) (let e : a ≡ 0 + a = omega arith in e)
drop-drop zero (suc b) [] = drop-nil (suc b + 0)
drop-drop (suc a) (suc b) [] = drop-nil (suc b + suc a)
drop-drop a (suc b) (x ∷ xs) =
    drop-drop a b xs
    ∙ ap (λ k. drop k (x ∷ xs)) (let e : suc (b + a) ≡ suc b + a = omega arith in e)

-- The blocks one by one, each cut from the string itself.
pub map_range-stripe :
    (n k sl : ℕ) (xs : Bytes) (f : ℕ → Bytes)
    → ((i : ℕ) → f i ≡ block sl (drop (i * sl) xs))
    → map_range f k n ≡ stripe n sl (drop (k * sl) xs)
map_range-stripe zero k sl xs f h = refl
map_range-stripe (suc n) k sl xs f h =
    ap₂ (λ s t. s ∷ t) (h k)
      (map_range-stripe n (suc k) sl xs f h
        ∙ ap (λ t. stripe n sl t)
            (ap (λ j. drop j xs) (let e : suc k * sl ≡ k * sl + sl = omega arith in e)
              ∙ sym (drop-drop sl (k * sl) xs)))
