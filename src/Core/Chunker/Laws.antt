-- ===== src/Core/Chunker/Laws.antt =====
-- Compression is undone by `restore`, and the chunks of a file are the file cut into pieces of one size.
use native.Mathlib.Nat.{
  div-eq-sub-div, mod-eq-sub-mod, div-eq_of_lt, mod-eq_of_lt, zero-mod, zero-div,
}
use p2pnas.Prelude.{
  ℕ, zero, suc, ◌-◌, ◌≤◌, ◌<◌, ◌≡◌, refl, sym, ap, ◌∙◌, ltb, ltb→lt, ltb→ge, List, [], ◌∷◌, ◌++◌,
  Option, none, some, All, length, take, drop, length-take, length-drop, take-append-drop, arith,
  Bool-cases, inl, inr, min,
}
use p2pnas.Prelude.Int.{ℤ}
use p2pnas.Core.Bytes.{Bytes}
use p2pnas.Core.Erasure.Shards.{div_ceil}
use p2pnas.Core.Chunker.{
  Floats, Zstd, IsCodec, sample_entropy, entropy_sample, if_smaller, maybe_compress, restore,
  chunks_loop, split_chunks,
}

restore-if_smaller :
    {F : Type 0} (f : Floats F) (z : Zstd) (xs : Bytes) (o : Option Bytes)
    → ((c : Bytes) → o ≡ some c → z.decode_all c ≡ some xs)
    → restore z (if_smaller f xs o).0 (if_smaller f xs o).1 ≡ some xs
unfolding restore
restore-if_smaller f z xs none dec = refl
restore-if_smaller f z xs (some c) dec = elim (Bool-cases (ltb (length c) (length xs))) [
  | inl smaller ↦ rw smaller (dec c refl)
  | inr larger ↦ rw larger refl
]

-- Whatever the entropy says, `restore` gives back what `maybe_compress` was given, and the buffer is
-- never longer than that.
pub restore-maybe_compress :
    {F : Type 0} (f : Floats F) (z : Zstd) (codec : IsCodec z) (xs : Bytes) (skip : F) (level : ℤ)
    → (restore z (maybe_compress f z xs skip level).0 (maybe_compress f z xs skip level).1
        ≡ some xs)
      × (length (maybe_compress f z xs skip level).0 ≤ length xs)
unfolding maybe_compress
restore-maybe_compress f z codec xs skip level =
    elim (Bool-cases (f.ge (sample_entropy f (take (min (length xs) entropy_sample) xs)) skip)) [
      | inl high ↦ rw high (unfold restore in refl, omega arith)
      | inr low ↦ rw low (
        restore-if_smaller f z xs (z.encode_all xs level) (λ c. codec.decode_encode xs level c),
        shorter (z.encode_all xs level),
      )
    ]
  where
    shorter : (o : Option Bytes) → length (if_smaller f xs o).0 ≤ length xs
    shorter none = omega arith
    shorter (some c) = ground arith

-- The concatenation of the chunks.
abbrev pub joined : List Bytes → Bytes
joined [] = []
joined (c ∷ cs) = c ++ joined cs

joined-chunks_loop :
    (fuel size : ℕ) (xs : Bytes)
    → length xs ≤ fuel
    → 0 < size
    → joined (chunks_loop fuel size xs) ≡ xs
unfolding chunks_loop
joined-chunks_loop zero size [] le pos = refl
joined-chunks_loop zero size (x ∷ xs) le pos = absurd (omega arith)
joined-chunks_loop (suc fuel) size [] le pos = refl
joined-chunks_loop (suc fuel) size (x ∷ xs) le pos =
    ap (λ t. take size (x ∷ xs) ++ t)
      (joined-chunks_loop fuel size (drop size (x ∷ xs)) (omega (arith, length-drop size (x ∷ xs)))
        pos)
    ∙ take-append-drop size (x ∷ xs)

div_ceil_step : (n size : ℕ) → 0 < size → 0 < n → div_ceil n size ≡ suc (div_ceil (n - size) size)
div_ceil_step n size pos n_pos = elim (Bool-cases (ltb n size)) [
  | inl less ↦
      let lt = ltb→lt n size less in
      let rest : n - size ≡ 0 = omega arith in
      rw (rest, div-eq_of_lt lt, mod-eq_of_lt lt, zero-div size, zero-mod size) (ground arith)
  | inr more ↦
      let le = ltb→ge n size more in rw (div-eq-sub-div pos le, mod-eq-sub-mod le) (ground arith)
]

length-chunks_loop :
    (fuel size : ℕ) (xs : Bytes)
    → length xs ≤ fuel
    → 0 < size
    → length (chunks_loop fuel size xs) ≡ div_ceil (length xs) size
unfolding chunks_loop
length-chunks_loop zero size [] le pos = rw (zero-mod size, zero-div size) refl
length-chunks_loop zero size (x ∷ xs) le pos = absurd (omega arith)
length-chunks_loop (suc fuel) size [] le pos = rw (zero-mod size, zero-div size) refl
length-chunks_loop (suc fuel) size (x ∷ xs) le pos =
    ap suc (
      length-chunks_loop fuel size (drop size (x ∷ xs)) (omega (arith, length-drop size (x ∷ xs)))
        pos)
    ∙ ap (λ n. suc (div_ceil n size)) (length-drop size (x ∷ xs))
    ∙ sym (div_ceil_step (length (x ∷ xs)) size pos (omega arith))

-- Each chunk has a byte at least and at most `size`.
chunks_loop-sizes :
    (fuel size : ℕ) (xs : Bytes)
    → 0 < size
    → All (λ c. (0 < length c) × (length c ≤ size)) (chunks_loop fuel size xs)
unfolding chunks_loop
chunks_loop-sizes zero size xs pos = tt
chunks_loop-sizes (suc fuel) size [] pos = tt
chunks_loop-sizes (suc fuel) size (x ∷ xs) pos = (
  (omega (arith, length-take size (x ∷ xs)), omega (arith, length-take size (x ∷ xs))),
  chunks_loop-sizes fuel size (drop size (x ∷ xs)) pos,
)

-- For a size above zero: the chunks of a file joined are the file, their number is the file's length
-- divided by the size, rounded up, and each has between one and `size` bytes.
pub split_chunks_lem :
    (xs : Bytes) (size : ℕ)
    → 0 < size
    → (joined (split_chunks xs size) ≡ xs)
      × (length (split_chunks xs size) ≡ div_ceil (length xs) size)
      × All (λ c. (0 < length c) × (length c ≤ size)) (split_chunks xs size)
unfolding split_chunks
split_chunks_lem xs size pos = (
  joined-chunks_loop (length xs) size xs (omega arith) pos,
  length-chunks_loop (length xs) size xs (omega arith) pos,
  chunks_loop-sizes (length xs) size xs pos,
)
