-- ===== src/Core/Erasure/Striping.antt =====
-- The sizes of erasure.rs, and its two ways of making data shards: the padded copy of `data_shards`
-- and the slices of `encode_recovery` and `data_shard` hold the same ten shards.
use p2pnas.Prelude.{
  ℕ, zero, suc, ◌+◌, ◌-◌, ◌*◌, ◌/◌, ◌%◌, ◌≤◌, ◌<◌, min, ◌≡◌, refl, sym, ap, ◌∙◌, List, [], ◌∷◌,
  ◌++◌, arith, length, take, drop, length-take, length-drop, ltb, leb, ◌==◌, ge→ltb, Bool-cases,
  ◌⊎◌, inl, inr, ltb→lt, ltb→ge, ==_iff,
}
use mathlib.Core.Option.{get_or}
use p2pnas.Prelude.{leb→le}
use p2pnas.Prelude.Results.{ok, err, panic, ◌>>=◌}
use p2pnas.Core.Bytes.{Bytes}
use p2pnas.Core.Bytes.Slices.{zeros, slice, write_at, pad, pad_full, write_at-zeros, chunks_exact}
use p2pnas.Core.Errors.{CoreResult}
use p2pnas.Core.Erasure.Code.{Code}
use p2pnas.Core.Erasure.Stripe.{block, stripe, chunks_exact-stripe, map_range-stripe}
use p2pnas.Core.Erasure.Shards.{
  shard_len, shard_disk_cost, data_shards, map_range, original, data_shard, encode_recovery, encode,
}

-- The shard length is a positive multiple of 64, ten shards hold the chunk, and no smaller multiple
-- of 64 would do.
pub shard_len_bounds :
    (n : ℕ)
    → (shard_len n % 64 ≡ 0)
      × (64 ≤ shard_len n)
      × (n ≤ shard_len n * 10)
      × ((shard_len n ≡ 64) ⊎ ((shard_len n - 64) * 10 < n))
unfolding shard_len
shard_len_bounds n = ground arith

-- The disk cost is the least multiple of the block size that holds the shard.
pub shard_disk_cost_bounds :
    (n : ℕ)
    → (shard_disk_cost n % 4096 ≡ 0) × (n ≤ shard_disk_cost n) × (shard_disk_cost n < n + 4096)
unfolding shard_disk_cost
shard_disk_cost_bounds n = ground arith

-- `data_shards` never panics: it is the ten stripes of the chunk.
pub data_shards-stripe :
    (cipher : Bytes)
    → data_shards cipher
      ≡ ok (stripe 10 (shard_len (length cipher)) cipher, shard_len (length cipher))
unfolding data_shards
data_shards-stripe cipher =
    let sl = shard_len (length cipher) in
    let (_, low, holds, _) = shard_len_bounds (length cipher) in
    rw (ge→ltb (sl * 10) (length cipher) holds) (
      ap (λ (s : List Bytes). ok (s, sl))
        (ap (λ t. chunks_exact sl t) (write_at-zeros (sl * 10) cipher)
          ∙ ap (λ k. chunks_exact sl (pad k cipher)) (let e : sl * 10 ≡ 10 * sl = omega arith in e)
          ∙ chunks_exact-stripe 10 sl cipher (omega arith) (omega arith)))

block_nil : (sl : ℕ) (xs : Bytes) → xs ≡ [] → block sl xs ≡ zeros sl
block_nil zero xs e = ap (block 0) e ∙ ap zeros (let z : 0 - 0 ≡ 0 = omega arith in z)
block_nil (suc sl) xs e =
    ap (block (suc sl)) e ∙ ap zeros (let z : suc sl - 0 ≡ suc sl = omega arith in z)

drop_all : (n : ℕ) (xs : Bytes) → length xs ≤ n → drop n xs ≡ []
drop_all zero [] h = refl
drop_all zero (x ∷ xs) h = absurd (omega arith)
drop_all (suc n) [] h = refl
drop_all (suc n) (x ∷ xs) h = drop_all n xs (omega arith)

take_all : (n : ℕ) (xs : Bytes) → length xs ≤ n → take n xs ≡ xs
take_all zero [] h = refl
take_all zero (x ∷ xs) h = absurd (omega arith)
take_all (suc n) [] h = refl
take_all (suc n) (x ∷ xs) h = ap (λ t. x ∷ t) (take_all n xs (omega arith))

-- A slice of a whole block.
slice-block :
    (cipher : Bytes) (sl i : ℕ)
    → (i + 1) * sl ≤ length cipher
    → slice cipher (i * sl) ((i + 1) * sl) ≡ block sl (drop (i * sl) cipher)
slice-block cipher sl i h =
    let width : (i + 1) * sl - i * sl ≡ sl = omega arith in
    ap (λ k. take k (drop (i * sl) cipher)) width
    ∙ sym (
        pad_full sl (take sl (drop (i * sl) cipher))
          (omega (arith, length-take sl (drop (i * sl) cipher), length-drop (i * sl) cipher)))

full_blocks : (n sl : ℕ) → 0 < sl → (n / sl * sl ≤ n) × (n < n / sl * sl + sl)
full_blocks n sl pos = grind arith

whole_below : (n sl i : ℕ) → 0 < sl → i < n / sl → (i + 1) * sl ≤ n
whole_below n sl i pos h = grind (arith, full_blocks n sl)

-- The block of the partial shard, and the blocks behind the end of the chunk.
partial-block :
    (cipher : Bytes) (sl i : ℕ)
    → length cipher ≤ i * sl + sl
    → write_at (zeros sl) 0 (drop (i * sl) cipher) ≡ block sl (drop (i * sl) cipher)
partial-block cipher sl i h =
    let rest = drop (i * sl) cipher in
    write_at-zeros sl rest
    ∙ sym (ap (pad sl) (take_all sl rest (omega (arith, length-drop (i * sl) cipher))))

zero-block :
    (cipher : Bytes) (sl i : ℕ)
    → length cipher ≤ i * sl
    → zeros sl ≡ block sl (drop (i * sl) cipher)
zero-block cipher sl i h = sym (block_nil sl _ (drop_all (i * sl) cipher h))

past_full : (n sl i : ℕ) → 0 < sl → n / sl < i → n ≤ i * sl
past_full n sl i pos h = grind (arith, full_blocks n sl)

-- Each original of the zero-copy path is the stripe of its number.
pub original-block :
    (cipher : Bytes) (sl i : ℕ) → 0 < sl → original cipher sl i ≡ block sl (drop (i * sl) cipher)
unfolding original
original-block cipher sl i pos =
    let n = length cipher in
    let full = n / sl in
    let rem = n - full * sl in
    let (low, high) = full_blocks n sl pos in
    elim (Bool-cases (ltb i full)) [
      | inl whole ↦
          rw whole (slice-block cipher sl i (whole_below n sl i pos (ltb→lt i full whole)))
      | inr other ↦ elim (Bool-cases (i == full)) [
        | inl last ↦
            let e : i ≡ full = (==_iff i full).0 last in
            elim (Bool-cases (ltb 0 rem)) [
              | inl some_left ↦
                  rw (other, last, some_left)
                    (ap (λ k. write_at (zeros sl) 0 (drop (k * sl) cipher)) (sym e)
                      ∙ partial-block cipher sl i (rw e (omega arith)))
              | inr none_left ↦
                  rw (other, last, none_left)
                    (zero-block cipher sl i (rw e (omega (arith, ltb→ge 0 rem none_left))))
            ]
        | inr after ↦
            rw (other, after) (zero-block cipher sl i (past_full n sl i pos (ground arith)))
      ]
    ]

take_cut : (n m : ℕ) (xs : Bytes) → m ≡ min n (length xs) → take m xs ≡ take n xs
take_cut zero m xs h = ap (λ k. take k xs) (let e : m ≡ 0 = omega arith in e)
take_cut (suc n) m [] h =
    ap (λ k. take k (let e : Bytes = [] in e)) (let e : m ≡ 0 = omega arith in e)
take_cut (suc n) zero (x ∷ xs) h = absurd (omega arith)
take_cut (suc n) (suc m) (x ∷ xs) h = ap (λ t. x ∷ t) (take_cut n m xs (omega arith))

-- A borrowed data shard, padded by zeros, is the original of its number; where the borrow is
-- refused, that original is all zeros.
pub data_shard-original :
    (cipher : Bytes) (sl i : ℕ)
    → 0 < sl
    → original cipher sl i ≡ pad sl (get_or (data_shard cipher sl i) [])
unfolding data_shard
data_shard-original cipher sl i pos =
    let rest = drop (i * sl) cipher in
    let size = length-drop (i * sl) cipher in
    original-block cipher sl i pos ∙ elim (Bool-cases (leb (length cipher) (i * sl))) [
      | inl past ↦ rw past (
          block_nil sl rest (drop_all (i * sl) cipher (leb→le _ _ past))
          ∙ ap zeros (let z : sl ≡ sl - 0 = omega arith in z))
      | inr within ↦ rw within (
          ap (pad sl) (
            sym (
              take_cut sl (min ((i + 1) * sl) (length cipher) - i * sl) rest
                (omega (arith, size)))))
    ]

pub originals-stripe :
    (cipher : Bytes) (sl : ℕ) → 0 < sl → map_range (original cipher sl) 0 10 ≡ stripe 10 sl cipher
originals-stripe cipher sl pos =
    map_range-stripe 10 0 sl cipher (original cipher sl) (λ i. original-block cipher sl i pos)
    ∙ ap (λ k. stripe 10 sl (drop k cipher)) (let e : 0 * sl ≡ 0 = omega arith in e)

-- The materialising encoder and the zero-copy one run the code on the same originals and return the
-- same recovery shards and errors; the former puts the originals in front.
pub encode-encode_recovery :
    (code : Code) (cipher : Bytes)
    → encode code cipher ≡ (
        encode_recovery code cipher >>= λ (sl, recovery).
        ok (map_range (original cipher sl) 0 10 ++ recovery))
unfolding encode encode_recovery
encode-encode_recovery code cipher =
    let sl = shard_len (length cipher) in
    let (_, low, _, _) = shard_len_bounds (length cipher) in
    let originals = originals-stripe cipher sl (omega arith) in
    rw (data_shards-stripe cipher, originals) (by_result sl (stripe 10 sl cipher) originals _)
  where
    by_result :
        (sl : ℕ) (shards : List Bytes)
        → map_range (original cipher sl) 0 10 ≡ shards
        → (r : CoreResult (List Bytes))
        → (r >>= λ recovery. ok (shards ++ recovery)) ≡ (
            r >>= (λ recovery. ok (sl, recovery)) >>= λ (l, recovery).
            ok (map_range (original cipher l) 0 10 ++ recovery))
    by_result sl shards e (ok recovery) = ap (λ (s : List Bytes). ok (s ++ recovery)) (sym e)
    by_result sl shards e (err x) = refl
    by_result sl shards e panic = refl
