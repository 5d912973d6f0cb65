-- ===== src/Core/Bytes/Slices.antt =====
-- Slices of byte strings as the standard library has them: zero buffers, copies into a buffer, and
-- the exact chunks of a buffer; with the laws of padding by zeros.
use p2pnas.Prelude.{
  ℕ, zero, suc, ◌+◌, ◌-◌, ◌≤◌, ◌≡◌, refl, sym, ap, ◌∙◌, List, [], ◌∷◌, ◌++◌, append-nil,
  append_assoc, arith, length, take, drop, replicate, length-append, length-replicate, take-append,
  ltb, if◌then◌else◌,
}
use p2pnas.Core.Bytes.{Bytes}

-- `vec![0u8; n]`
abbrev pub zeros : ℕ → Bytes
zeros n = replicate n 0

-- `&xs[from..to]`, for a range within bounds.
abbrev pub slice : Bytes → ℕ → ℕ → Bytes
slice xs from to = take (to - from) (drop from xs)

-- `out[start..start + len].copy_from_slice(bytes)`, for a range within bounds.
unfoldable pub write_at : Bytes → ℕ → Bytes → Bytes
write_at out start bytes = take start out ++ (bytes ++ drop (start + length bytes) out)

-- `xs.chunks_exact(size)` on fuel: what is shorter than `size` is left out.
unfoldable pub chunks_exact_loop : ℕ → ℕ → Bytes → List Bytes
chunks_exact_loop zero size xs = []
chunks_exact_loop (suc fuel) size xs =
    let rest = chunks_exact_loop fuel size (drop size xs) in
    if ltb (length xs) size then [] else take size xs ∷ rest

-- Each chunk takes a byte at least, so the length is enough fuel.
unfoldable pub chunks_exact : ℕ → Bytes → List Bytes
unfolding chunks_exact_loop
chunks_exact size xs = chunks_exact_loop (length xs) size xs

-- Zeros behind `xs`, up to `n` bytes.
abbrev pub pad : ℕ → Bytes → Bytes
pad n xs = xs ++ zeros (n - length xs)

pub length-pad : (n : ℕ) (xs : Bytes) → length xs ≤ n → length (pad n xs) ≡ n
length-pad n xs h =
    omega
      (arith, length-append xs (zeros (n - length xs)), length-replicate {A = ℕ} (n - length xs) 0)

pub pad_full : (n : ℕ) (xs : Bytes) → n ≤ length xs → pad n xs ≡ xs
pad_full n xs h =
    let e : n - length xs ≡ 0 = omega arith in ap (λ k. xs ++ zeros k) e ∙ append-nil xs

pub drop-zeros : (k n : ℕ) → drop k (zeros n) ≡ zeros (n - k)
drop-zeros zero n = ap zeros (let e : n ≡ n - 0 = omega arith in e)
drop-zeros (suc k) zero = ap zeros (let e : 0 ≡ 0 - suc k = omega arith in e)
drop-zeros (suc k) (suc n) =
    drop-zeros k n ∙ ap zeros (let e : n - k ≡ suc n - suc k = omega arith in e)

pub take-zeros : (k n : ℕ) → k ≤ n → take k (zeros n) ≡ zeros k
take-zeros zero n h = refl
take-zeros (suc k) zero h = absurd (omega arith)
take-zeros (suc k) (suc n) h = ap (λ t. 0 ∷ t) (take-zeros k n (omega arith))

-- A copy to the front of a zero buffer pads.
pub write_at-zeros : (n : ℕ) (xs : Bytes) → write_at (zeros n) 0 xs ≡ pad n xs
unfolding write_at
write_at-zeros n xs =
    ap (λ t. xs ++ t)
      (drop-zeros (0 + length xs) n
        ∙ ap (λ k. zeros (n - k)) (let e : 0 + length xs ≡ length xs = omega arith in e))

drop-append_add : (xs ys : Bytes) (k : ℕ) → drop (length xs + k) (xs ++ ys) ≡ drop k ys
drop-append_add [] ys k = ap (λ j. drop j ys) (let e : 0 + k ≡ k = omega arith in e)
drop-append_add (x ∷ xs) ys k =
    ap (λ j. drop j (x ∷ xs ++ ys))
      (let e : suc (length xs) + k ≡ suc (length xs + k) = omega arith in e)
    ∙ drop-append_add xs ys k

-- Writing the block after the written part.
pub write_at-append :
    (xs bytes : Bytes) (n m : ℕ)
    → n ≡ length bytes + m
    → write_at (xs ++ zeros n) (length xs) bytes ≡ (xs ++ bytes) ++ zeros m
unfolding write_at
write_at-append xs bytes n m h =
    ap (λ t. t ++ (bytes ++ drop (length xs + length bytes) (xs ++ zeros n)))
      (take-append xs (zeros n))
    ∙ ap (λ t. xs ++ (bytes ++ t))
        (drop-append_add xs (zeros n) (length bytes)
          ∙ drop-zeros (length bytes) n
          ∙ ap zeros (let e : n - length bytes ≡ m = omega arith in e))
    ∙ sym (append_assoc xs bytes (zeros m))

-- The first `s` bytes of a padded string, and the rest of it.
pub take-pad :
    (s t : ℕ) (xs : Bytes) → length xs ≤ s + t → take s (pad (s + t) xs) ≡ pad s (take s xs)
take-pad zero t xs h = ap zeros (let e : 0 ≡ 0 - 0 = omega arith in e)
take-pad (suc s) t [] h =
    take-zeros (suc s) (suc s + t - 0) (omega arith)
    ∙ ap zeros (let e : suc s ≡ suc s - 0 = omega arith in e)
take-pad (suc s) t (x ∷ xs) h =
    ap (λ k. x ∷ take s (xs ++ zeros k))
      (let e : suc s + t - suc (length xs) ≡ s + t - length xs = omega arith in e)
    ∙ ap (λ l. x ∷ l) (take-pad s t xs (omega arith))
    ∙ ap (λ k. x ∷ (take s xs ++ zeros k))
        (let e : s - length (take s xs) ≡ suc s - suc (length (take s xs)) = omega arith in e)

pub drop-pad :
    (s t : ℕ) (xs : Bytes) → length xs ≤ s + t → drop s (pad (s + t) xs) ≡ pad t (drop s xs)
drop-pad zero t xs h =
    ap (λ k. xs ++ zeros k) (let e : 0 + t - length xs ≡ t - length xs = omega arith in e)
drop-pad (suc s) t [] h =
    drop-zeros (suc s) (suc s + t - 0)
    ∙ ap zeros (let e : suc s + t - 0 - suc s ≡ t - 0 = omega arith in e)
drop-pad (suc s) t (x ∷ xs) h =
    ap (λ k. drop s (xs ++ zeros k))
      (let e : suc s + t - suc (length xs) ≡ s + t - length xs = omega arith in e)
    ∙ drop-pad s t xs (omega arith)
