-- ===== src/Core/Bytes.antt =====
-- Byte strings, and the fixed-width integers that are written into them: `to_be_bytes` and
-- `to_le_bytes`. A byte string is a list of numbers.
pub mod Prefix
pub mod Slices
use p2pnas.Prelude.{
  ℕ, zero, suc, ◌+◌, ◌*◌, ◌/◌, ◌%◌, ◌^◌, ◌<◌, ◌≡◌, refl, ap, ◌∙◌, sym, List, [], ◌∷◌, ◌++◌,
  append_assoc, arith, length, length-append, append_inj,
}

abbrev pub Bytes : Type 0
Bytes = List ℕ

-- The `w` low bytes of `n`, the highest first.
unfoldable pub be_bytes : ℕ → ℕ → Bytes
be_bytes zero n = []
be_bytes (suc w) n = be_bytes w (n / 256) ++ (n % 256 ∷ [])

-- The `w` low bytes of `n`, the lowest first.
unfoldable pub le_bytes : ℕ → ℕ → Bytes
le_bytes zero n = []
le_bytes (suc w) n = n % 256 ∷ le_bytes w (n / 256)

pub length-be_bytes : (w n : ℕ) → length (be_bytes w n) ≡ w
unfolding be_bytes
length-be_bytes zero n = refl
length-be_bytes (suc w) n =
    omega (arith, length-append (be_bytes w (n / 256)) (n % 256 ∷ []), length-be_bytes w (n / 256))

pub length-le_bytes : (w n : ℕ) → length (le_bytes w n) ≡ w
unfolding le_bytes
length-le_bytes zero n = refl
length-le_bytes (suc w) n = ap suc (length-le_bytes w (n / 256))

-- What is written in `w` bytes is read off again, if it fits.
pub be_bytes_inj : (w a b : ℕ) → a < 256 ^ w → b < 256 ^ w → be_bytes w a ≡ be_bytes w b → a ≡ b
unfolding be_bytes
be_bytes_inj zero a b ha hb e = omega arith
be_bytes_inj (suc w) a b ha hb e =
    let (high, low) =
      append_inj (be_bytes w (a / 256)) (be_bytes w (b / 256)) (a % 256 ∷ []) (b % 256 ∷ [])
        (length-be_bytes w (a / 256) ∙ sym (length-be_bytes w (b / 256))) e in
    let h : a / 256 ≡ b / 256 =
      be_bytes_inj w (a / 256) (b / 256) (omega arith) (omega arith) high in
    let l : a % 256 ≡ b % 256 = cc in omega arith

pub le_bytes_inj : (w a b : ℕ) → a < 256 ^ w → b < 256 ^ w → le_bytes w a ≡ le_bytes w b → a ≡ b
unfolding le_bytes
le_bytes_inj zero a b ha hb e = omega arith
le_bytes_inj (suc w) a b ha hb e =
    let h : a / 256 ≡ b / 256 =
      le_bytes_inj w (a / 256) (b / 256) (omega arith) (omega arith) (cc) in
    let l : a % 256 ≡ b % 256 = cc in omega arith
