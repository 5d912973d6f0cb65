-- ===== src/Dht/Ids/Hex.antt =====
-- An id survives its hexadecimal text.
use p2pnas.Prelude.{
  ℕ, ◌+◌, ◌*◌, ◌/◌, ◌%◌, ◌<◌, ◌≡◌, refl, ap, List, [], ◌∷◌, some, arith, length, All, ◌==◌, ==_iff,
  Option-cases, Bool-cases, inl, inr,
}
use mathlib.Core.Bool.{Bool}
use p2pnas.Dht.Ids.{NodeId, hex_digit, digit_value, hex, byte_of, unhex_pairs, unhex}
use p2pnas.Dht.Ids.Distance.{IsId}

digit_value-hex_digit : (n : ℕ) → n < 16 → digit_value (hex_digit n) ≡ some n
unfolding digit_value hex_digit
digit_value-hex_digit n h = ground arith

hex_digit-ne-plus : (n : ℕ) → n < 16 → (hex_digit n == b'+') ≡ Bool.false
unfolding hex_digit
hex_digit-ne-plus n h = ground arith

byte_of-hex_digit : (b : ℕ) → b < 256 → byte_of (hex_digit (b / 16)) (hex_digit (b % 16)) ≡ some b
unfolding byte_of
byte_of-hex_digit b h =
    rw
      (
        hex_digit-ne-plus (b / 16) (omega arith),
        digit_value-hex_digit (b / 16) (omega arith),
        digit_value-hex_digit (b % 16) (omega arith),
      )
      (ap some (let e : b / 16 * 16 + b % 16 ≡ b = omega arith in e))

unhex_pairs-hex : (a : NodeId) → All (λ b. b < 256) a → unhex_pairs (hex a) ≡ some a
unfolding unhex_pairs hex
unhex_pairs-hex [] h = refl
unhex_pairs-hex (b ∷ bs) (hb, h) = rw (byte_of-hex_digit b hb, unhex_pairs-hex bs h)

length-hex : (a : NodeId) → length (hex a) ≡ length a * 2
unfolding hex
length-hex [] = refl
length-hex (b ∷ bs) = omega (arith, length-hex bs)

-- Every id of twenty bytes is read back from the text that `hex` writes.
pub unhex-hex : (a : NodeId) → IsId a → unhex (hex a) ≡ some a
unfolding unhex
unhex-hex a h =
    let full : length (hex a) ≡ 40 = omega (arith, length-hex a, h.len) in
    rw full (unhex_pairs-hex a h.bytes)

digit_value-lt : (c : ℕ) {n : ℕ} → digit_value c ≡ some n → n < 16
unfolding digit_value
digit_value-lt c e = ground arith

byte_of-lt : (c d : ℕ) {b : ℕ} → byte_of c d ≡ some b → b < 256
unfolding byte_of
byte_of-lt c d {b} e = elim (Option-cases (digit_value c)) [
  | inl bad ↦ elim (Bool-cases (c == b'+')) [
    | inl sign ↦ omega (arith, digit_value-lt d (rw sign at e))
    | inr other ↦ cc (rw (other, bad) at e)
  ]
  | inr (high, eh) ↦ elim (Bool-cases (c == b'+')) [
    | inl sign ↦ omega (arith, digit_value-lt d (rw sign at e))
    | inr other ↦ elim (Option-cases (digit_value d)) [
      | inl bad ↦ cc (rw (other, eh, bad) at e)
      | inr (low, el) ↦
          let sum : high * 16 + low ≡ b = cc (rw (other, eh, el) at e) in
          omega (arith, digit_value-lt c eh, digit_value-lt d el)
    ]
  ]
]

unhex_pairs-bytes :
    (s : List ℕ) {a : NodeId}
    → unhex_pairs s ≡ some a
    → (length a * 2 ≡ length s) × All (λ b. b < 256) a
unfolding unhex_pairs
unhex_pairs-bytes [] {a} e = let e' : a ≡ [] = cc in rw e' (omega arith, tt)
unhex_pairs-bytes (c ∷ []) e = cc
unhex_pairs-bytes (c ∷ d ∷ s) {a} e = elim (Option-cases (byte_of c d)) [
  | inl bad ↦ cc (rw bad at e)
  | inr (b, eb) ↦ elim (Option-cases (unhex_pairs s)) [
    | inl bad ↦ cc (rw (eb, bad) at e)
    | inr (bs, es) ↦
        let a' : b ∷ bs ≡ a = cc (rw (eb, es) at e) in
        let (len, bytes) = unhex_pairs-bytes s es in
        rw (← a') (omega (arith, len), (byte_of-lt c d eb, bytes))
  ]
]

-- Whatever text `unhex` accepts, it yields an id of twenty bytes.
pub unhex-IsId : (s : List ℕ) {a : NodeId} → unhex s ≡ some a → IsId a
unfolding unhex
unhex-IsId s {a} e = elim (Bool-cases (length s == 40)) [
  | inl full ↦
      let (len, bytes) = unhex_pairs-bytes s (rw full at e) in
      record { len = omega (arith, (==_iff (length s) 40).0 full); bytes = bytes }
  | inr other ↦ cc (rw other at e)
]
