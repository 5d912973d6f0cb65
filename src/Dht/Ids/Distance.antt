-- ===== src/Dht/Ids/Distance.antt =====
-- The XOR distance tells ids apart, and the bucket index is the place of their first differing bit.
use Prim.Native.Nat.{bit_xor}
use p2pnas.Prelude.{
  ℕ, zero, suc, ◌+◌, ◌-◌, ◌*◌, ◌^◌, ◌≤◌, ◌<◌, ◌≡◌, refl, sym, ap, ◌∙◌, ◌↔◌, [], ◌∷◌, none, some,
  Bool, true, ◌&&◌, arith, length, All, ltb, ◌==◌, ==_iff, Bool-cases, inl, inr, if◌then◌else◌,
}
use mathlib.Core.Path.{ap₂}
use p2pnas.Dht.Ids.{NodeId, id_len, xor, leading_zeros, bucket_index_from, bucket_index}

-- An id: twenty bytes.
pub record IsId (a : NodeId) : Type 0 where
  pub len : length a ≡ id_len
  pub bytes : All (λ b. b < 256) a

holds_for : ℕ → (ℕ → Bool) → Bool
holds_for zero test = true
holds_for (suc n) test = test n && holds_for n test

holds_at : (n : ℕ) (test : ℕ → Bool) (x : ℕ) → x < n → holds_for n test ≡ true → test x ≡ true
unfolding holds_for
holds_at zero test x lt h = absurd (omega arith)
holds_at (suc n) test x lt h = ground (arith, holds_at n test x)

abbrev byte_laws : ℕ → ℕ → Bool
byte_laws x y =
    (if bit_xor x y == 0 then x == y else true)
    && (bit_xor x y == bit_xor y x)
    && ltb (bit_xor x y) 256

-- All pairs of bytes.
byte_table : holds_for 256 (λ x. holds_for 256 (byte_laws x)) ≡ true
unfolding holds_for
byte_table = refl

byte_laws_hold : (x y : ℕ) → x < 256 → y < 256 → byte_laws x y ≡ true
byte_laws_hold x y hx hy =
    holds_at 256 (byte_laws x) y hy
      (holds_at 256 (λ z. holds_for 256 (byte_laws z)) x hx byte_table)

xor_zero : (x y : ℕ) → x < 256 → y < 256 → bit_xor x y ≡ 0 → x ≡ y
xor_zero x y hx hy e = ground (arith, byte_laws_hold x y hx hy)

bit_xor_comm : (x y : ℕ) → x < 256 → y < 256 → bit_xor x y ≡ bit_xor y x
bit_xor_comm x y hx hy = ground (arith, byte_laws_hold x y hx hy)

xor_byte : (x y : ℕ) → x < 256 → y < 256 → bit_xor x y < 256
xor_byte x y hx hy = ground (arith, byte_laws_hold x y hx hy)

xor_self : (x : ℕ) → x < 256 → bit_xor x x ≡ 0
xor_self x h = (==_iff _ 0).0 (holds_at 256 (λ z. bit_xor z z == 0) x h (unfold holds_for in refl))

xor_comm_len :
    (a b : NodeId)
    → length a ≡ length b
    → All (λ x. x < 256) a
    → All (λ x. x < 256) b
    → xor a b ≡ xor b a
unfolding xor
xor_comm_len [] [] l ha hb = refl
xor_comm_len [] (y ∷ b) l ha hb = absurd (omega arith)
xor_comm_len (x ∷ a) [] l ha hb = absurd (omega arith)
xor_comm_len (x ∷ a) (y ∷ b) l (hx, ha) (hy, hb) =
    ap₂ (λ c d. c ∷ d) (bit_xor_comm x y hx hy) (xor_comm_len a b (omega arith) ha hb)

-- The distance is symmetric.
pub xor_comm : (a b : NodeId) → IsId a → IsId b → xor a b ≡ xor b a
xor_comm a b ha hb = xor_comm_len a b (ha.len ∙ sym hb.len) ha.bytes hb.bytes

bucket_index_from-none :
    (i : ℕ) (a b : NodeId)
    → length a ≡ length b
    → All (λ x. x < 256) a
    → All (λ x. x < 256) b
    → (bucket_index_from i (xor a b) ≡ none) ↔ (a ≡ b)
unfolding bucket_index_from xor
bucket_index_from-none i [] [] l ha hb = (λ _. refl, λ _. refl)
bucket_index_from-none i [] (y ∷ b) l ha hb = absurd (omega arith)
bucket_index_from-none i (x ∷ a) [] l ha hb = absurd (omega arith)
bucket_index_from-none i (x ∷ a) (y ∷ b) l (hx, ha) (hy, hb) =
    let (left, right) = bucket_index_from-none (suc i) a b (omega arith) ha hb in
    elim (Bool-cases (bit_xor x y == 0)) [
      | inl zero_byte ↦
          let same = xor_zero x y hx hy ((==_iff _ 0).0 zero_byte) in
          rw zero_byte (λ e. ap₂ (λ c d. c ∷ d) same (left e), λ e. right (cc))
      | inr other ↦ rw other (
        λ e. cc,
        λ e.
            let same : y ≡ x = cc in
            let zero_byte : (bit_xor x y == 0) ≡ true =
              (==_iff _ 0).1 (ap (bit_xor x) same ∙ xor_self x hx) in
            cc (sym zero_byte ∙ other),
      )
    ]

-- Two ids have no bucket index exactly if they are the same id.
pub bucket_index-none : (a b : NodeId) → IsId a → IsId b → (bucket_index (xor a b) ≡ none) ↔ (a ≡ b)
unfolding bucket_index
bucket_index-none a b ha hb = bucket_index_from-none 0 a b (ha.len ∙ sym hb.len) ha.bytes hb.bytes

leading_zeros-lt : (b : ℕ) → 0 < b → leading_zeros b < 8
unfolding leading_zeros
leading_zeros-lt b h = ground arith

bucket_index_from-lt :
    (i : ℕ) (d : NodeId) {k : ℕ} → bucket_index_from i d ≡ some k → k < (i + length d) * 8
unfolding bucket_index_from
bucket_index_from-lt i [] e = cc
bucket_index_from-lt i (b ∷ d) {k} e = elim (Bool-cases (b == 0)) [
  | inl blank ↦ omega (arith, bucket_index_from-lt (suc i) d (rw blank at e))
  | inr other ↦
      let at_k : i * 8 + leading_zeros b ≡ k = cc (rw other at e) in
      omega (arith, leading_zeros-lt b (ground arith))
]

length-xor : (a b : NodeId) → length a ≡ length b → length (xor a b) ≡ length a
unfolding xor
length-xor [] [] l = refl
length-xor [] (y ∷ b) l = absurd (omega arith)
length-xor (x ∷ a) [] l = absurd (omega arith)
length-xor (x ∷ a) (y ∷ b) l = ap suc (length-xor a b (omega arith))

-- A bucket index names one of the 160 buckets.
pub bucket_index-lt :
    (a b : NodeId) {k : ℕ} → IsId a → IsId b → bucket_index (xor a b) ≡ some k → k < 160
unfolding bucket_index
bucket_index-lt a b ha hb e =
    omega (arith, bucket_index_from-lt 0 (xor a b) e, length-xor a b (ha.len ∙ sym hb.len), ha.len)

-- The index tells how large the distance is: its first differing byte has that many leading zeros.
pub leading_zeros_bounds :
    (b : ℕ) → 0 < b → b < 256 → (2 ^ (7 - leading_zeros b) ≤ b) × (b < 2 ^ (8 - leading_zeros b))
unfolding leading_zeros
leading_zeros_bounds b pos h = ground arith
