-- ===== src/Prelude/Int.antt =====
-- The signed integers that the program stores, over the native numbers.
use p2pnas.Prelude.{ℕ}

-- `negsuc n` is -(n + 1).
pub data ℤ : Type 0 where
  pos : ℕ → ℤ
  negsuc : ℕ → ℤ
