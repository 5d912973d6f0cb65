-- ===== src/Core/Erasure/Code.antt =====
-- What erasure.rs takes from reed-solomon-simd: a code with ten originals and four recovery shards.
-- It is a parameter of the model, and the law is what the code relies on.
use Prim.Native.String.{String}
use p2pnas.Prelude.{
  ℕ, ◌+◌, ◌≤◌, ◌≡◌, List, [], ◌∷◌, Option, none, some, length, get_elem?, All, suc,
}
use p2pnas.Prelude.Kept.{Kept, held}
use p2pnas.Prelude.Results.{Result, ok}
use p2pnas.Core.Bytes.{Bytes}

abbrev pub data_shards_count : ℕ
data_shards_count = 10

abbrev pub parity_shards_count : ℕ
parity_shards_count = 4

abbrev pub total_shards : ℕ
total_shards = data_shards_count + parity_shards_count

-- The counts of originals and of recovery shards, then the shards. The text is that of the error.
pub record Code : Type 0 where
  pub encode : ℕ → ℕ → List Bytes → Result String (List Bytes)
  -- The shards that are held, with their numbers. The result maps the number of a lost original to it.
  pub decode : ℕ → ℕ → List (ℕ × Bytes) → List (ℕ × Bytes) → Result String (ℕ → Option Bytes)

-- The shards that are held, with their numbers from `k` on.
unfoldable pub enumerated : ℕ → List (Option Bytes) → List (ℕ × Bytes)
enumerated k [] = []
enumerated k (none ∷ os) = enumerated (suc k) os
enumerated k (some v ∷ os) = (k, v) ∷ enumerated (suc k) os

-- There are four recovery shards. Of the originals and the recovery shards that were made of them, any ten give back the originals
-- that are missing.
pub record IsErasureCode (code : Code) : Type 0 where
  pub recovery_count :
      (originals recovery : List Bytes)
      → code.encode data_shards_count parity_shards_count originals ≡ ok recovery
      → length recovery ≡ parity_shards_count
  pub decode_encode :
      (sl : ℕ) (originals recovery : List Bytes) (kept_o kept_r : List (Option Bytes))
      → length originals ≡ data_shards_count
      → All (λ s. length s ≡ sl) originals
      → code.encode data_shards_count parity_shards_count originals ≡ ok recovery
      → Kept kept_o originals
      → Kept kept_r recovery
      → data_shards_count ≤ held kept_o + held kept_r
      → (restored : ℕ → Option Bytes) × (code.decode data_shards_count parity_shards_count
            (enumerated 0 kept_o)
            (enumerated 0 kept_r)
          ≡ ok restored)
        × ((i : ℕ) → get_elem? kept_o i ≡ some none → restored i ≡ get_elem? originals i)
