-- ===== src/Core/Chunker/Examples.antt =====
-- Five bytes in chunks of two, and a codec that writes one byte for a file of three zeros.
use native.Mathlib.Decide.{ℕ_discrete}
use p2pnas.Prelude.{
  ◌≤◌, ◌<◌, ◌≡◌, refl, Bool, true, false, [], ◌∷◌, Option, none, some, All, length, arith,
}
use p2pnas.Prelude.Int.{pos}
use p2pnas.Core.Bytes.{Bytes}
use p2pnas.Core.Erasure.Shards.{div_ceil}
use p2pnas.Core.Chunker.{Floats, Zstd, IsCodec, maybe_compress, restore, split_chunks}
use p2pnas.Core.Chunker.Laws.{joined, restore-maybe_compress, split_chunks_lem}

abbrev three_zeros : Bytes
three_zeros = 0 ∷ 0 ∷ 0 ∷ []

abbrev same_text : Discrete Bytes
same_text = hlevel ℕ_discrete

abbrev codec : Zstd
codec = record {
  encode_all = λ xs level. elim (same_text xs three_zeros) [ yes e ↦ some (3 ∷ []) | no n ↦ none ];
  decode_all = λ xs. some three_zeros;
}

decodes :
    (xs c : Bytes) (d : Dec (xs ≡ three_zeros))
    → ◌≡◌ {A = Option Bytes}
        (elim d as (λ d. Option Bytes) [ yes e ↦ some (3 ∷ []) | no n ↦ none ])
        (some c)
    → ◌≡◌ {A = Option Bytes} (some three_zeros) (some xs)
decodes xs c (yes e) h = rw e refl
decodes xs c (no n) h = cc

codec-IsCodec : IsCodec codec
codec-IsCodec = record { decode_encode = λ xs level c. decodes xs c (same_text xs three_zeros) }

abbrev low : Floats Bool
low = record {
  zero_point = false;
  of_usize = λ n. false;
  sub = λ a b. a;
  mul = λ a b. a;
  div = λ a b. a;
  log2 = λ a. a;
  ge = λ a b. a;
}

restore-maybe_compress_example :
    (restore codec
        (maybe_compress low codec three_zeros true (pos 3)).0
        (maybe_compress low codec three_zeros true (pos 3)).1
      ≡ some three_zeros)
    × (length (maybe_compress low codec three_zeros true (pos 3)).0 ≤ 3)
restore-maybe_compress_example =
    restore-maybe_compress low codec codec-IsCodec three_zeros true (pos 3)

split_chunks_lem_example :
    (joined (split_chunks (1 ∷ 2 ∷ 3 ∷ 4 ∷ 5 ∷ []) 2) ≡ 1 ∷ 2 ∷ 3 ∷ 4 ∷ 5 ∷ [])
    × (length (split_chunks (1 ∷ 2 ∷ 3 ∷ 4 ∷ 5 ∷ []) 2) ≡ div_ceil 5 2)
    × All (λ c. (0 < length c) × (length c ≤ 2)) (split_chunks (1 ∷ 2 ∷ 3 ∷ 4 ∷ 5 ∷ []) 2)
split_chunks_lem_example = split_chunks_lem (1 ∷ 2 ∷ 3 ∷ 4 ∷ 5 ∷ []) 2 (omega arith)
