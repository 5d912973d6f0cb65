-- ===== src/Core/Chunker.antt =====
-- core/src/chunker.rs: chunks, and compression where the estimated entropy says that it is worth it.
-- The operations on `f64` and zstd are parameters.
pub mod Laws
mod Examples
use p2pnas.Prelude.{
  ℕ, zero, suc, ◌+◌, ◌≡◌, Bool, true, false, ltb, List, [], ◌∷◌, Option, none, some, length, take,
  drop, set, get_elem?, replicate, min, if◌then◌else◌,
}
use p2pnas.Prelude.Int.{ℤ, pos}
use mathlib.Core.Option.{get_or}
use p2pnas.Core.Bytes.{Bytes}

pub record Floats (F : Type 0) : Type 0 where
  pub zero_point : F
  pub of_usize : ℕ → F
  pub sub : F → F → F
  pub mul : F → F → F
  pub div : F → F → F
  pub log2 : F → F
  pub ge : F → F → Bool

-- `encode_all` at a level, and `decode_all`.
pub record Zstd : Type 0 where
  pub encode_all : Bytes → ℤ → Option Bytes
  pub decode_all : Bytes → Option Bytes

-- What zstd compresses it gives back.
pub record IsCodec (z : Zstd) : Type 0 where
  pub decode_encode :
      (xs : Bytes) (level : ℤ) (c : Bytes)
      → z.encode_all xs level ≡ some c
      → z.decode_all c ≡ some xs

abbrev pub default_chunk_size : ℕ
default_chunk_size = 4_194_304

abbrev pub fast_zstd_level : ℤ
fast_zstd_level = pos 3

abbrev pub entropy_sample : ℕ
entropy_sample = 16_384

-- The loop that counts the bytes.
unfoldable pub histogram : List ℕ → Bytes → List ℕ
histogram hist [] = hist
histogram hist (b ∷ sample) = histogram (set hist b (get_or (get_elem? hist b) 0 + 1)) sample

module _ {F : Type 0} (f : Floats F) where
  -- The loop over the counts.
  unfoldable pub entropy_sum : F → F → List ℕ → F
  entropy_sum len h [] = h
  entropy_sum len h (c ∷ cs) =
      let p = f.div (f.of_usize c) len in
      entropy_sum len (if ltb 0 c then f.sub h (f.mul p (f.log2 p)) else h) cs

  unfoldable pub sample_entropy : Bytes → F
  sample_entropy [] = f.zero_point
  sample_entropy (b ∷ sample) =
      entropy_sum (f.of_usize (length (b ∷ sample))) f.zero_point
        (histogram (replicate 256 0) (b ∷ sample))

  -- The buffer, and whether it is compressed.
  abbrev pub if_smaller : Bytes → Option Bytes → Bytes × Bool
  if_smaller xs none = (xs, false)
  if_smaller xs (some c) = if ltb (length c) (length xs) then (c, true) else (xs, false)

  unfoldable pub maybe_compress : Zstd → Bytes → F → ℤ → Bytes × Bool
  maybe_compress z xs entropy_skip level =
      if f.ge (sample_entropy (take (min (length xs) entropy_sample) xs)) entropy_skip
      then (xs, false)
      else if_smaller xs (z.encode_all xs level)

unfoldable pub restore : Zstd → Bytes → Bool → Option Bytes
restore z xs true = z.decode_all xs
restore z xs false = some xs

-- `xs.chunks(size)` on fuel, for a size above zero.
unfoldable pub chunks_loop : ℕ → ℕ → Bytes → List Bytes
chunks_loop zero size xs = []
chunks_loop (suc fuel) size [] = []
chunks_loop (suc fuel) size (x ∷ xs) =
    take size (x ∷ xs) ∷ chunks_loop fuel size (drop size (x ∷ xs))

-- Each chunk takes a byte at least, so the length is enough fuel.
unfoldable pub split_chunks : Bytes → ℕ → List Bytes
unfolding chunks_loop
split_chunks xs size = chunks_loop (length xs) size xs
