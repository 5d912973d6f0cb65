-- ===== src/Core/Pipeline.antt =====
-- core/src/pipeline.rs: a file is cut into chunks, and each is compressed, sealed and striped. The chunks
-- are processed in parallel there; here in order, and of several errors the first is returned.
pub mod Plain
use p2pnas.Prelude.{ℕ, suc, ◌==◌, Bool, List, [], ◌∷◌, length, if◌then◌else◌}
use p2pnas.Prelude.Int.{ℤ}
use p2pnas.Prelude.Results.{ok, err, ◌>>=◌}
use p2pnas.Core.Bytes.{Bytes}
use p2pnas.Core.Errors.{CoreResult, crypto}
use p2pnas.Core.Chunker.{
  Floats, Zstd, default_chunk_size, fast_zstd_level, maybe_compress, split_chunks,
}
use p2pnas.Core.Crypto.Encode.{KeyScheme, v1, v2}
use p2pnas.Core.Crypto.Primitives.{Primitives}
use p2pnas.Core.Crypto.Cipher.{FileCipher, new, seal_chunk}
use p2pnas.Core.Erasure.Code.{Code}
use p2pnas.Core.Erasure.Shards.{div_ceil, encode_recovery}

pub record PipelineConfig (F : Type 0) : Type 0 where
  pub chunk_size : ℕ
  pub entropy_skip : F
  pub zstd_level : ℤ

-- `DEFAULT_ENTROPY_SKIP`, 7.8, is the argument.
abbrev pub default : {F : Type 0} → F → PipelineConfig F
default default_entropy_skip = record {
  chunk_size = default_chunk_size;
  entropy_skip = default_entropy_skip;
  zstd_level = fast_zstd_level;
}

pub record ProcessedChunk : Type 0 where
  pub index : ℕ
  pub nonce : Bytes
  pub is_compressed : Bool
  pub plaintext_len : ℕ
  pub cipher : Bytes
  pub shard_len : ℕ
  pub recovery : List Bytes

unfoldable pub chunk_count_for : ℕ → ℕ → CoreResult ℕ
chunk_count_for len chunk_size =
    if chunk_size == 0
    then err (crypto "chunk size must be non-zero")
    else ok (div_ceil len chunk_size)

-- The packages that the pipeline calls.
pub record Tools (F : Type 0) : Type 0 where
  pub prim : Primitives
  pub code : Code
  pub zstd : Zstd
  pub floats : Floats F

module _ {F : Type 0} (tools : Tools F) where
  unfoldable pub process_chunk :
      FileCipher → PipelineConfig F → ℕ → Bytes → CoreResult ProcessedChunk
  process_chunk c cfg index chunk =
      let compressed =
        maybe_compress tools.floats tools.zstd chunk cfg.entropy_skip cfg.zstd_level in
      seal_chunk tools.prim c compressed.0 index >>= λ sealed.
      encode_recovery tools.code sealed.0 >>= λ shards. ok (record {
        index = index;
        nonce = sealed.1;
        is_compressed = compressed.1;
        plaintext_len = length chunk;
        cipher = sealed.0;
        shard_len = shards.0;
        recovery = shards.1;
      })

  -- `enumerate`, `map` and `collect`, from an index on.
  unfoldable pub process_chunks :
      FileCipher → PipelineConfig F → ℕ → List Bytes → CoreResult (List ProcessedChunk)
  process_chunks c cfg index [] = ok []
  process_chunks c cfg index (chunk ∷ chunks) = process_chunk c cfg index chunk >>= λ p.
      process_chunks c cfg (suc index) chunks >>= λ ps. ok (p ∷ ps)

  unfoldable pub process_with_scheme :
      Bytes
      → Bytes
      → KeyScheme
      → Bytes
      → Bytes
      → PipelineConfig F
      → CoreResult (List ProcessedChunk)
  process_with_scheme bytes data_key scheme user_id file_id cfg =
      chunk_count_for (length bytes) cfg.chunk_size >>= λ chunk_count.
      new tools.prim data_key scheme user_id file_id chunk_count >>= λ cipher.
      process_chunks cipher cfg 0 (split_chunks bytes cfg.chunk_size)

  unfoldable pub process :
      Bytes → Bytes → Bytes → PipelineConfig F → CoreResult (List ProcessedChunk)
  process bytes data_key file_id cfg = process_with_scheme bytes data_key v1 [] file_id cfg

  unfoldable pub process_v2 :
      Bytes → Bytes → Bytes → Bytes → PipelineConfig F → CoreResult (List ProcessedChunk)
  process_v2 bytes data_key user_id file_id cfg =
      process_with_scheme bytes data_key v2 user_id file_id cfg
