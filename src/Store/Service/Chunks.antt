-- ===== src/Store/Service/Chunks.antt =====
-- store/src/service.rs: what is stored of a processed chunk, and how a file is read from it.
pub mod Stored
pub mod ReadBack
mod Examples
use p2pnas.Prelude.{
  ℕ, zero, suc, ◌+◌, ◌*◌, ◌-◌, ltb, ◌==◌, Bool, List, [], ◌∷◌, ◌++◌, Option, none, some, length,
  get_elem?, if◌then◌else◌,
}
use p2pnas.Prelude.Results.{ok, err, panic, ◌>>=◌}
use mathlib.Core.Option.{get_or}
use p2pnas.Core.Bytes.{Bytes}
use p2pnas.Core.Bytes.Slices.{zeros, write_at}
use p2pnas.Core.Chunker.{Zstd, restore}
use p2pnas.Core.Crypto.Encode.{from_i64}
use p2pnas.Core.Crypto.Cipher.{FileCipher, new, open_chunk}
use p2pnas.Core.Erasure.Code.{data_shards_count, total_shards}
use p2pnas.Core.Erasure.Shards.{shard_disk_cost, data_shard, map_range, reconstruct, encode}
use p2pnas.Core.Pipeline.{Tools, ProcessedChunk}
use p2pnas.Store.Errors.{StoreResult, io, from_core}
use p2pnas.Store.Manifest.{Text, FileRow, ChunkRow, chunk_id}

-- A slice is never longer than `shard_len`.
unfoldable pub pad_shard : Bytes → ℕ → Bytes
pad_shard slice shard_len =
    if length slice == shard_len then slice else write_at (zeros shard_len) 0 slice

-- Ten data shards and four parity shards.
unfoldable pub shard_bytes : ProcessedChunk → ℕ → Bytes
shard_bytes c i =
    if ltb i data_shards_count
    then pad_shard (get_or (data_shard c.cipher c.shard_len i) []) c.shard_len
    else get_or (get_elem? c.recovery (i - data_shards_count)) []

unfoldable pub stored_shards : ProcessedChunk → List Bytes
unfolding shard_bytes
stored_shards c = map_range (shard_bytes c) 0 total_shards

-- The sum over the chunks of what their shards take on the disk.
unfoldable pub stored_bytes_of : List ProcessedChunk → ℕ
stored_bytes_of [] = 0
stored_bytes_of (c ∷ cs) = total_shards * shard_disk_cost c.shard_len + stored_bytes_of cs

unfoldable pub chunk_row : Text → ProcessedChunk → ChunkRow
chunk_row file_id c = record {
  chunk_id = chunk_id file_id c.index;
  file_id = file_id;
  idx = c.index;
  nonce = c.nonce;
  is_compressed = c.is_compressed;
  plaintext_len = c.plaintext_len;
  cipher_len = length c.cipher;
  shard_len = c.shard_len;
}

abbrev pub from_io : Option Bytes → StoreResult Bytes
from_io none = err io
from_io (some xs) = ok xs

module _ {F : Type 0} (tools : Tools F) where
  -- One round of `reassemble`, and of `pull`.
  unfoldable pub read_chunk : FileCipher → ChunkRow → List (Option Bytes) → StoreResult Bytes
  read_chunk cipher_ctx c present =
      from_core (reconstruct tools.code present c.cipher_len) >>= λ cipher.
      from_core (open_chunk tools.prim cipher_ctx c.idx cipher) >>= λ plain.
      from_io (restore tools.zstd plain c.is_compressed)

  unfoldable pub read_chunks :
      FileCipher → List (ChunkRow × List (Option Bytes)) → Bytes → StoreResult Bytes
  read_chunks cipher_ctx [] out = ok out
  read_chunks cipher_ctx ((c, present) ∷ cs) out =
      read_chunk cipher_ctx c present >>= λ plain. read_chunks cipher_ctx cs (out ++ plain)

  unfoldable pub reassemble :
      Bytes → FileRow → List (ChunkRow × List (Option Bytes)) → StoreResult Bytes
  reassemble data_key file chunks = from_core (from_i64 file.key_scheme) >>= λ scheme.
      from_core (new tools.prim data_key scheme file.user_id file.file_id file.chunk_count)
      >>= λ cipher_ctx. read_chunks cipher_ctx chunks []

  -- `regen_chunk_shards`: every shard of a chunk from those that are left.
  unfoldable pub regen_chunk_shards : List (Option Bytes) → ℕ → StoreResult (List Bytes)
  regen_chunk_shards present cipher_len =
      from_core (reconstruct tools.code present cipher_len) >>= λ cipher.
      from_core (encode tools.code cipher)
