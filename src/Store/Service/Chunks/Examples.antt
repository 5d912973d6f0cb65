-- ===== src/Store/Service/Chunks/Examples.antt =====
-- A file of three bytes in chunks of two, under a code and primitives that meet their laws.
use p2pnas.Prelude.{
  ℕ, zero, suc, ◌+◌, ◌≤◌, ◌≡◌, refl, sym, List, [], ◌∷◌, Option, none, some, arith, replicate,
  length,
}
use p2pnas.Prelude.Kept.{Kept, held}
use p2pnas.Prelude.Results.{ok, err, panic}
use p2pnas.Core.Bytes.{Bytes, be_bytes}
use p2pnas.Core.Bytes.Slices.{write_at}
use p2pnas.Core.Errors.{CoreResult}
use p2pnas.Core.Chunker.{histogram, entropy_sum, sample_entropy, maybe_compress, split_chunks}
use p2pnas.Core.Crypto.Encode.{v2, as_u8, as_i64, lp_concat, push_all, push_lp, nonce_for}
use p2pnas.Core.Crypto.Cipher.{new, aad_for, seal_chunk}
use p2pnas.Core.Crypto.Framed.{framed-IsAead}
use p2pnas.Core.Erasure.Copies.{copies-IsErasureCode}
use p2pnas.Core.Erasure.Shards.{shard_len, original, encode_recovery}
use p2pnas.Core.Pipeline.Plain.{plain_codec-IsCodec, tools, config}
use p2pnas.Core.Pipeline.{
  ProcessedChunk, chunk_count_for, process_chunk, process_chunks, process_with_scheme,
}
use p2pnas.Store.Manifest.{FileRow, ChunkRow}
use p2pnas.Store.Service.Chunks.{stored_shards, chunk_row, reassemble}
use p2pnas.Store.Service.Chunks.ReadBack.{IsFetched, reassemble-process_with_scheme}

abbrev key : Bytes
key = replicate 32 7

abbrev alice : Bytes
alice = 65 ∷ []

abbrev file_id : Bytes
file_id = 70 ∷ []

abbrev or_none : CoreResult (List ProcessedChunk) → List ProcessedChunk
or_none (ok ps) = ps
or_none (err e) = []
or_none panic = []

processed : List ProcessedChunk
unfolding process_with_scheme process_chunks process_chunk chunk_count_for split_chunks
    maybe_compress sample_entropy histogram entropy_sum new push_lp push_all be_bytes lp_concat
    as_u8 seal_chunk aad_for nonce_for encode_recovery shard_len original write_at
processed = or_none (process_with_scheme tools (1 ∷ 2 ∷ 3 ∷ []) key v2 alice file_id config)

processes : process_with_scheme tools (1 ∷ 2 ∷ 3 ∷ []) key v2 alice file_id config ≡ ok processed
unfolding processed
processes = refl

two_chunks : length processed ≡ 2
unfolding processed
two_chunks = refl

-- The first `k` are lost.
lose : ℕ → List Bytes → List (Option Bytes)
lose k [] = []
lose zero (s ∷ ss) = some s ∷ lose zero ss
lose (suc k) (s ∷ ss) = none ∷ lose k ss

lose-Kept : (k : ℕ) (ss : List Bytes) → Kept (lose k ss) ss
unfolding lose
lose-Kept zero [] = tt
lose-Kept (suc k) [] = tt
lose-Kept zero (s ∷ ss) = (refl, lose-Kept zero ss)
lose-Kept (suc k) (s ∷ ss) = (tt, lose-Kept k ss)

held-lose : (k : ℕ) (ss : List Bytes) → length ss ≤ held (lose k ss) + k
unfolding lose
held-lose zero [] = omega arith
held-lose (suc k) [] = omega arith
held-lose zero (s ∷ ss) = omega (arith, held-lose zero ss)
held-lose (suc k) (s ∷ ss) = omega (arith, held-lose k ss)

fetched : List ProcessedChunk → List (ChunkRow × List (Option Bytes))
fetched [] = []
fetched (p ∷ ps) = (chunk_row file_id p, lose 4 (stored_shards p)) ∷ fetched ps

enough : (p : ProcessedChunk) → 10 ≤ held (lose 4 (stored_shards p))
enough p = omega (arith, held-lose 4 (stored_shards p), size)
  where
    size : length (stored_shards p) ≡ 14
    size = unfold stored_shards in refl

fetched-IsFetched :
    (ps : List ProcessedChunk)
    → IsFetched tools copies-IsErasureCode framed-IsAead plain_codec-IsCodec file_id ps (fetched ps)
unfolding fetched
fetched-IsFetched [] = tt
fetched-IsFetched (p ∷ ps) = (refl, lose-Kept 4 (stored_shards p), enough p, fetched-IsFetched ps)

abbrev row : FileRow
row = record {
  file_id = file_id;
  user_id = alice;
  path = [];
  size = 3;
  stored_bytes = 0;
  chunk_count = 2;
  created_at = [];
  deleted_at = none;
  superseded_at = none;
  lineage = file_id;
  key_scheme = as_i64 v2;
  content_hash = none;
  pack_id = none;
  pack_offset = none;
  pack_len = none;
}

reassemble-process_with_scheme_example :
    reassemble tools key row (fetched processed) ≡ ok (1 ∷ 2 ∷ 3 ∷ [])
reassemble-process_with_scheme_example =
    reassemble-process_with_scheme tools copies-IsErasureCode framed-IsAead plain_codec-IsCodec
      (1 ∷ 2 ∷ 3 ∷ []) key v2 alice file_id config processed row (fetched processed) processes
      (record { key = refl; user = refl; id = refl; count = sym two_chunks })
      (fetched-IsFetched processed)
