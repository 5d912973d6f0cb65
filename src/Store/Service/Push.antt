-- ===== src/Store/Service/Push.antt =====
-- store/src/service.rs: the writing of files. The hash function, the minted ids and what
-- the operating system answers are arguments. A transaction that fails leaves the database as it was,
-- but not the store of shards.
pub mod Rows
pub mod Shards
pub mod Keeps
mod Examples
use Prim.Native.String.{String}
use p2pnas.Prelude.{
  ℕ, zero, suc, ◌+◌, Bool, true, false, not, ◌&&◌, ltb, ◌==◌, List, [], ◌∷◌, ◌++◌, Option, none,
  some, length, take, set, replicate, if◌then◌else◌,
}
use p2pnas.Prelude.Results.{Result, ok, err, panic, ◌>>=◌}
use p2pnas.Core.Bytes.{Bytes, be_bytes}
use p2pnas.Core.Crypto.Encode.{v2, as_i64, from_i64}
use p2pnas.Core.Crypto.Cipher.{FileCipher, new}
use p2pnas.Core.Erasure.Code.{total_shards}
use p2pnas.Core.Pipeline.{Tools, ProcessedChunk, default, process_v2}
use p2pnas.Store.Errors.{StoreError, StoreResult, not_found, integrity, from_core}
use p2pnas.Store.Chunkstore.{PathBuf, Files, Written, write, read}
use p2pnas.Store.Manifest.{Text, FileRow, ChunkRow, ShardRow, chunk_id}
use p2pnas.Store.Manifest.Texts.{eq_text}
use p2pnas.Store.Manifest.Db.{Db, is_none, insert_file, insert_chunk, insert_shard}
use p2pnas.Store.Manifest.Files.{get_file, get_file_by_path, get_chunks, get_shards, pack_key}
use p2pnas.Store.Manifest.Packs.{is_text}
use p2pnas.Store.Manifest.Retire.{supersede_file}
use p2pnas.Store.Service.Chunks.{shard_bytes, chunk_row, stored_bytes_of, read_chunk}
use p2pnas.Store.Service.Trash.{ok_or, local}
use p2pnas.Store.Service.Packs.{member_slice}

-- BLAKE3, and the lowercase hexadecimal digits of bytes.
pub record Hashes : Type 0 where
  pub blake3 : Bytes → Bytes
  pub hex : Bytes → Text

module _ (h : Hashes) where
  unfoldable pub fragment_id : Text → ℕ → Text
  fragment_id chunk shard_index =
      h.hex (take 16 (h.blake3 (chunk ++ (b':' ∷ be_bytes 4 shard_index))))

  unfoldable pub shard_hash : Bytes → Text
  shard_hash bytes = h.hex (take 16 (h.blake3 bytes))

  unfoldable pub blake3_hex : Bytes → Text
  blake3_hex bytes = h.hex (h.blake3 bytes)

-- A step on the store of shards.
infixl 5 ◌>>!◌
abbrev pub ◌>>!◌ :
    {A B : Type 0}
    → Files × StoreResult A
    → (A → Files → Files × StoreResult B)
    → Files × StoreResult B
(files, ok a) >>! next = next a files
(files, err e) >>! next = (files, err e)
(files, panic) >>! next = (files, panic)

pub record PushResult : Type 0 where
  pub file_id : Text
  pub size : ℕ
  pub stored_bytes : ℕ
  pub superseded_file_id : Option Text
  pub superseded_size : ℕ
  pub superseded_stored : ℕ
  pub unchanged : Bool

-- The version pushed aside, and the lineage that the new one joins.
pub record Aside : Type 0 where
  pub file_id : Option Text
  pub size : ℕ
  pub stored_bytes : ℕ
  pub lineage : Text

module _ {F : Type 0} (tools : Tools F) (h : Hashes) (root : PathBuf) where
  -- The store's answer to the write of each fragment.
  module _ (outcome : Text → Written) where
    -- One shard of a chunk.
    unfoldable pub write_shard : Text → ProcessedChunk → ℕ → Db → Files → Files × StoreResult Db
    unfolding fragment_id shard_bytes shard_hash write insert_shard
    write_shard cid c i d store =
        let frag = fragment_id h cid i in
        let bytes = shard_bytes c i in
        write root store frag bytes (outcome frag) >>! λ _ store'. (
          store',
          insert_shard
              (record {
                fragment_id = frag;
                chunk_id = cid;
                shard_index = i;
                location = local;
                hash = shard_hash h bytes;
              })
              d,
        )

    -- The loop over the shards: how many are left, and the next.
    unfoldable pub write_shards :
        Text → ProcessedChunk → ℕ → ℕ → Db → Files → Files × StoreResult Db
    unfolding write_shard
    write_shards cid c zero i d store = (store, ok d)
    write_shards cid c (suc n) i d store =
        write_shard cid c i d store >>! λ d' store'. write_shards cid c n (suc i) d' store'

    unfoldable pub write_chunk_rows :
        Text → List ProcessedChunk → Db → Files → Files × StoreResult Db
    unfolding chunk_row insert_chunk write_shards
    write_chunk_rows file_id [] d store = (store, ok d)
    write_chunk_rows file_id (c ∷ cs) d store =
        (store, insert_chunk (chunk_row file_id c) d) >>! λ d1 store1.
        write_shards (chunk_id file_id c.index) c total_shards 0 d1 store1 >>! λ d2 store2.
        write_chunk_rows file_id cs d2 store2

    -- What the transaction of `push` does with the file at the path.
    unfoldable pub set_aside : Text → Text → Text → Option FileRow → Db → StoreResult (Aside × Db)
    unfolding supersede_file
    set_aside now user_id file_id none d =
        ok (record { file_id = none; size = 0; stored_bytes = 0; lineage = file_id }, d)
    set_aside now user_id file_id (some prev) d = supersede_file user_id prev.file_id now d >>= λ r.
        ok (
          record {
            file_id = some prev.file_id;
            size = prev.size;
            stored_bytes = prev.stored_bytes;
            lineage = prev.lineage;
          },
          r.1,
        )

    -- Whether the bytes are those of the version at the path.
    unfoldable pub is_unchanged : Bytes → Option FileRow → Bool
    unfolding blake3_hex eq_text
    is_unchanged bytes none = false
    is_unchanged bytes (some prev) =
        (prev.size == length bytes) && is_text (blake3_hex h bytes) prev.content_hash

    -- The row of the new version.
    unfoldable pub pushed_row :
        Text → Text → Text → Text → Bytes → List ProcessedChunk → Text → FileRow
    unfolding stored_bytes_of blake3_hex
    pushed_row now user_id path file_id bytes chunks lineage = record {
      file_id = file_id;
      user_id = user_id;
      path = path;
      size = length bytes;
      stored_bytes = stored_bytes_of chunks;
      chunk_count = length chunks;
      created_at = now;
      deleted_at = none;
      superseded_at = none;
      lineage = lineage;
      key_scheme = as_i64 v2;
      content_hash = some (blake3_hex h bytes);
      pack_id = none;
      pack_offset = none;
      pack_len = none;
    }

    -- `push`, once the bytes are known to be new: `default_entropy_skip` is the threshold of the pipeline.
    unfoldable pub push_new :
        F
        → Bytes
        → Text
        → Text
        → Text
        → Text
        → Bytes
        → Db
        → Files
        → Files × StoreResult (PushResult × Db)
    unfolding process_v2 get_file_by_path set_aside insert_file pushed_row stored_bytes_of
        write_chunk_rows
    push_new default_entropy_skip data_key now user_id path file_id bytes d store =
        (
          store,
          from_core
              (process_v2 tools bytes data_key user_id file_id (default default_entropy_skip)),
        )
        >>! λ chunks store1.
            (store1, set_aside now user_id file_id (get_file_by_path user_id path d) d)
            >>! λ aside store2.
                (
                  store2,
                  insert_file (pushed_row now user_id path file_id bytes chunks aside.0.lineage)
                      aside.1,
                )
                >>! λ d2 store3. write_chunk_rows file_id chunks d2 store3 >>! λ d3 store4. (
                  store4,
                  ok (
                    record {
                      file_id = file_id;
                      size = length bytes;
                      stored_bytes = stored_bytes_of chunks;
                      superseded_file_id = aside.0.file_id;
                      superseded_size = aside.0.size;
                      superseded_stored = aside.0.stored_bytes;
                      unchanged = false;
                    },
                    d3,
                  ),
                )

    abbrev pub unchanged_push : Option FileRow → PushResult
    unchanged_push none = record {
      file_id = [];
      size = 0;
      stored_bytes = 0;
      superseded_file_id = none;
      superseded_size = 0;
      superseded_stored = 0;
      unchanged = true;
    }
    unchanged_push (some prev) = record {
      file_id = prev.file_id;
      size = prev.size;
      stored_bytes = 0;
      superseded_file_id = none;
      superseded_size = 0;
      superseded_stored = 0;
      unchanged = true;
    }

    unfoldable pub push :
        F
        → Bytes
        → Text
        → Text
        → Text
        → Text
        → Bytes
        → Db
        → Files
        → Files × StoreResult (PushResult × Db)
    unfolding get_file_by_path is_unchanged push_new
    push default_entropy_skip data_key now user_id path file_id bytes d store =
        let prev = get_file_by_path user_id path d in
        if is_unchanged bytes prev
        then (store, ok (unchanged_push prev, d))
        else push_new default_entropy_skip data_key now user_id path file_id bytes d store
