-- ===== src/Store/Service/Pull.antt =====
-- store/src/service.rs: the reading of files. Which reads the operating system refuses is an argument.
use p2pnas.Prelude.{
  Bool, not, ltb, List, [], ◌∷◌, ◌++◌, Option, none, some, length, set, replicate, if◌then◌else◌,
}
use p2pnas.Prelude.Results.{ok, err, ◌>>=◌}
use p2pnas.Core.Bytes.{Bytes}
use p2pnas.Core.Crypto.Encode.{from_i64}
use p2pnas.Core.Crypto.Cipher.{FileCipher, new}
use p2pnas.Core.Erasure.Code.{total_shards}
use p2pnas.Core.Pipeline.{Tools}
use p2pnas.Store.Errors.{StoreResult, not_found, integrity, from_core}
use p2pnas.Store.Chunkstore.{PathBuf, Files, read}
use p2pnas.Store.Manifest.{Text, FileRow, ChunkRow, ShardRow}
use p2pnas.Store.Manifest.Db.{Db, is_none}
use p2pnas.Store.Manifest.Files.{get_file, get_chunks, get_shards}
use p2pnas.Store.Service.Chunks.{read_chunk}
use p2pnas.Store.Service.Packs.{member_slice}
use p2pnas.Store.Service.Trash.{ok_or}

module _ {F : Type 0} (tools : Tools F) (root : PathBuf) (refused : Text → Bool) where
  -- The loop over the shards of a chunk: every shard that is named must be there.
  unfoldable pub read_shards :
      Files → List ShardRow → List (Option Bytes) → StoreResult (List (Option Bytes))
  unfolding read
  read_shards store [] present = ok present
  read_shards store (s ∷ ss) present =
      let rest = read_shards store ss present in
      if ltb s.shard_index (length present)
      then read root store s.fragment_id (refused s.fragment_id)
        >>= (λ bytes. read_shards store ss (set present s.shard_index (some bytes)))
      else rest

  -- The loop over the chunks.
  unfoldable pub pull_chunks : FileCipher → Db → Files → List ChunkRow → Bytes → StoreResult Bytes
  unfolding get_shards read_shards read_chunk
  pull_chunks cipher_ctx d store [] out = ok out
  pull_chunks cipher_ctx d store (c ∷ cs) out =
      read_shards store (get_shards c.chunk_id d) (replicate total_shards none) >>= λ present.
      read_chunk tools cipher_ctx c present >>= λ plain.
      pull_chunks cipher_ctx d store cs (out ++ plain)

  -- A file with chunks of its own.
  unfoldable pub pull_own : Bytes → Text → FileRow → Db → Files → StoreResult Bytes
  unfolding get_chunks from_i64 new pull_chunks
  pull_own data_key file_id file d store = from_core (from_i64 file.key_scheme) >>= λ scheme.
      from_core (new tools.prim data_key scheme file.user_id file_id file.chunk_count)
      >>= λ cipher_ctx. pull_chunks cipher_ctx d store (get_chunks file_id d) []

  -- A member is cut out of its pack, which is no member itself.
  unfoldable pub pull_member : Bytes → Text → FileRow → Text → Db → Files → StoreResult Bytes
  unfolding get_file pull_own member_slice
  pull_member data_key user_id file pack_id d store =
      ok_or (integrity "the pack of a member is missing") (get_file user_id pack_id d)
      >>= λ pack_row.
          if not (is_none pack_row.pack_id)
          then err (integrity "a pack is itself a pack member")
          else pull_own data_key pack_id pack_row d store >>= λ pack_plain.
              member_slice pack_plain file

  unfoldable pub pull : Bytes → Text → Text → Db → Files → StoreResult Bytes
  unfolding get_file pull_own pull_member
  pull data_key user_id file_id d store = ok_or not_found (get_file user_id file_id d) >>= λ file.
      elim file.pack_id [
        | some pack_id ↦ pull_member data_key user_id file pack_id d store
        | none ↦ pull_own data_key file_id file d store
      ]
