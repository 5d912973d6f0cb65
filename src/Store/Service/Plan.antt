-- ===== src/Store/Service/Plan.antt =====
-- store/src/service.rs: the listings, and what is read of a file.
pub mod Frame
use p2pnas.Prelude.{ℕ, ◌+◌, List, [], ◌∷◌, map, length}
use p2pnas.Prelude.Results.{ok, ◌>>=◌}
use p2pnas.Prelude.Select.{sum_by}
use p2pnas.Store.Errors.{StoreResult, not_found}
use p2pnas.Store.Manifest.{Text, FileRow, ChunkRow, ShardRow}
use p2pnas.Store.Manifest.Db.{Db}
use p2pnas.Store.Manifest.Files.{
  list_files, list_trashed, list_lineage, list_user_rows, list_all_files, get_file, get_chunks,
  get_shards,
}
use p2pnas.Store.Service.Trash.{ok_or}

abbrev pub ChunkShards : Type 0
ChunkShards = ChunkRow × List ShardRow

-- The loop over the chunks.
unfoldable pub with_shards : Db → List ChunkRow → List ChunkShards
unfolding get_shards
with_shards d [] = []
with_shards d (c ∷ cs) = (c, get_shards c.chunk_id d) ∷ with_shards d cs

unfoldable pub pull_plan : Text → Text → Db → StoreResult (FileRow × List ChunkShards)
unfolding get_file get_chunks with_shards
pull_plan user_id file_id d = ok_or not_found (get_file user_id file_id d) >>= λ file.
    ok (file, with_shards d (get_chunks file_id d))

unfoldable pub list : Text → Db → List FileRow
unfolding list_files
list user_id d = list_files user_id d

unfoldable pub list_trash : Text → Db → List FileRow
unfolding list_trashed
list_trash user_id d = list_trashed user_id d

unfoldable pub list_versions : Text → Text → Db → StoreResult (List FileRow)
unfolding get_file list_lineage
list_versions user_id file_id d = ok_or not_found (get_file user_id file_id d) >>= λ file.
    ok (list_lineage user_id file.lineage d)

unfoldable pub list_all_of_user : Text → Db → List FileRow
unfolding list_user_rows
list_all_of_user user_id d = list_user_rows user_id d

unfoldable pub list_all : Db → List FileRow
unfolding list_all_files
list_all d = list_all_files d

-- Files, chunks and stored bytes.
unfoldable pub node_stats : Db → ℕ × ℕ × ℕ
unfolding list_all sum_by
node_stats d =
    let files = list_all d in
    (
      length files,
      sum_by (λ (f : FileRow). f.chunk_count) files,
      sum_by (λ (f : FileRow). f.stored_bytes) files,
    )
