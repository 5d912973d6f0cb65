-- ===== src/Store/Manifest/Db.antt =====
-- store/src/manifest.rs: the tables of the manifest, and the reads and writes that every query is made of.
-- The rows of a table stand in the order in which they were inserted, and a query without an order
-- returns them in it.
use mathlib.Core.Option.{get_or}
use p2pnas.Prelude.{
  ℕ, Bool, true, false, not, ◌&&◌, ◌||◌, List, [], ◌∷◌, ◌++◌, Option, none, some, map,
  if◌then◌else◌,
}
use p2pnas.Prelude.Int.{ℤ}
use p2pnas.Prelude.Results.{ok, err}
use p2pnas.Prelude.Select.{filter, any}
use p2pnas.Store.Errors.{StoreResult, sqlite}
use p2pnas.Store.Manifest.{Text, FileRow, ChunkRow, ShardRow}
use p2pnas.Store.Manifest.Texts.{eq_text}

-- A row of `files` as it is stored.
pub record StoredFile : Type 0 where
  pub file_id : Text
  pub user_id : Text
  pub path : Text
  pub size : ℕ
  pub stored_bytes : ℕ
  pub chunk_count : ℕ
  pub created_at : Text
  pub retired_path : Option Text
  pub deleted_at : Option Text
  pub superseded_at : Option Text
  pub lineage : Option Text
  pub key_scheme : ℤ
  pub content_hash : Option Text
  pub pack_id : Option Text
  pub pack_offset : Option ℤ
  pub pack_len : Option ℤ

pub record FolderRow : Type 0 where
  pub user_id : Text
  pub path : Text
  pub parent : Text

pub record Db : Type 0 where
  pub files : List StoredFile
  pub chunks : List ChunkRow
  pub shards : List ShardRow
  pub folders : List FolderRow

abbrev pub is_none : {A : Type 0} → Option A → Bool
is_none none = true
is_none (some a) = false

-- `FILE_COLS`, as `map_file` reads them.
unfoldable pub file_row : StoredFile → FileRow
file_row f = record {
  file_id = f.file_id;
  user_id = f.user_id;
  path = get_or f.retired_path f.path;
  size = f.size;
  stored_bytes = f.stored_bytes;
  chunk_count = f.chunk_count;
  created_at = f.created_at;
  deleted_at = f.deleted_at;
  superseded_at = f.superseded_at;
  lineage = get_or f.lineage f.file_id;
  key_scheme = f.key_scheme;
  content_hash = f.content_hash;
  pack_id = f.pack_id;
  pack_offset = f.pack_offset;
  pack_len = f.pack_len;
}

-- `WHERE user_id = … AND file_id = …`
abbrev pub is_row : Text → Text → StoredFile → Bool
is_row user_id file_id f = eq_text f.user_id user_id && eq_text f.file_id file_id

-- `LIVE`
abbrev pub is_live_row : StoredFile → Bool
is_live_row f = is_none f.deleted_at && is_none f.superseded_at

-- `UNIQUE (user_id, path)` between two rows.
abbrev pub same_path : StoredFile → StoredFile → Bool
same_path f g = eq_text f.user_id g.user_id && eq_text f.path g.path

unfoldable pub unique_paths : List StoredFile → Bool
unfolding any
unique_paths [] = true
unique_paths (f ∷ fs) = not (any (same_path f) fs) && unique_paths fs

-- `UPDATE files`: whether a row was changed, or the error when two rows would have one path.
unfoldable pub update_files :
    (StoredFile → Bool) → (StoredFile → StoredFile) → Db → StoreResult (Bool × Db)
unfolding any unique_paths
update_files test change d =
    let files = map (λ f. if test f then change f else f) d.files in
    if unique_paths files then ok (any test d.files, record d { files = files }) else err sqlite

-- `DELETE FROM chunks`, with the shards that it cascades to.
unfoldable pub delete_chunks : (ChunkRow → Bool) → Db → Db
unfolding any filter
delete_chunks test d = record d {
  chunks = filter (λ c. not (test c)) d.chunks;
  shards = filter (λ s. not (any (λ c. test c && eq_text c.chunk_id s.chunk_id) d.chunks)) d.shards;
}

-- `DELETE FROM files`, with the chunks that it cascades to.
unfoldable pub delete_files : (StoredFile → Bool) → Db → Db
unfolding any filter delete_chunks
delete_files test d =
    record (delete_chunks (λ c. any (λ f. test f && eq_text f.file_id c.file_id) d.files) d) {
      files = filter (λ f. not (test f)) d.files;
    }

-- The row of a new file: live, whatever the stamps of `f`.
unfoldable pub new_row : FileRow → StoredFile
new_row f = record {
  file_id = f.file_id;
  user_id = f.user_id;
  path = f.path;
  size = f.size;
  stored_bytes = f.stored_bytes;
  chunk_count = f.chunk_count;
  created_at = f.created_at;
  retired_path = none;
  deleted_at = none;
  superseded_at = none;
  lineage = some f.lineage;
  key_scheme = f.key_scheme;
  content_hash = f.content_hash;
  pack_id = f.pack_id;
  pack_offset = f.pack_offset;
  pack_len = f.pack_len;
}

unfoldable pub insert_file : FileRow → Db → StoreResult Db
unfolding any new_row
insert_file f d =
    if any (λ g. eq_text g.file_id f.file_id || same_path (new_row f) g) d.files
    then err sqlite
    else ok (record d { files = d.files ++ (new_row f ∷ []) })

-- The key is new, and the file is there.
unfoldable pub insert_chunk : ChunkRow → Db → StoreResult Db
unfolding any
insert_chunk c d =
    if any (λ b. eq_text b.chunk_id c.chunk_id) d.chunks
      || not (any (λ f. eq_text f.file_id c.file_id) d.files)
    then err sqlite
    else ok (record d { chunks = d.chunks ++ (c ∷ []) })

unfoldable pub insert_shard : ShardRow → Db → StoreResult Db
unfolding any
insert_shard s d =
    if any (λ r. eq_text r.fragment_id s.fragment_id) d.shards
      || not (any (λ c. eq_text c.chunk_id s.chunk_id) d.chunks)
    then err sqlite
    else ok (record d { shards = d.shards ++ (s ∷ []) })

unfoldable pub set_shard_location : Text → Text → Db → Db
set_shard_location fragment_id location d = record d {
  shards =
      map (λ s. if eq_text s.fragment_id fragment_id then record s { location = location } else s)
        d.shards;
}
