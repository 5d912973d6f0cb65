-- ===== src/Store/Manifest/Files.antt =====
-- store/src/manifest.rs: the queries on files, chunks and shards.
use p2pnas.Prelude.{
  Bool, true, false, not, ◌&&◌, ◌||◌, leb, List, [], ◌∷◌, ◌++◌, Option, none, some, map,
}
use p2pnas.Prelude.Select.{filter, first, order_by}
use p2pnas.Store.Manifest.{Text, FileRow, ChunkRow, ShardRow}
use p2pnas.Store.Manifest.Texts.{eq_text, le_text, lt_text, like, starts_with}
use p2pnas.Store.Manifest.Db.{StoredFile, Db, is_none, file_row, is_row, is_live_row}

-- `RETIRED_PATH_PREFIX`, "\u{1}retired/"
abbrev pub retired_path_prefix : Text
retired_path_prefix = 1 ∷ b'r' ∷ b'e' ∷ b't' ∷ b'i' ∷ b'r' ∷ b'e' ∷ b'd' ∷ b'/' ∷ []

unfoldable pub retired_key : Text → Text
retired_key file_id = retired_path_prefix ++ file_id

-- `PACK_PATH_PREFIX`, "\u{1}pack/"
abbrev pub pack_path_prefix : Text
pack_path_prefix = 1 ∷ b'p' ∷ b'a' ∷ b'c' ∷ b'k' ∷ b'/' ∷ []

unfoldable pub pack_key : Text → Text
pack_key pack_id = pack_path_prefix ++ pack_id

-- `not_pack`, of the stored path.
unfoldable pub not_pack : StoredFile → Bool
unfolding like
not_pack f = not (like (pack_path_prefix ++ (b'%' ∷ [])) f.path)

unfoldable pub is_live : FileRow → Bool
is_live f = is_none f.deleted_at && is_none f.superseded_at

unfoldable pub is_pack : FileRow → Bool
unfolding starts_with
is_pack f = starts_with pack_path_prefix f.path

abbrev pub by_path : FileRow → FileRow → Bool
by_path f g = le_text f.path g.path

-- `lt`, or where neither is less, `next`.
abbrev pub then_by : {A : Type 0} → (A → A → Bool) → (A → A → Bool) → A → A → Bool
then_by lt next f g = lt f g || (not (lt g f) && next f g)

abbrev pub lt_option : Option Text → Option Text → Bool
lt_option none none = false
lt_option none (some y) = true
lt_option (some x) none = false
lt_option (some x) (some y) = lt_text x y

unfoldable pub list_files : Text → Db → List FileRow
unfolding filter order_by file_row not_pack
list_files user_id d =
    order_by by_path (
      map file_row (filter (λ f. eq_text f.user_id user_id && is_live_row f && not_pack f) d.files))

unfoldable pub list_trashed : Text → Db → List FileRow
unfolding filter order_by file_row not_pack
list_trashed user_id d = order_by (then_by (λ f g. lt_option g.deleted_at f.deleted_at) by_path) (
    map file_row
      (filter (λ f. eq_text f.user_id user_id && not (is_none f.deleted_at) && not_pack f) d.files))

-- The last created first.
abbrev pub newest_first : FileRow → FileRow → Bool
newest_first =
    then_by (λ f g. lt_text g.created_at f.created_at) (λ f g. le_text g.file_id f.file_id)

unfoldable pub list_lineage : Text → Text → Db → List FileRow
unfolding filter order_by file_row
list_lineage user_id lineage d = order_by newest_first (
    map file_row
      (filter (λ f. eq_text f.user_id user_id && eq_text (file_row f).lineage lineage) d.files))

unfoldable pub list_user_rows : Text → Db → List FileRow
unfolding filter order_by file_row
list_user_rows user_id d =
    order_by by_path (map file_row (filter (λ f. eq_text f.user_id user_id) d.files))

unfoldable pub list_all_files : Db → List FileRow
unfolding order_by file_row
list_all_files d =
    order_by (then_by (λ f g. lt_text f.user_id g.user_id) by_path) (map file_row d.files)

unfoldable pub get_file : Text → Text → Db → Option FileRow
unfolding filter first file_row
get_file user_id file_id d = first (map file_row (filter (is_row user_id file_id) d.files))

-- `get_file_by_path`, before the row is read.
abbrev pub is_at : Text → Text → StoredFile → Bool
is_at user_id path f =
    eq_text f.user_id user_id && eq_text f.path path && is_live_row f && not_pack f

unfoldable pub get_file_by_path : Text → Text → Db → Option FileRow
unfolding filter first file_row not_pack
get_file_by_path user_id path d = first (map file_row (filter (is_at user_id path) d.files))

unfoldable pub get_chunks : Text → Db → List ChunkRow
unfolding filter order_by
get_chunks file_id d =
    order_by (λ b c. leb b.idx c.idx) (filter (λ c. eq_text c.file_id file_id) d.chunks)

unfoldable pub get_shards : Text → Db → List ShardRow
unfolding filter order_by
get_shards chunk_id d =
    order_by (λ r s. leb r.shard_index s.shard_index)
      (filter (λ s. eq_text s.chunk_id chunk_id) d.shards)
