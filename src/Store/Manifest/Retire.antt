-- ===== src/Store/Manifest/Retire.antt =====
-- store/src/manifest.rs: the trash, the versions, and what the retention may reclaim.
use mathlib.Core.Option.{get_or}
use p2pnas.Prelude.{
  ℕ, ◌+◌, Bool, false, not, ◌&&◌, ◌||◌, ltb, List, Option, none, some, map, length,
}
use p2pnas.Prelude.Select.{filter, any}
use p2pnas.Store.Errors.{StoreResult}
use p2pnas.Store.Manifest.{Text, ShardRow}
use p2pnas.Store.Manifest.Texts.{eq_text, lt_text}
use p2pnas.Store.Manifest.Db.{
  StoredFile, Db, is_none, is_row, file_row, update_files, delete_files, delete_chunks,
}
use p2pnas.Store.Manifest.Files.{retired_key}

-- The `column` of `retire_row`.
pub data Stamp : Type 0 where
  deleted : Stamp
  superseded : Stamp

abbrev pub stamp_of : Stamp → StoredFile → Option Text
stamp_of deleted f = f.deleted_at
stamp_of superseded f = f.superseded_at

abbrev pub set_stamp : Stamp → Text → StoredFile → StoredFile
set_stamp deleted at f = record f { deleted_at = some at }
set_stamp superseded at f = record f { superseded_at = some at }

unfoldable pub retire : Stamp → Text → StoredFile → StoredFile
unfolding retired_key
retire column at f = record (set_stamp column at f) {
  retired_path = some (get_or f.retired_path f.path);
  path = retired_key f.file_id;
}

unfoldable pub retire_row : Stamp → Text → Text → Text → Db → StoreResult (Bool × Db)
unfolding update_files retire
retire_row column user_id file_id at d =
    update_files (λ f. is_row user_id file_id f && is_none (stamp_of column f)) (retire column at) d

unfoldable pub trash_file : Text → Text → Text → Db → StoreResult (Bool × Db)
unfolding retire_row
trash_file user_id file_id at d = retire_row deleted user_id file_id at d

unfoldable pub supersede_file : Text → Text → Text → Db → StoreResult (Bool × Db)
unfolding retire_row
supersede_file user_id file_id at d = retire_row superseded user_id file_id at d

unfoldable pub unretire : Text → StoredFile → StoredFile
unretire path f = record f {
  deleted_at = none;
  superseded_at = none;
  retired_path = none;
  path = path;
}

unfoldable pub restore_file : Text → Text → Text → Db → StoreResult (Bool × Db)
unfolding update_files unretire
restore_file user_id file_id path d = update_files (is_row user_id file_id) (unretire path) d

-- User, file, size and stored bytes.
abbrev pub PurgeCandidate : Type 0
PurgeCandidate = Text × Text × ℕ × ℕ

unfoldable pub purge_candidates : (StoredFile → Bool) → Db → List PurgeCandidate
unfolding filter
purge_candidates test d =
    map (λ f. (f.user_id, f.file_id, f.size, f.stored_bytes)) (filter test d.files)

-- `… IS NOT NULL AND … < ?1`
abbrev pub is_before : Text → Option Text → Bool
is_before cutoff none = false
is_before cutoff (some at) = lt_text at cutoff

unfoldable pub trashed_before : Text → Db → List PurgeCandidate
unfolding purge_candidates
trashed_before cutoff d = purge_candidates (λ f. is_before cutoff f.deleted_at) d

unfoldable pub superseded_before : Text → Db → List PurgeCandidate
unfolding purge_candidates
superseded_before cutoff d = purge_candidates (λ f. is_before cutoff f.superseded_at) d

-- `PARTITION BY user_id, COALESCE(lineage, file_id)`
unfoldable pub same_lineage : StoredFile → StoredFile → Bool
unfolding file_row
same_lineage f g = eq_text f.user_id g.user_id && eq_text (file_row f).lineage (file_row g).lineage

-- `ORDER BY created_at DESC, file_id DESC`: whether `f` ranks before `g`.
unfoldable pub ranks_before : StoredFile → StoredFile → Bool
ranks_before f g =
    lt_text g.created_at f.created_at
    || (not (lt_text f.created_at g.created_at) && lt_text g.file_id f.file_id)

-- `ROW_NUMBER()` among the old versions, from one; the ids of files are distinct.
unfoldable pub row_number : List StoredFile → StoredFile → ℕ
unfolding filter same_lineage ranks_before
row_number fs f =
    length (filter (λ g. not (is_none g.superseded_at) && same_lineage g f && ranks_before g f) fs)
    + 1

unfoldable pub superseded_beyond : ℕ → Db → List PurgeCandidate
unfolding purge_candidates row_number
superseded_beyond keep d =
    purge_candidates (λ f. not (is_none f.superseded_at) && ltb keep (row_number d.files f)) d

unfoldable pub superseded_orphans : Db → List PurgeCandidate
unfolding purge_candidates any same_lineage
superseded_orphans d =
    purge_candidates
      (λ f.
        not (is_none f.superseded_at)
        && not (any (λ l. same_lineage l f && is_none l.superseded_at) d.files))
      d

-- The shards of a file: the join of the three tables.
unfoldable pub shards_of_file : Text → Text → Db → List ShardRow
unfolding any filter
shards_of_file user_id file_id d =
    filter
      (λ s.
        any (is_row user_id file_id) d.files
        && any (λ c. eq_text c.chunk_id s.chunk_id && eq_text c.file_id file_id) d.chunks)
      d.shards

unfoldable pub fragments_of : Text → Text → Db → List (Text × Text)
unfolding shards_of_file
fragments_of user_id file_id d =
    map (λ (s : ShardRow). (s.fragment_id, s.location)) (shards_of_file user_id file_id d)

unfoldable pub purge_file_row : Text → Text → Db → List (Text × Text) × Db
unfolding fragments_of delete_files
purge_file_row user_id file_id d =
    (fragments_of user_id file_id d, delete_files (is_row user_id file_id) d)

-- `strip_file_chunks`: the chunks of a file go, its row stays.
unfoldable pub strip_file_chunks : Text → Text → Db → List (Text × Text) × Db
unfolding fragments_of delete_chunks any
strip_file_chunks user_id file_id d = (
  fragments_of user_id file_id d,
  delete_chunks (λ c. any (λ f. is_row user_id file_id f && eq_text f.file_id c.file_id) d.files) d,
)
