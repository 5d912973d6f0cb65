-- ===== src/Store/Service/Trash.antt =====
-- store/src/service.rs: the trash, the restoring and the permanent deletion of files. A transaction that
-- fails leaves the database as it was. The instant of a call is an argument in its written form.
pub mod RoundTrip
use p2pnas.Prelude.{
  ℕ, ◌+◌, Bool, true, false, not, ◌&&◌, ◌||◌, List, [], ◌∷◌, ◌++◌, Option, none, some,
  if◌then◌else◌,
}
use mathlib.Core.Option.{get_or}
use p2pnas.Prelude.Results.{Result, ok, err, panic, ◌>>=◌}
use p2pnas.Store.Errors.{StoreError, StoreResult, not_found}
use p2pnas.Store.Chunkstore.{PathBuf, Files, delete}
use p2pnas.Store.Manifest.{Text, FileRow}
use p2pnas.Store.Manifest.Texts.{eq_text, trim, dirname, is_empty}
use p2pnas.Store.Manifest.Db.{Db, is_none}
use p2pnas.Store.Manifest.Files.{get_file, get_file_by_path, list_trashed, is_live}
use p2pnas.Store.Manifest.Retire.{trash_file, supersede_file, restore_file, purge_file_row}
use p2pnas.Store.Manifest.Folders.{files_under, folder_exists, delete_folder_subtree, insert_folder}

abbrev pub ok_or : {A : Type 0} → StoreError → Option A → StoreResult A
ok_or e none = err e
ok_or e (some a) = ok a

unfoldable pub trash : Text → Text → Text → Db → StoreResult (FileRow × Db)
unfolding get_file trash_file
trash now user_id file_id d = ok_or not_found (get_file user_id file_id d) >>= λ file.
    if not (is_none file.deleted_at)
    then ok (file, d)
    else if not (is_none file.superseded_at)
    then err not_found
    else trash_file user_id file_id now d >>= λ r.
        ok_or not_found (get_file user_id file_id r.1) >>= λ trashed. ok (trashed, r.1)

pub record TrashSummary : Type 0 where
  pub files : ℕ
  pub size : ℕ
  pub stored_bytes : ℕ

abbrev pub nothing : TrashSummary
nothing = record { files = 0; size = 0; stored_bytes = 0 }

-- `TrashSummary::add`
unfoldable pub tally : FileRow → TrashSummary → TrashSummary
tally f s = record {
  files = s.files + 1;
  size = s.size + f.size;
  stored_bytes = s.stored_bytes + f.stored_bytes;
}

abbrev pub tally_some : Option FileRow → TrashSummary → TrashSummary
tally_some none s = s
tally_some (some f) s = tally f s

-- The loop over the files of a folder.
unfoldable pub trash_each :
    Text → Text → List (Text × Text) → TrashSummary → Db → StoreResult (TrashSummary × Db)
unfolding get_file trash_file tally
trash_each now user_id [] summary d = ok (summary, d)
trash_each now user_id ((file_id, path) ∷ files) summary d =
    trash_file user_id file_id now d >>= λ r.
    trash_each now user_id files (tally_some (get_file user_id file_id d) summary) r.1

abbrev pub no_files : List (Text × Text) → Bool
no_files [] = true
no_files (f ∷ fs) = false

-- Without a file at the path: its folder.
unfoldable pub trash_folder : Text → Text → Text → Db → StoreResult (TrashSummary × Db)
unfolding files_under folder_exists trash_each delete_folder_subtree
trash_folder now user_id path d =
    let files = files_under user_id path d in
    if no_files files && not (folder_exists user_id path d)
    then err not_found
    else trash_each now user_id files nothing d >>= λ (r : TrashSummary × Db).
        ok (r.0, delete_folder_subtree user_id path r.1)

unfoldable pub trash_path : Text → Text → Text → Db → StoreResult (TrashSummary × Db)
unfolding trim get_file_by_path trash_file tally trash_folder
trash_path now user_id path d = elim (get_file_by_path user_id (trim path) d) [
  | some file ↦ trash_file user_id file.file_id now d >>= λ r. ok (tally file nothing, r.1)
  | none ↦ trash_folder now user_id (trim path) d
]

-- What occupies the path, if it is another file, becomes an old version.
unfoldable pub vacate : Text → Text → Text → Option FileRow → Db → StoreResult Db
unfolding supersede_file
vacate now user_id file_id none d = ok d
vacate now user_id file_id (some current) d =
    if eq_text current.file_id file_id
    then ok d
    else supersede_file user_id current.file_id now d >>= λ r. ok r.1

-- From the target on, which is trimmed.
unfoldable pub restore_at : Text → Text → Text → Text → Db → StoreResult (FileRow × Db)
unfolding get_file get_file_by_path vacate insert_folder dirname restore_file
restore_at now user_id file_id target d =
    if is_empty target
    then err not_found
    else vacate now user_id file_id (get_file_by_path user_id target d) d >>= λ d1.
        restore_file user_id file_id target (insert_folder user_id (dirname target) d1) >>= λ r.
        ok_or not_found (get_file user_id file_id r.1) >>= λ restored. ok (restored, r.1)

unfoldable pub restore : Text → Text → Text → Option Text → Db → StoreResult (FileRow × Db)
unfolding get_file is_live trim restore_at
restore now user_id file_id new_path d = ok_or not_found (get_file user_id file_id d) >>= λ file.
    if is_live file
    then err not_found
    else restore_at now user_id file_id (trim (get_or new_path file.path)) d

-- Fragment and location.
abbrev pub RemoteShard : Type 0
RemoteShard = Text × Text

abbrev pub local : Text
local = b'l' ∷ b'o' ∷ b'c' ∷ b'a' ∷ b'l' ∷ []

-- The store of shards: its root, and which deletions the operating system refuses.
module _ (root : PathBuf) (refused : Text → Bool) where
  unfoldable pub purge_local_collect_remote : List RemoteShard → Files → List RemoteShard × Files
  unfolding eq_text delete
  purge_local_collect_remote [] store = ([], store)
  purge_local_collect_remote ((frag, location) ∷ frags) store =
      let freed = purge_local_collect_remote frags (delete root store frag (refused frag)).0 in
      let kept = purge_local_collect_remote frags store in
      if eq_text location local then freed else ((frag, location) ∷ kept.0, kept.1)

  unfoldable pub purge_file :
      Text → Text → Db → Files → StoreResult ((FileRow × List RemoteShard) × (Db × Files))
  unfolding get_file purge_file_row purge_local_collect_remote
  purge_file user_id file_id d store = ok_or not_found (get_file user_id file_id d) >>= λ file.
      let purged = purge_file_row user_id file_id d in
      let (remote, store') = purge_local_collect_remote purged.0 store in
      ok ((file, remote), (purged.1, store'))

  -- The loop over the files in the trash.
  unfoldable pub purge_each :
      Text
      → List FileRow
      → TrashSummary
      → List RemoteShard
      → Db
      → TrashSummary × List RemoteShard × Db
  unfolding purge_file_row tally
  purge_each user_id [] summary frags d = (summary, frags, d)
  purge_each user_id (f ∷ fs) summary frags d =
      let purged = purge_file_row user_id f.file_id d in
      purge_each user_id fs (tally f summary) (frags ++ purged.0) purged.1

  unfoldable pub empty_trash : Text → Db → Files → (TrashSummary × List RemoteShard) × (Db × Files)
  unfolding list_trashed purge_each purge_local_collect_remote
  empty_trash user_id d store =
      let (summary, frags, d') = purge_each user_id (list_trashed user_id d) nothing [] d in
      let (remote, store') = purge_local_collect_remote frags store in
      ((summary, remote), (d', store'))
