-- ===== src/Store/Manifest/Folders.antt =====
-- store/src/manifest.rs: the explicit folders, and the moves of paths.
pub mod Case
use p2pnas.Prelude.{Bool, true, false, not, ◌&&◌, ◌||◌, List, [], ◌∷◌, ◌++◌, map, if◌then◌else◌}
use p2pnas.Prelude.Results.{ok, err, ◌>>=◌}
use p2pnas.Prelude.Select.{filter, any, order_by}
use p2pnas.Store.Errors.{StoreResult, sqlite}
use p2pnas.Store.Manifest.{Text}
use p2pnas.Store.Manifest.Texts.{eq_text, le_text, like, dirname, trim, segments}
use p2pnas.Store.Manifest.Db.{StoredFile, FolderRow, Db, is_row, is_live_row, update_files}

-- `path LIKE '{path}/%'`
abbrev pub below : Text → Text → Bool
below path = like (path ++ (b'/' ∷ b'%' ∷ []))

abbrev pub is_folder : Text → Text → FolderRow → Bool
is_folder user_id path g = eq_text g.user_id user_id && eq_text g.path path

-- `INSERT OR IGNORE`
unfoldable pub insert_or_ignore : FolderRow → List FolderRow → List FolderRow
unfolding any
insert_or_ignore g gs = if any (is_folder g.user_id g.path) gs then gs else gs ++ (g ∷ [])

abbrev pub joined_path : Text → Text → Text
joined_path [] seg = seg
joined_path (c ∷ acc) seg = (c ∷ acc) ++ (b'/' ∷ seg)

-- The loop over the segments.
unfoldable pub insert_ancestors : Text → Text → List Text → List FolderRow → List FolderRow
unfolding insert_or_ignore
insert_ancestors user_id acc [] gs = gs
insert_ancestors user_id acc (seg ∷ segs) gs =
    let acc' = joined_path acc seg in
    insert_ancestors user_id acc' segs
      (insert_or_ignore (record { user_id = user_id; path = acc'; parent = dirname acc' }) gs)

-- No segment, and nothing is inserted, where the path is empty.
unfoldable pub insert_folder : Text → Text → Db → Db
unfolding trim segments insert_ancestors
insert_folder user_id path d = record d {
  folders = insert_ancestors user_id [] (segments [] (trim path)) d.folders;
}

unfoldable pub folders_in : Text → Text → Db → List Text
unfolding filter order_by
folders_in user_id parent d = order_by le_text (
    map (λ (g : FolderRow). g.path)
      (filter (λ g. eq_text g.user_id user_id && eq_text g.parent parent) d.folders))

unfoldable pub folder_exists : Text → Text → Db → Bool
unfolding any
folder_exists user_id path d = any (is_folder user_id path) d.folders

unfoldable pub delete_folder_row : Text → Text → Db → Db
unfolding filter
delete_folder_row user_id path d = record d {
  folders = filter (λ g. not (is_folder user_id path g)) d.folders;
}

unfoldable pub delete_folder_subtree : Text → Text → Db → Db
unfolding filter like
delete_folder_subtree user_id path d = record d {
  folders =
      filter (λ g. not (eq_text g.user_id user_id && (eq_text g.path path || below path g.path)))
        d.folders;
}

-- The predicate of `files_under`.
abbrev pub is_under : Text → Text → StoredFile → Bool
is_under user_id path f =
    eq_text f.user_id user_id && (eq_text f.path path || below path f.path) && is_live_row f

unfoldable pub files_under : Text → Text → Db → List (Text × Text)
unfolding filter order_by like
files_under user_id path d =
    order_by (λ p q. le_text p.1 q.1)
      (map (λ (f : StoredFile). (f.file_id, f.path)) (filter (is_under user_id path) d.files))

unfoldable pub folders_under : Text → Text → Db → List Text
unfolding filter order_by like
folders_under user_id path d = order_by le_text (
    map (λ (g : FolderRow). g.path)
      (filter (λ g. eq_text g.user_id user_id && (eq_text g.path path || below path g.path))
        d.folders))

unfoldable pub update_file_path : Text → Text → Text → Db → StoreResult Db
unfolding update_files
update_file_path user_id file_id new_path d =
    update_files (is_row user_id file_id) (λ f. record f { path = new_path }) d >>= λ r. ok r.1

unfoldable pub unique_folders : List FolderRow → Bool
unfolding any
unique_folders [] = true
unique_folders (g ∷ gs) = not (any (is_folder g.user_id g.path) gs) && unique_folders gs

unfoldable pub update_folder_path : Text → Text → Text → Db → StoreResult Db
unfolding unique_folders
update_folder_path user_id old new d =
    let folders =
      map
        (λ g. if is_folder user_id old g then record g { path = new; parent = dirname new } else g)
        d.folders in
    if unique_folders folders then ok (record d { folders = folders }) else err sqlite
