-- ===== src/Store/Service/Tree.antt =====
-- store/src/service.rs: the view of the files as a tree of folders, and moves in it.
pub mod Moves
use p2pnas.Prelude.{
  ℕ, ◌+◌, Bool, true, false, not, ◌&&◌, ◌||◌, ltb, leb, List, [], ◌∷◌, ◌++◌, Option, none, some,
  length, drop, if◌then◌else◌,
}
use p2pnas.Prelude.Results.{ok, err, panic, ◌>>=◌}
use p2pnas.Store.Errors.{StoreResult, not_found}
use p2pnas.Store.Manifest.{Text, FileRow}
use p2pnas.Store.Manifest.Texts.{
  eq_text, le_text, trim, dirname, is_empty, strip_prefix, split_once,
}
use p2pnas.Store.Manifest.Db.{Db}
use p2pnas.Store.Manifest.Files.{get_file_by_path, list_files}
use p2pnas.Store.Manifest.Folders.{
  insert_folder, folders_in, files_under, folders_under, update_file_path, update_folder_path,
}

pub record DirListing : Type 0 where
  pub folders : List Text
  pub files : List FileRow

-- The insertion into a `BTreeSet`.
unfoldable pub insert_sorted : Text → List Text → List Text
unfolding eq_text le_text
insert_sorted x [] = x ∷ []
insert_sorted x (y ∷ ys) =
    let rest = insert_sorted x ys in
    if eq_text x y then y ∷ ys else if le_text x y then x ∷ (y ∷ ys) else y ∷ rest

unfoldable pub to_set : List Text → List Text
unfolding insert_sorted
to_set [] = []
to_set (x ∷ xs) = insert_sorted x (to_set xs)

-- The path of a file as seen from a folder.
abbrev pub relative : Text → Text → Option Text
relative [] path = some path
relative (c ∷ dir) path = strip_prefix ((c ∷ dir) ++ (b'/' ∷ [])) path

abbrev pub child_path : Text → Text → Text
child_path [] child = child
child_path (c ∷ dir) child = (c ∷ dir) ++ (b'/' ∷ child)

-- What a file adds to the listing; the files stand last first.
abbrev pub add_entry : Text → FileRow → Option Text → DirListing → DirListing
add_entry dir f none l = l
add_entry dir f (some []) l = l
add_entry dir f (some (c ∷ rel)) l = elim (split_once (c ∷ rel)) [
  | some (child, rest) ↦ record l { folders = insert_sorted (child_path dir child) l.folders }
  | none ↦ record l { files = l.files ++ (f ∷ []) }
]

-- The loop over the files.
unfoldable pub browse_each : Text → List FileRow → DirListing → DirListing
unfolding strip_prefix split_once insert_sorted
browse_each dir [] l = l
browse_each dir (f ∷ fs) l = browse_each dir fs (add_entry dir f (relative dir f.path) l)

unfoldable pub browse : Text → Text → Db → DirListing
unfolding trim folders_in list_files to_set browse_each
browse user_id dir d =
    browse_each (trim dir) (list_files user_id d)
      (record { folders = to_set (folders_in user_id (trim dir) d); files = [] })

unfoldable pub mkdir : Text → Text → Db → Db
unfolding trim insert_folder
mkdir user_id path d = insert_folder user_id (trim path) d

-- Whether a character starts here, or the text ends.
abbrev pub is_boundary : Text → Bool
is_boundary [] = true
is_boundary (c ∷ cs) = not (leb 128 c && ltb c 192)

-- `&path[n..]`
unfoldable pub slice_from : ℕ → Text → StoreResult Text
slice_from n path =
    if ltb (length path) n
    then panic
    else if is_boundary (drop n path)
    then ok (drop n path)
    else panic

-- The loop over the files under a folder.
unfoldable pub move_files : Text → Text → Text → List (Text × Text) → Db → StoreResult Db
unfolding slice_from update_file_path
move_files user_id from to [] d = ok d
move_files user_id from to ((file_id, path) ∷ files) d = slice_from (length from) path >>= λ suffix.
    update_file_path user_id file_id (to ++ suffix) d >>= λ d'. move_files user_id from to files d'

-- The loop over the folders under it.
unfoldable pub move_folders : Text → Text → Text → List Text → Db → StoreResult Db
unfolding slice_from update_folder_path
move_folders user_id from to [] d = ok d
move_folders user_id from to (path ∷ folders) d = slice_from (length from) path >>= λ suffix.
    update_folder_path user_id path (to ++ suffix) d >>= λ d'.
    move_folders user_id from to folders d'

abbrev pub no_rows : {A : Type 0} → List A → Bool
no_rows [] = true
no_rows (x ∷ xs) = false

unfoldable pub move_subtree : Text → Text → Text → Db → StoreResult Db
unfolding files_under folders_under move_files move_folders insert_folder
move_subtree user_id from to d =
    let files = files_under user_id from d in
    let folders = folders_under user_id from d in
    if no_rows files && no_rows folders
    then err not_found
    else move_files user_id from to files d >>= λ d1.
        move_folders user_id from to folders d1 >>= λ d2. ok (insert_folder user_id to d2)

-- With both paths trimmed.
unfoldable pub rename_at : Text → Text → Text → Db → StoreResult Db
unfolding eq_text insert_folder dirname get_file_by_path update_file_path move_subtree
rename_at user_id from to d =
    if is_empty from || is_empty to || eq_text from to
    then err not_found
    else let d1 = insert_folder user_id (dirname to) d in
      elim (get_file_by_path user_id from d1) [
        | some file ↦ update_file_path user_id file.file_id to d1
        | none ↦ move_subtree user_id from to d1
      ]

unfoldable pub rename : Text → Text → Text → Db → StoreResult Db
unfolding trim rename_at
rename user_id from to d = rename_at user_id (trim from) (trim to) d
