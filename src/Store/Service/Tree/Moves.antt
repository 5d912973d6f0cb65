-- ===== src/Store/Service/Tree/Moves.antt =====
-- store/src/service.rs: a move changes paths and nothing else.
use mathlib.Core.Path.{subst}
use p2pnas.Prelude.{
  ◌≡◌, refl, sym, ap, ◌∙◌, ◌&&◌, ◌||◌, List, [], ◌∷◌, ◌++◌, map, length, if◌then◌else◌, Bool-cases,
  Option-cases, inl, inr,
}
use p2pnas.Prelude.Results.{ok, ok_steps, ok_inj}
use p2pnas.Store.Errors.{StoreResult}
use p2pnas.Store.Manifest.{Text}
use p2pnas.Store.Manifest.Texts.{eq_text, trim, dirname, is_empty}
use p2pnas.Store.Manifest.Db.{StoredFile, Db, is_row, update_files}
use p2pnas.Store.Manifest.Files.{get_file_by_path}
use p2pnas.Store.Manifest.Folders.{
  insert_folder, files_under, folders_under, update_file_path, update_folder_path, unique_folders,
  is_folder,
}
use p2pnas.Store.Manifest.Keys.{update_files_ok}
use p2pnas.Store.Service.Tree.{
  slice_from, move_files, move_folders, move_subtree, no_rows, rename_at, rename,
}

-- A row but for its path.
abbrev pub without_path : StoredFile → StoredFile
without_path f = record f { path = [] }

-- The same rows but for their paths, and the same chunks and shards.
pub record IsMoved (d d' : Db) : Type 0 where
  pub files : map without_path d'.files ≡ map without_path d.files
  pub chunks : d'.chunks ≡ d.chunks
  pub shards : d'.shards ≡ d.shards

IsMoved-refl : (d : Db) → IsMoved d d
IsMoved-refl d = record { files = refl; chunks = refl; shards = refl }

IsMoved-trans : {a b c : Db} → IsMoved a b → IsMoved b c → IsMoved a c
IsMoved-trans p q = record {
  files = q.files ∙ p.files;
  chunks = q.chunks ∙ p.chunks;
  shards = q.shards ∙ p.shards;
}

insert_folder-IsMoved : (user_id path : Text) (d : Db) → IsMoved d (insert_folder user_id path d)
unfolding insert_folder
insert_folder-IsMoved user_id path d = record { files = refl; chunks = refl; shards = refl }

update_file_path-IsMoved :
    (user_id file_id new_path : Text) (d : Db) {d' : Db}
    → update_file_path user_id file_id new_path d ≡ ok d'
    → IsMoved d d'
unfolding update_file_path
update_file_path-IsMoved user_id file_id new_path d {d'} e =
    let change = λ (f : StoredFile). record f { path = new_path } in
    let (r, e1, done) = ok_steps (update_files (is_row user_id file_id) change d) _ e in
    let (_, at_r) = update_files_ok (is_row user_id file_id) change d r done in
    let same = sym (ok_inj e1) ∙ at_r in
    record {
      files = ap (λ (x : Db). map without_path x.files) same ∙ paths d.files;
      chunks = ap (λ (x : Db). x.chunks) same;
      shards = ap (λ (x : Db). x.shards) same;
    }
  where
    paths :
        (fs : List StoredFile)
        → map without_path
            (map (λ f. if is_row user_id file_id f then record f { path = new_path } else f) fs)
          ≡ map without_path fs
    paths [] = refl
    paths (f ∷ fs) = elim (Bool-cases (is_row user_id file_id f)) [
      | inl t ↦ rw t (ap (λ t. without_path f ∷ t) (paths fs))
      | inr t ↦ rw t (ap (λ t. without_path f ∷ t) (paths fs))
    ]

IsMoved-same : {a b c : Db} → IsMoved a b → ◌≡◌ {A = StoreResult Db} (ok b) (ok c) → IsMoved a c
IsMoved-same {a} p e = subst (IsMoved a) (ok_inj e) p

update_folder_path-IsMoved :
    (user_id old new : Text) (d : Db) {d' : Db}
    → update_folder_path user_id old new d ≡ ok d'
    → IsMoved d d'
unfolding update_folder_path
update_folder_path-IsMoved user_id old new d {d'} e =
    let folders =
      map
        (λ g. if is_folder user_id old g then record g { path = new; parent = dirname new } else g)
        d.folders in
    elim (Bool-cases (unique_folders folders)) [
      | inl t ↦
          IsMoved-same (record { files = refl; chunks = refl; shards = refl })
            (rw (t, update_folder_path) at e)
      | inr t ↦ cc (rw (t, update_folder_path) at e)
    ]

move_files-IsMoved :
    (user_id from to : Text) (files : List (Text × Text)) (d : Db) {d' : Db}
    → move_files user_id from to files d ≡ ok d'
    → IsMoved d d'
unfolding move_files
move_files-IsMoved user_id from to [] d {d'} e = IsMoved-same (IsMoved-refl d) e
move_files-IsMoved user_id from to ((file_id, path) ∷ files) d {d'} e =
    let (suffix, e1, _) = ok_steps (slice_from (length from) path) _ e in
    let (d1, e2, moved) = ok_steps (update_file_path user_id file_id (to ++ suffix) d) _ e1 in
    IsMoved-trans (update_file_path-IsMoved user_id file_id (to ++ suffix) d moved)
      (move_files-IsMoved user_id from to files d1 e2)

move_folders-IsMoved :
    (user_id from to : Text) (folders : List Text) (d : Db) {d' : Db}
    → move_folders user_id from to folders d ≡ ok d'
    → IsMoved d d'
unfolding move_folders
move_folders-IsMoved user_id from to [] d {d'} e = IsMoved-same (IsMoved-refl d) e
move_folders-IsMoved user_id from to (path ∷ folders) d {d'} e =
    let (suffix, e1, _) = ok_steps (slice_from (length from) path) _ e in
    let (d1, e2, moved) = ok_steps (update_folder_path user_id path (to ++ suffix) d) _ e1 in
    IsMoved-trans (update_folder_path-IsMoved user_id path (to ++ suffix) d moved)
      (move_folders-IsMoved user_id from to folders d1 e2)

move_subtree-IsMoved :
    (user_id from to : Text) (d : Db) {d' : Db}
    → move_subtree user_id from to d ≡ ok d'
    → IsMoved d d'
unfolding move_subtree
move_subtree-IsMoved user_id from to d {d'} e =
    let files = files_under user_id from d in
    let folders = folders_under user_id from d in
    elim (Bool-cases (no_rows files && no_rows folders)) [
      | inl t ↦ cc (rw (t, move_subtree) at e)
      | inr t ↦
          let (d1, e1, first_moved) =
            ok_steps (move_files user_id from to files d) _ (rw (t, move_subtree) at e) in
          let (d2, e2, then_moved) = ok_steps (move_folders user_id from to folders d1) _ e1 in
          IsMoved-trans (move_files-IsMoved user_id from to files d first_moved) (
            IsMoved-trans (move_folders-IsMoved user_id from to folders d1 then_moved)
              (IsMoved-same (insert_folder-IsMoved user_id to d2) e2))
    ]

rename_at-IsMoved :
    (user_id from to : Text) (d : Db) {d' : Db} → rename_at user_id from to d ≡ ok d' → IsMoved d d'
unfolding rename_at
rename_at-IsMoved user_id from to d {d'} e =
    elim (Bool-cases (is_empty from || is_empty to || eq_text from to)) [
      | inl t ↦ cc (rw (t, rename_at) at e)
      | inr t ↦
          let d1 = insert_folder user_id (dirname to) d in
          let made = insert_folder-IsMoved user_id (dirname to) d in
          elim (Option-cases (get_file_by_path user_id from d1)) [
            | inl o ↦
                IsMoved-trans made
                  (move_subtree-IsMoved user_id from to d1 (rw o at (rw (t, rename_at) at e)))
            | inr (file, o) ↦ IsMoved-trans made (
                update_file_path-IsMoved user_id file.file_id to d1
                  (rw o at (rw (t, rename_at) at e)))
          ]
    ]

-- A move that succeeds, of a file or of a folder with all in it, changes the paths of files and nothing
-- else of them: the rows are the same in their order but for their paths, and so are all chunks and
-- shards.
pub rename-IsMoved :
    (user_id from to : Text) (d d' : Db) → rename user_id from to d ≡ ok d' → IsMoved d d'
unfolding rename
rename-IsMoved user_id from to d d' e = rename_at-IsMoved user_id (trim from) (trim to) d e
