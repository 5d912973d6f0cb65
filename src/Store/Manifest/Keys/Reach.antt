-- ===== src/Store/Manifest/Keys/Reach.antt =====
-- store/src/manifest.rs: the queries that write, and that each keeps the keys of files and chunks.
use p2pnas.Prelude.{
  ◌≡◌, refl, sym, ap, ◌∙◌, Bool, true, not, ◌&&◌, ◌||◌, [], map, if◌then◌else◌, Bool-cases, inl,
  inr,
}
use mathlib.Core.Path.{subst}
use p2pnas.Prelude.Int.{ℤ}
use p2pnas.Prelude.Results.{ok, ok_steps, ok_inj}
use p2pnas.Prelude.Select.{any, Elem}
use p2pnas.Store.Manifest.{Text, FileRow, ChunkRow, ShardRow}
use p2pnas.Store.Manifest.Texts.{eq_text, dirname}
use p2pnas.Store.Manifest.Db.{
  StoredFile, Db, is_none, is_row, is_live_row, unique_paths, update_files, insert_file,
  insert_chunk, insert_shard, set_shard_location,
}
use p2pnas.Store.Manifest.Retire.{
  Stamp, deleted, superseded, stamp_of, retire, retire_row, unretire, restore_file, purge_file_row,
  strip_file_chunks,
}
use p2pnas.Store.Manifest.Packs.{assign_to_pack}
use p2pnas.Store.Manifest.Folders.{
  insert_folder, delete_folder_row, delete_folder_subtree, update_file_path, update_folder_path,
  is_folder, unique_folders,
}
use p2pnas.Store.Manifest.Keys.{IsKey, IsKeyed}
use p2pnas.Store.Manifest.Keys.Writes.{
  insert_file-IsKeyed, insert_chunk-IsKeyed, update_files-IsKeyed, delete_chunks-IsKeyed,
  delete_files-IsKeyed,
}

-- What a query that writes makes of a database, where it succeeds.
pub data Step : Db → Db → Type 0 where
  file_inserted : (f : FileRow) (d d' : Db) → insert_file f d ≡ ok d' → Step d d'
  chunk_inserted : (c : ChunkRow) (d d' : Db) → insert_chunk c d ≡ ok d' → Step d d'
  shard_inserted : (s : ShardRow) (d d' : Db) → insert_shard s d ≡ ok d' → Step d d'
  shard_moved :
      (fragment_id location : Text) (d : Db) → Step d (set_shard_location fragment_id location d)
  retired :
      (column : Stamp) (user_id file_id at : Text) (d d' : Db) (b : Bool)
      → retire_row column user_id file_id at d ≡ ok (b, d')
      → Step d d'
  restored :
      (user_id file_id path : Text) (d d' : Db) (b : Bool)
      → restore_file user_id file_id path d ≡ ok (b, d')
      → Step d d'
  purged : (user_id file_id : Text) (d : Db) → Step d (purge_file_row user_id file_id d).1
  stripped : (user_id file_id : Text) (d : Db) → Step d (strip_file_chunks user_id file_id d).1
  assigned :
      (user_id file_id pack : Text) (offset len : ℤ) (d d' : Db) (b : Bool)
      → assign_to_pack user_id file_id pack offset len d ≡ ok (b, d')
      → Step d d'
  -- Of a current file, as `rename` moves them.
  file_moved :
      (user_id file_id new_path : Text) (f : StoredFile) (d d' : Db)
      → Elem f d.files
      → is_row user_id file_id f ≡ true
      → is_live_row f ≡ true
      → update_file_path user_id file_id new_path d ≡ ok d'
      → Step d d'
  folder_made : (user_id path : Text) (d : Db) → Step d (insert_folder user_id path d)
  folder_deleted : (user_id path : Text) (d : Db) → Step d (delete_folder_row user_id path d)
  subtree_deleted : (user_id path : Text) (d : Db) → Step d (delete_folder_subtree user_id path d)
  folder_moved :
      (user_id old new : Text) (d d' : Db)
      → update_folder_path user_id old new d ≡ ok d'
      → Step d d'

abbrev pub no_rows : Db
no_rows = record { files = []; chunks = []; shards = []; folders = [] }

pub data IsReached : Db → Type 0 where
  created : IsReached no_rows
  written : (d d' : Db) → IsReached d → Step d d' → IsReached d'

-- The files and chunks are the same.
same_files : (d d' : Db) → d'.files ≡ d.files → d'.chunks ≡ d.chunks → IsKeyed d → IsKeyed d'
same_files d d' files chunks keyed = record {
  file_ids = subst (λ fs. IsKey (λ (f : StoredFile). f.file_id) fs) (sym files) keyed.file_ids;
  chunk_ids = subst (λ cs. IsKey (λ (c : ChunkRow). c.chunk_id) cs) (sym chunks) keyed.chunk_ids;
  paths = ap unique_paths files ∙ keyed.paths;
}

insert_shard-IsKeyed :
    (s : ShardRow) (d d' : Db) → insert_shard s d ≡ ok d' → IsKeyed d → IsKeyed d'
unfolding insert_shard
insert_shard-IsKeyed s d d' e keyed =
    elim (Bool-cases (
      any (λ (r : ShardRow). eq_text r.fragment_id s.fragment_id) d.shards
      || not (any (λ (c : ChunkRow). eq_text c.chunk_id s.chunk_id) d.chunks))) [
        | inl t ↦ cc (rw (t, insert_shard) at e)
        | inr t ↦
            let same = ok_inj (rw (t, insert_shard) at e) in
            same_files d d' (ap (λ (x : Db). x.files) (sym same))
              (ap (λ (x : Db). x.chunks) (sym same)) keyed
      ]

update_folder_path-IsKeyed :
    (user_id old new : Text) (d d' : Db)
    → update_folder_path user_id old new d ≡ ok d'
    → IsKeyed d
    → IsKeyed d'
unfolding update_folder_path
update_folder_path-IsKeyed user_id old new d d' e keyed =
    let folders =
      map
        (λ g. if is_folder user_id old g then record g { path = new; parent = dirname new } else g)
        d.folders in
    elim (Bool-cases (unique_folders folders)) [
      | inl t ↦
          let same = ok_inj (rw (t, update_folder_path) at e) in
          same_files d d' (ap (λ (x : Db). x.files) (sym same))
            (ap (λ (x : Db). x.chunks) (sym same)) keyed
      | inr t ↦ cc (rw (t, update_folder_path) at e)
    ]

retire_row-IsKeyed :
    (column : Stamp) (user_id file_id at : Text) (d : Db) {r : Bool × Db}
    → retire_row column user_id file_id at d ≡ ok r
    → IsKeyed d
    → IsKeyed r.1
unfolding retire_row
retire_row-IsKeyed column user_id file_id at d e keyed =
    update_files-IsKeyed (λ f. is_row user_id file_id f && is_none (stamp_of column f))
      (retire column at) d keyed (kept column) e
  where
    kept : (c : Stamp) (f : StoredFile) → (retire c at f).file_id ≡ f.file_id
    kept deleted f = unfold retire in refl
    kept superseded f = unfold retire in refl

pub Step-IsKeyed : {d d' : Db} → Step d d' → IsKeyed d → IsKeyed d'
unfolding set_shard_location purge_file_row strip_file_chunks restore_file assign_to_pack
    update_file_path insert_folder delete_folder_row delete_folder_subtree unretire
Step-IsKeyed (file_inserted f d d' e) keyed = insert_file-IsKeyed f d keyed e
Step-IsKeyed (chunk_inserted c d d' e) keyed = insert_chunk-IsKeyed c d keyed e
Step-IsKeyed (shard_inserted s d d' e) keyed = insert_shard-IsKeyed s d d' e keyed
Step-IsKeyed (shard_moved fragment_id location d) keyed = same_files d _ refl refl keyed
Step-IsKeyed (retired column user_id file_id at d d' b e) keyed =
    retire_row-IsKeyed column user_id file_id at d e keyed
Step-IsKeyed (restored user_id file_id path d d' b e) keyed =
    update_files-IsKeyed (is_row user_id file_id) (unretire path) d keyed (λ f. refl) e
Step-IsKeyed (purged user_id file_id d) keyed =
    delete_files-IsKeyed (is_row user_id file_id) d keyed
Step-IsKeyed (stripped user_id file_id d) keyed =
    delete_chunks-IsKeyed
      (λ c. any (λ f. is_row user_id file_id f && eq_text f.file_id c.file_id) d.files) d keyed
Step-IsKeyed (assigned user_id file_id pack offset len d d' b e) keyed =
    update_files-IsKeyed (is_row user_id file_id) _ d keyed (λ f. refl) e
Step-IsKeyed (file_moved user_id file_id new_path f d d' at_f row live e) keyed =
    let change = λ (f : StoredFile). record f { path = new_path } in
    let (r, e1, done) = ok_steps (update_files (is_row user_id file_id) change d) _ e in
    subst IsKeyed (ok_inj e1)
      (update_files-IsKeyed (is_row user_id file_id) change d keyed (λ f. refl) done)
Step-IsKeyed (folder_made user_id path d) keyed = same_files d _ refl refl keyed
Step-IsKeyed (folder_deleted user_id path d) keyed = same_files d _ refl refl keyed
Step-IsKeyed (subtree_deleted user_id path d) keyed = same_files d _ refl refl keyed
Step-IsKeyed (folder_moved user_id old new d d' e) keyed =
    update_folder_path-IsKeyed user_id old new d d' e keyed
