-- ===== src/Store/Manifest/Keys/Steps.antt =====
-- store/src/manifest.rs: the invariant of the manifest, and that each query that writes keeps its links.
use mathlib.Core.Path.{subst}
use p2pnas.Prelude.{
  ◌≡◌, refl, sym, ap, ◌∙◌, Bool, true, false, ◌&&◌, map, if◌then◌else◌, Bool-cases, inl, inr,
}
use p2pnas.Prelude.Results.{ok, ok_steps, ok_inj}
use p2pnas.Prelude.Select.{any, Elem}
use p2pnas.Store.Manifest.{Text}
use p2pnas.Store.Manifest.Texts.{eq_text, dirname}
use p2pnas.Store.Manifest.Db.{StoredFile, Db, is_none, is_row, is_live_row, update_files}
use p2pnas.Store.Manifest.Retire.{
  Stamp, deleted, superseded, stamp_of, retire, retire_row, unretire, restore_file, purge_file_row,
  strip_file_chunks,
}
use p2pnas.Store.Manifest.Packs.{assign_to_pack}
use p2pnas.Store.Manifest.Folders.{
  insert_folder, delete_folder_row, delete_folder_subtree, update_file_path, update_folder_path,
  is_folder, unique_folders,
}
use p2pnas.Store.Manifest.Keys.{IsKeyed, and_false, is_row→≡}
use p2pnas.Store.Manifest.Keys.Linked.{
  IsParked, IsLinked, insert_file-IsLinked, insert_chunk-IsLinked, insert_shard-IsLinked,
}
use p2pnas.Store.Manifest.Keys.Changes.{
  same_rows, update_files-IsLinked, delete_chunks-IsLinked, delete_files-IsLinked,
  set_shard_location-IsLinked,
}
use p2pnas.Store.Manifest.Keys.Reach.{
  Step, file_inserted, chunk_inserted, shard_inserted, shard_moved, retired, restored, purged,
  stripped, assigned, file_moved, folder_made, folder_deleted, subtree_deleted, folder_moved,
}

-- The keys of the four tables, the rows that the others refer to, and the parking of retired rows.
pub record IsManifest (d : Db) : Type 0 where
  pub keyed : IsKeyed d
  pub linked : IsLinked d
  pub folder_paths : unique_folders d.folders ≡ true

-- A row that is retired is parked, whatever it was.
retire-IsParked : (column : Stamp) (at : Text) (f : StoredFile) → IsParked (retire column at f)
unfolding retire
retire-IsParked deleted at f = inr (refl, refl, λ e. cc)
retire-IsParked superseded at f = inr (and_false (is_none f.deleted_at), refl, λ e. cc)

retire_row-IsLinked :
    (column : Stamp) (user_id file_id at : Text) (d : Db) {r : Bool × Db}
    → IsLinked d
    → retire_row column user_id file_id at d ≡ ok r
    → IsLinked r.1
unfolding retire_row
retire_row-IsLinked column user_id file_id at d linked e =
    update_files-IsLinked (λ f. is_row user_id file_id f && is_none (stamp_of column f))
      (retire column at) d linked (kept column) (λ f m t. retire-IsParked column at f) e
  where
    kept : (c : Stamp) (f : StoredFile) → (retire c at f).file_id ≡ f.file_id
    kept deleted f = unfold retire in refl
    kept superseded f = unfold retire in refl

-- A current file that is moved is not parked, before and after.
update_file_path-IsLinked :
    (user_id file_id new_path : Text) (f : StoredFile) (d d' : Db)
    → Elem f d.files
    → is_row user_id file_id f ≡ true
    → is_live_row f ≡ true
    → IsKeyed d
    → IsLinked d
    → update_file_path user_id file_id new_path d ≡ ok d'
    → IsLinked d'
unfolding update_file_path
update_file_path-IsLinked user_id file_id new_path f d d' at_f row live keyed linked e =
    let change = λ (g : StoredFile). record g { path = new_path } in
    let (r, e1, done) = ok_steps (update_files (is_row user_id file_id) change d) _ e in
    subst IsLinked (ok_inj e1) (
      update_files-IsLinked (is_row user_id file_id) change d linked (λ g. refl)
        (λ g at_g t.
          let same =
            keyed.file_ids g f at_g at_f
              ((is_row→≡ user_id file_id g t).1 ∙ sym ((is_row→≡ user_id file_id f row).1)) in
          elim (linked.parked g at_g) [
            | inl current ↦ inl current
            | inr (dead, _, _) ↦
                let clash : true ≡ false = sym (ap is_live_row same ∙ live) ∙ dead in cc
          ])
        done)

pub update_folder_path-rows :
    (user_id old new : Text) (d d' : Db)
    → update_folder_path user_id old new d ≡ ok d'
    → IsLinked d
    → IsLinked d' × (unique_folders d'.folders ≡ true)
unfolding update_folder_path
update_folder_path-rows user_id old new d d' e linked =
    let folders =
      map
        (λ g. if is_folder user_id old g then record g { path = new; parent = dirname new } else g)
        d.folders in
    elim (Bool-cases (unique_folders folders)) [
      | inr t ↦ cc (rw (t, update_folder_path) at e)
      | inl t ↦
          subst (λ (x : Db). IsLinked x × (unique_folders x.folders ≡ true))
            (ok_inj (rw (t, update_folder_path) at e)) (same_rows d _ refl refl refl linked, t)
    ]

pub Step-IsLinked : {d d' : Db} → Step d d' → IsManifest d → IsLinked d'
unfolding purge_file_row strip_file_chunks restore_file assign_to_pack insert_folder
    delete_folder_row delete_folder_subtree unretire
Step-IsLinked (file_inserted f d d' e) m = insert_file-IsLinked f d m.linked e
Step-IsLinked (chunk_inserted c d d' e) m = insert_chunk-IsLinked c d m.linked e
Step-IsLinked (shard_inserted s d d' e) m = insert_shard-IsLinked s d m.linked e
Step-IsLinked (shard_moved fragment_id location d) m =
    set_shard_location-IsLinked fragment_id location d m.linked
Step-IsLinked (retired column user_id file_id at d d' b e) m =
    retire_row-IsLinked column user_id file_id at d m.linked e
Step-IsLinked (restored user_id file_id path d d' b e) m =
    update_files-IsLinked (is_row user_id file_id) (unretire path) d m.linked (λ f. refl)
      (λ f n t. inl (refl, refl)) e
Step-IsLinked (purged user_id file_id d) m =
    delete_files-IsLinked (is_row user_id file_id) d m.linked
Step-IsLinked (stripped user_id file_id d) m =
    delete_chunks-IsLinked
      (λ c. any (λ f. is_row user_id file_id f && eq_text f.file_id c.file_id) d.files) d m.linked
Step-IsLinked (assigned user_id file_id pack offset len d d' b e) m =
    update_files-IsLinked (is_row user_id file_id) _ d m.linked (λ f. refl)
      (λ f n t. m.linked.parked f n) e
Step-IsLinked (file_moved user_id file_id new_path f d d' at_f row live e) m =
    update_file_path-IsLinked user_id file_id new_path f d d' at_f row live m.keyed m.linked e
Step-IsLinked (folder_made user_id path d) m = same_rows d _ refl refl refl m.linked
Step-IsLinked (folder_deleted user_id path d) m = same_rows d _ refl refl refl m.linked
Step-IsLinked (subtree_deleted user_id path d) m = same_rows d _ refl refl refl m.linked
Step-IsLinked (folder_moved user_id old new d d' e) m =
    (update_folder_path-rows user_id old new d d' e m.linked).0
