-- ===== src/Store/Chunkstore/Contents.antt =====
-- What the operations make of the files.
use p2pnas.Prelude.{
  Option, none, some, if◌then◌else◌, Bool-cases, inl, inr, ◌≡◌, ◌≢◌, refl, sym, ap, ◌∙◌, Bool, true,
  false, [], ◌∷◌, ◌++◌, take,
}
use p2pnas.Prelude.Dict.{
  lookup, insert, remove, lookup-insert_self, lookup-insert_ne, lookup-remove_self,
  lookup-remove_ne,
}
use p2pnas.Prelude.Results.{Result, ok, err}
use p2pnas.Core.Bytes.{Bytes}
use p2pnas.Store.Chunkstore.{
  Text, PathBuf, Files, path_discrete, is_valid_fragment_id, path, Written, done, failed, write,
  read, delete, exists, contents,
}
use p2pnas.Store.Errors.{StoreError, io, not_found, invalid_fragment_id}

-- Two ids with one path are one id.
path_tail :
    (root : PathBuf) (a b a' b' : Text)
    → ◌≡◌ {A = PathBuf} (root ++ (a ∷ b ∷ [])) (root ++ (a' ∷ b' ∷ []))
    → b ≡ b'
path_tail [] a b a' b' e = cc
path_tail (r ∷ root) a b a' b' e =
    path_tail root a b a' b' (let t : root ++ (a ∷ b ∷ []) ≡ root ++ (a' ∷ b' ∷ []) = cc in t)

path_valid :
    (root : PathBuf) (id : Text)
    → is_valid_fragment_id id ≡ true
    → path root id ≡ ok (root ++ (take 2 id ∷ id ∷ []))
unfolding path
path_valid root id v = rw v refl

path_invalid :
    (root : PathBuf) (id : Text)
    → is_valid_fragment_id id ≡ false
    → path root id ≡ err invalid_fragment_id
unfolding path
path_invalid root id v = rw v refl

module _ (root : PathBuf) (id : Text) (p : PathBuf) (at_p : path root id ≡ ok p) where
  write_there :
      (files : Files) (data' : Bytes)
      → (write root files id data' done).0 ≡ insert path_discrete p data' files
  unfolding write
  write_there files data' = rw (at_p, write) refl

  read_there : (files : Files) → read root files id false ≡ contents (lookup path_discrete p files)
  unfolding read
  read_there files = rw (at_p, read) refl

  delete_there : (files : Files) → (delete root files id false).0 ≡ remove path_discrete p files
  unfolding delete
  delete_there files = rw (at_p, delete) refl

-- A shard that was written is read back until something else happens to its id: writing it leaves
-- every other shard as it was, and so does deleting it, after which it is not found.
pub read-write-delete :
    (root : PathBuf) (files : Files) (id other : Text) (data' : Bytes)
    → is_valid_fragment_id id ≡ true
    → is_valid_fragment_id other ≡ true
    → id ≢ other
    → let written = (write root files id data' done).0 in
      let deleted = (delete root written id false).0 in
      (read root written id false ≡ ok data')
      × (read root written other false ≡ read root files other false)
      × (read root deleted id false ≡ err not_found)
      × (read root deleted other false ≡ read root files other false)
read-write-delete root files id other data' v v' ne =
    let p : PathBuf = root ++ (take 2 id ∷ id ∷ []) in
    let q : PathBuf = root ++ (take 2 other ∷ other ∷ []) in
    let at_p = path_valid root id v in
    let at_q = path_valid root other v' in
    let apart : p ≢ q = λ e. ne (path_tail root (take 2 id) id (take 2 other) other e) in
    let files' = insert path_discrete p data' files in
    let files'' = remove path_discrete p files' in
    let written : (write root files id data' done).0 ≡ files' =
      write_there root id p at_p files data' in
    let deleted : (delete root (write root files id data' done).0 id false).0 ≡ files'' =
      ap (λ l. (delete root l id false).0) written ∙ delete_there root id p at_p files' in
    let kept : read root files' other false ≡ read root files other false =
      read_there root other q at_q files'
      ∙ ap contents (lookup-insert_ne path_discrete p q data' files apart)
      ∙ sym (read_there root other q at_q files) in
    (
      ap (λ l. read root l id false) written
          ∙ read_there root id p at_p files'
          ∙ ap contents (lookup-insert_self path_discrete p data' files),
      ap (λ l. read root l other false) written ∙ kept,
      ap (λ l. read root l id false) deleted
          ∙ read_there root id p at_p files''
          ∙ ap contents (lookup-remove_self path_discrete p files'),
      ap (λ l. read root l other false) deleted
          ∙ read_there root other q at_q files''
          ∙ ap contents (lookup-remove_ne path_discrete p q files' apart)
          ∙ sym (read_there root other q at_q files')
          ∙ kept,
    )

-- An id of another form is refused by every operation, which then changes no file, whatever the system
-- would answer.
pub invalid_refused :
    (root : PathBuf) (files : Files) (id : Text) (data' : Bytes) (outcome : Written)
    (refused : Bool)
    → is_valid_fragment_id id ≡ false
    → (write root files id data' outcome ≡ (files, err invalid_fragment_id))
      × (read root files id refused ≡ err invalid_fragment_id)
      × (delete root files id refused ≡ (files, err invalid_fragment_id))
      × (exists root files id ≡ false)
unfolding write read delete exists
invalid_refused root files id data' outcome refused v =
    let none_there = path_invalid root id v in
    (
      rw (none_there, write) refl,
      rw (none_there, read) refl,
      rw (none_there, delete) refl,
      rw (none_there, exists) refl,
    )

-- Two ids that are valid have paths apart.
module _ (root : PathBuf) (files : Files) (id other : Text) (ne : id ≢ other) (refused : Bool) where
  paths_apart :
      ◌≢◌ {A = PathBuf} (root ++ (take 2 id ∷ id ∷ [])) (root ++ (take 2 other ∷ other ∷ []))
  paths_apart e = ne (path_tail root (take 2 id) id (take 2 other) other e)

  read-lookup :
      (files' : Files)
      → is_valid_fragment_id other ≡ true
      → lookup path_discrete (root ++ (take 2 other ∷ other ∷ [])) files'
        ≡ lookup path_discrete (root ++ (take 2 other ∷ other ∷ [])) files
      → read root files' other refused ≡ read root files other refused
  unfolding read
  read-lookup files' v same =
      rw (path_valid root other v, read)
        (ap (λ (found : Option Bytes). if refused then err io else contents found) same)

  -- A write, however it ends, leaves what is read of another id.
  pub read-write :
      (data' : Bytes) (outcome : Written)
      → read root (write root files id data' outcome).0 other refused
        ≡ read root files other refused
  unfolding write
  read-write data' outcome = elim (Bool-cases (is_valid_fragment_id other)) [
    | inr bad ↦
        (invalid_refused root (write root files id data' outcome).0 other data' outcome refused
          bad).1
        ∙ sym ((invalid_refused root files other data' outcome refused bad).1)
    | inl v ↦ elim (Bool-cases (is_valid_fragment_id id)) [
      | inr bad ↦
          ap (λ (r : Files × Result StoreError (Unit {0})). read root r.0 other refused)
            ((invalid_refused root files id data' outcome refused bad).0)
      | inl w ↦ read-lookup _ v (written outcome w)
    ]
  ]
    where
      written :
          (outcome : Written)
          → is_valid_fragment_id id ≡ true
          → lookup path_discrete
              (root ++ (take 2 other ∷ other ∷ []))
              (write root files id data' outcome).0
            ≡ lookup path_discrete (root ++ (take 2 other ∷ other ∷ [])) files
      written done w =
          rw (path_valid root id w, write)
            (lookup-insert_ne path_discrete _ _ data' files paths_apart)
      written (failed none) w = rw (path_valid root id w, write) refl
      written (failed (some left)) w =
          rw (path_valid root id w, write)
            (lookup-insert_ne path_discrete _ _ left files paths_apart)

  -- So does a deletion, refused or not.
  pub read-delete :
      (kept : Bool)
      → read root (delete root files id kept).0 other refused ≡ read root files other refused
  unfolding delete
  read-delete kept = elim (Bool-cases (is_valid_fragment_id other)) [
    | inr bad ↦
        (invalid_refused root (delete root files id kept).0 other [] done refused bad).1
        ∙ sym ((invalid_refused root files other [] done refused bad).1)
    | inl v ↦ elim (Bool-cases (is_valid_fragment_id id)) [
      | inr bad ↦
          ap (λ (r : Files × Result StoreError (Unit {0})). read root r.0 other refused)
            ((invalid_refused root files id [] done kept bad).2)
      | inl w ↦ read-lookup _ v (deleted kept w)
    ]
  ]
    where
      deleted :
          (kept : Bool)
          → is_valid_fragment_id id ≡ true
          → lookup path_discrete (root ++ (take 2 other ∷ other ∷ [])) (delete root files id kept).0
            ≡ lookup path_discrete (root ++ (take 2 other ∷ other ∷ [])) files
      deleted true w = rw (path_valid root id w, delete) refl
      deleted false w =
          rw (path_valid root id w, delete) (lookup-remove_ne path_discrete _ _ files paths_apart)
