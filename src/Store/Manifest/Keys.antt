-- ===== src/Store/Manifest/Keys.antt =====
-- store/src/manifest.rs: the keys of the tables.
pub mod Writes
pub mod Folders
pub mod Linked
pub mod Changes
pub mod Reach
pub mod Steps
pub mod Whole
use p2pnas.Prelude.{
  ◌≡◌, refl, sym, ap, ◌∙◌, ◌≢◌, Bool, true, false, not, ◌&&◌, List, [], ◌∷◌, Bool-cases, inl, inr,
  map, some, if◌then◌else◌,
}
use p2pnas.Prelude.Results.{ok, ok_inj}
use p2pnas.Prelude.Select.{Elem, any, any_some, first-filter}
use p2pnas.Store.Manifest.{Text, ChunkRow}
use p2pnas.Store.Manifest.Texts.{eq_text, eq_text_refl, eq_text→≡}
use p2pnas.Store.Manifest.Db.{
  StoredFile, Db, is_row, is_live_row, file_row, same_path, unique_paths, update_files,
}
use p2pnas.Store.Manifest.Files.{get_file, is_at, not_pack}

-- No two rows have one key.
abbrev pub IsKey : {A : Type 0} → (A → Text) → List A → Type 0
IsKey {A} key xs = (x y : A) → Elem x xs → Elem y xs → key x ≡ key y → x ≡ y

-- The primary keys of files and chunks, and `UNIQUE (user_id, path)`.
pub record IsKeyed (d : Db) : Type 0 where
  pub file_ids : IsKey (λ (f : StoredFile). f.file_id) d.files
  pub chunk_ids : IsKey (λ (c : ChunkRow). c.chunk_id) d.chunks
  pub paths : unique_paths d.files ≡ true

pub eq_text_ne : (xs ys : Text) → xs ≢ ys → eq_text xs ys ≡ false
eq_text_ne xs ys ne = elim (Bool-cases (eq_text xs ys)) [
  | inl same ↦ absurd (ne (eq_text→≡ xs ys same))
  | inr other ↦ other
]

pub eq_text→≢ : (xs ys : Text) → eq_text xs ys ≡ false → xs ≢ ys
eq_text→≢ xs ys apart e =
    let clash : true ≡ false = sym (eq_text_refl xs) ∙ ap (eq_text xs) e ∙ apart in cc

pub both_true : (a b : Bool) → (a && b) ≡ true → (a ≡ true) × (b ≡ true)
both_true true b e = (refl, e)
both_true false b e = cc

pub and_false : (b : Bool) → (b && false) ≡ false
and_false true = refl
and_false false = refl

pub is_at→≡ :
    (user_id path : Text) (f : StoredFile)
    → is_at user_id path f ≡ true
    → (f.user_id ≡ user_id) × (f.path ≡ path)
is_at→≡ user_id path f e =
    let (seen, _) =
      both_true (eq_text f.user_id user_id && eq_text f.path path && is_live_row f) (not_pack f)
        e in
    let (place, _) =
      both_true (eq_text f.user_id user_id && eq_text f.path path) (is_live_row f) seen in
    let (u, p) = both_true (eq_text f.user_id user_id) (eq_text f.path path) place in
    (eq_text→≡ f.user_id user_id u, eq_text→≡ f.path path p)

pub is_row→≡ :
    (user_id file_id : Text) (f : StoredFile)
    → is_row user_id file_id f ≡ true
    → (f.user_id ≡ user_id) × (f.file_id ≡ file_id)
is_row→≡ user_id file_id f e =
    let (u, i) = both_true (eq_text f.user_id user_id) (eq_text f.file_id file_id) e in
    (eq_text→≡ f.user_id user_id u, eq_text→≡ f.file_id file_id i)

pub is_row_self : (f : StoredFile) → is_row f.user_id f.file_id f ≡ true
is_row_self f = rw (eq_text_refl f.user_id) (eq_text_refl f.file_id)

pub is_row_other :
    (user_id file_id : Text) (f : StoredFile)
    → f.file_id ≢ file_id
    → is_row user_id file_id f ≡ false
is_row_other user_id file_id f ne = elim (Bool-cases (is_row user_id file_id f)) [
  | inl same ↦ absurd (ne ((is_row→≡ user_id file_id f same).1))
  | inr other ↦ other
]

-- Two rows of one user at one path are one row.
pub unique_paths_lem :
    (fs : List StoredFile) (x y : StoredFile)
    → unique_paths fs ≡ true
    → Elem x fs
    → Elem y fs
    → same_path x y ≡ true
    → x ≡ y
unfolding unique_paths
unique_paths_lem [] x y u m n same = absurd m
unique_paths_lem (f ∷ fs) x y u m n same =
    let (fresh, rest) = both_true (not (any (same_path f) fs)) (unique_paths fs) u in
    elim m [
      | inl e ↦ elim n [
        | inl e' ↦ cc
        | inr n' ↦ absurd (
            not_fresh fresh
              (any_some (same_path f) y fs n' (ap (λ t. same_path t y) (sym e) ∙ same)))
      ]
      | inr m' ↦ elim n [
        | inl e' ↦ absurd (
            not_fresh fresh (
              any_some (same_path f) x fs m'
                (same_path_sym x f (ap (λ t. same_path x t) (sym e') ∙ same))))
        | inr n' ↦ unique_paths_lem fs x y rest m' n' same
      ]
    ]
  where
    not_fresh : {b : Bool} → not b ≡ true → b ≡ true → ⊥
    not_fresh {b} e t = cc

    same_path_sym : (a b : StoredFile) → same_path a b ≡ true → same_path b a ≡ true
    same_path_sym a b e =
        let (u, p) = both_true (eq_text a.user_id b.user_id) (eq_text a.path b.path) e in
        let u' = eq_text→≡ a.user_id b.user_id u in
        let p' = eq_text→≡ a.path b.path p in
        rw u' (rw p' (rw (eq_text_refl b.user_id) (eq_text_refl b.path)))

-- A file is found by its id.
pub get_file_lem :
    (d : Db) (f : StoredFile)
    → IsKey (λ (g : StoredFile). g.file_id) d.files
    → Elem f d.files
    → get_file f.user_id f.file_id d ≡ some (file_row f)
unfolding get_file
get_file_lem d f keys at_f =
    first-filter file_row (is_row f.user_id f.file_id) f d.files at_f (is_row_self f)
      (λ y m t. keys y f m at_f ((is_row→≡ f.user_id f.file_id y t).1))

-- What a change that succeeded did.
pub update_files_ok :
    (test : StoredFile → Bool) (change : StoredFile → StoredFile) (d : Db) (r : Bool × Db)
    → update_files test change d ≡ ok r
    → (unique_paths (map (λ f. if test f then change f else f) d.files) ≡ true)
      × (r.1 ≡ record d { files = map (λ f. if test f then change f else f) d.files })
unfolding update_files
update_files_ok test change d r e =
    elim (Bool-cases (unique_paths (map (λ f. if test f then change f else f) d.files))) [
      | inl unique ↦
          (unique, ap (λ (t : Bool × Db). t.1) (sym (ok_inj (rw (unique, update_files) at e))))
      | inr clash ↦ cc (rw (clash, update_files) at e)
    ]
