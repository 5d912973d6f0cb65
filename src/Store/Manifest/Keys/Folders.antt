-- ===== src/Store/Manifest/Keys/Folders.antt =====
-- store/src/manifest.rs: no two folders of one user have one path.
use p2pnas.Prelude.{
  ◌≡◌, refl, sym, ap, ◌∙◌, Bool, true, false, not, List, [], ◌∷◌, ◌++◌, Bool-cases, inl, inr,
}
use p2pnas.Prelude.Select.{filter, any, any-false, any_none, Elem, Elem-filter, Elem-append}
use p2pnas.Store.Manifest.{Text}
use p2pnas.Store.Manifest.Texts.{eq_text, eq_text_refl, eq_text→≡, dirname}
use p2pnas.Store.Manifest.Db.{FolderRow}
use p2pnas.Store.Manifest.Folders.{
  is_folder, insert_or_ignore, joined_path, insert_ancestors, unique_folders,
}
use p2pnas.Store.Manifest.Keys.{both_true}

negated : (b : Bool) → not b ≡ true → b ≡ false
negated true e = sym e
negated false e = refl

pub unique_folders-filter :
    (test : FolderRow → Bool) (gs : List FolderRow)
    → unique_folders gs ≡ true
    → unique_folders (filter test gs) ≡ true
unfolding unique_folders filter
unique_folders-filter test [] u = refl
unique_folders-filter test (g ∷ gs) u =
    let (fresh, rest) =
      both_true (not (any (is_folder g.user_id g.path) gs)) (unique_folders gs) u in
    let ih = unique_folders-filter test gs rest in
    elim (Bool-cases (test g)) [
      | inr t ↦ rw t ih
      | inl t ↦ rw t (
          rw
            (any_none (is_folder g.user_id g.path) (filter test gs) (λ h m.
              any-false (is_folder g.user_id g.path) h gs (negated _ fresh)
                ((Elem-filter test h gs).0 m).0))
            ih)
    ]

is_folder-sym :
    (g h : FolderRow) → is_folder g.user_id g.path h ≡ false → is_folder h.user_id h.path g ≡ false
is_folder-sym g h apart = elim (Bool-cases (is_folder h.user_id h.path g)) [
  | inr t ↦ t
  | inl t ↦
      let (u, p) = both_true (eq_text g.user_id h.user_id) (eq_text g.path h.path) t in
      let same : is_folder g.user_id g.path h ≡ true =
        rw (eq_text→≡ g.user_id h.user_id u)
          (rw (eq_text→≡ g.path h.path p) (rw (eq_text_refl h.user_id) (eq_text_refl h.path))) in
      let clash : true ≡ false = sym same ∙ apart in cc
]

unique_folders-append :
    (gs : List FolderRow) (g : FolderRow)
    → unique_folders gs ≡ true
    → ((h : FolderRow) → Elem h gs → is_folder h.user_id h.path g ≡ false)
    → unique_folders (gs ++ (g ∷ [])) ≡ true
unfolding unique_folders any
unique_folders-append [] g u new = refl
unique_folders-append (f ∷ fs) g u new =
    let (fresh, rest) =
      both_true (not (any (is_folder f.user_id f.path) fs)) (unique_folders fs) u in
    rw
      (any_none (is_folder f.user_id f.path) (fs ++ (g ∷ [])) (λ x m.
        elim ((Elem-append x fs (g ∷ [])).0 m) [
          | inl old ↦ any-false (is_folder f.user_id f.path) x fs (negated _ fresh) old
          | inr here ↦ elim here [
            | inl is_g ↦ ap (is_folder f.user_id f.path) is_g ∙ new f (inl refl)
            | inr nothing ↦ absurd nothing
          ]
        ]))
      (unique_folders-append fs g rest (λ x m. new x (inr m)))

unique_folders-insert_or_ignore :
    (g : FolderRow) (gs : List FolderRow)
    → unique_folders gs ≡ true
    → unique_folders (insert_or_ignore g gs) ≡ true
unfolding insert_or_ignore
unique_folders-insert_or_ignore g gs u = elim (Bool-cases (any (is_folder g.user_id g.path) gs)) [
  | inl t ↦ rw (t, insert_or_ignore) u
  | inr t ↦
      rw (t, insert_or_ignore)
        (unique_folders-append gs g u
          (λ h m. is_folder-sym g h (any-false (is_folder g.user_id g.path) h gs t m)))
]

pub unique_folders-insert_ancestors :
    (user_id acc : Text) (segs : List Text) (gs : List FolderRow)
    → unique_folders gs ≡ true
    → unique_folders (insert_ancestors user_id acc segs gs) ≡ true
unfolding insert_ancestors
unique_folders-insert_ancestors user_id acc [] gs u = u
unique_folders-insert_ancestors user_id acc (seg ∷ segs) gs u =
    let acc' = joined_path acc seg in
    unique_folders-insert_ancestors user_id acc' segs _ (
      unique_folders-insert_or_ignore
        (record { user_id = user_id; path = acc'; parent = dirname acc' }) gs u)
