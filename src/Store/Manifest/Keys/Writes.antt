-- ===== src/Store/Manifest/Keys/Writes.antt =====
-- store/src/manifest.rs: the writes that the queries are made of keep the keys.
use mathlib.Core.Path.{subst}
use p2pnas.Prelude.{
  ◌≡◌, refl, sym, ap, ◌∙◌, Bool, true, false, not, ◌&&◌, ◌||◌, List, [], ◌∷◌, ◌++◌, if◌then◌else◌,
  Bool-cases, inl, inr,
}
use p2pnas.Prelude.Results.{ok, ok_inj}
use p2pnas.Prelude.Select.{
  filter, any, any-false, any_none, Elem, Elem-filter, Elem-append, Elem-unmap,
}
use p2pnas.Store.Manifest.{Text, FileRow, ChunkRow}
use p2pnas.Store.Manifest.Texts.{eq_text, eq_text_refl, eq_text→≡}
use p2pnas.Store.Manifest.Db.{
  StoredFile, Db, same_path, unique_paths, update_files, delete_chunks, delete_files, new_row,
  insert_file, insert_chunk,
}
use p2pnas.Store.Manifest.Keys.{IsKey, IsKeyed, both_true, update_files_ok}

pub IsKey-filter :
    {A : Type 0} (key : A → Text) (test : A → Bool) (xs : List A)
    → IsKey key xs
    → IsKey key (filter test xs)
IsKey-filter key test xs keys x y m n e =
    keys x y ((Elem-filter test x xs).0 m).0 ((Elem-filter test y xs).0 n).0 e

-- A row at the end with a new key.
pub IsKey-append :
    {A : Type 0} (key : A → Text) (xs : List A) (a : A)
    → IsKey key xs
    → ((x : A) → Elem x xs → eq_text (key x) (key a) ≡ false)
    → IsKey key (xs ++ (a ∷ []))
IsKey-append key xs a keys new x y m n e = elim ((Elem-append x xs (a ∷ [])).0 m) [
  | inl old_x ↦ elim ((Elem-append y xs (a ∷ [])).0 n) [
    | inl old_y ↦ keys x y old_x old_y e
    | inr at_y ↦ elim at_y [
      | inl is_a ↦ absurd (differs x old_x (e ∙ ap key is_a))
      | inr nothing ↦ absurd nothing
    ]
  ]
  | inr at_x ↦ elim at_x [
    | inl is_a ↦ elim ((Elem-append y xs (a ∷ [])).0 n) [
      | inl old_y ↦ absurd (differs y old_y (sym e ∙ ap key is_a))
      | inr at_y ↦ elim at_y [ inl is_a' ↦ is_a ∙ sym is_a' | inr nothing ↦ absurd nothing ]
    ]
    | inr nothing ↦ absurd nothing
  ]
]
  where
    differs : (z : _) → Elem z xs → key z ≡ key a → ⊥
    differs z old same =
        let clash : true ≡ false =
          sym (eq_text_refl (key a)) ∙ ap (λ t. eq_text t (key a)) (sym same) ∙ new z old in
        cc

unique_paths-filter :
    (test : StoredFile → Bool) (fs : List StoredFile)
    → unique_paths fs ≡ true
    → unique_paths (filter test fs) ≡ true
unfolding unique_paths filter
unique_paths-filter test [] u = refl
unique_paths-filter test (f ∷ fs) u =
    let (fresh, rest) = both_true (not (any (same_path f) fs)) (unique_paths fs) u in
    let ih = unique_paths-filter test fs rest in
    elim (Bool-cases (test f)) [
      | inr t ↦ rw t ih
      | inl t ↦ rw t (
          rw
            (any_none (same_path f) (filter test fs) (λ g m.
              any-false (same_path f) g fs (negated _ fresh) ((Elem-filter test g fs).0 m).0))
            ih)
    ]
  where
    negated : (b : Bool) → not b ≡ true → b ≡ false
    negated true e = sym e
    negated false e = refl

-- A row at the end with a new path.
unique_paths-append :
    (fs : List StoredFile) (g : StoredFile)
    → unique_paths fs ≡ true
    → ((f : StoredFile) → Elem f fs → same_path f g ≡ false)
    → unique_paths (fs ++ (g ∷ [])) ≡ true
unfolding unique_paths any
unique_paths-append [] g u new = refl
unique_paths-append (f ∷ fs) g u new =
    let (fresh, rest) = both_true (not (any (same_path f) fs)) (unique_paths fs) u in
    rw
      (any_none (same_path f) (fs ++ (g ∷ [])) (λ x m. elim ((Elem-append x fs (g ∷ [])).0 m) [
        | inl old ↦ any-false (same_path f) x fs (negated _ fresh) old
        | inr here ↦ elim here [
          | inl is_g ↦ ap (same_path f) is_g ∙ new f (inl refl)
          | inr nothing ↦ absurd nothing
        ]
      ]))
      (unique_paths-append fs g rest (λ x m. new x (inr m)))
  where
    negated : (b : Bool) → not b ≡ true → b ≡ false
    negated true e = sym e
    negated false e = refl

both_false : (a b : Bool) → (a || b) ≡ false → (a ≡ false) × (b ≡ false)
both_false true b e = cc
both_false false b e = (refl, e)

pub insert_file-IsKeyed :
    (f : FileRow) (d : Db) {d' : Db} → IsKeyed d → insert_file f d ≡ ok d' → IsKeyed d'
unfolding insert_file
insert_file-IsKeyed f d {d'} keyed e =
    let taken = λ (g : StoredFile). eq_text g.file_id f.file_id || same_path (new_row f) g in
    elim (Bool-cases (any taken d.files)) [
      | inl t ↦ cc (rw (t, insert_file) at e)
      | inr t ↦ subst IsKeyed (ok_inj (rw (t, insert_file) at e)) (record {
        file_ids =
            IsKey-append (λ (g : StoredFile). g.file_id) d.files (new_row f) keyed.file_ids
              (λ x m.
                unfold new_row in
                (both_false (eq_text x.file_id f.file_id) _ (any-false taken x d.files t m)).0);
        chunk_ids = keyed.chunk_ids;
        paths = unique_paths-append d.files (new_row f) keyed.paths (λ x m.
            same_path-sym (new_row f) x
              (both_false (eq_text x.file_id f.file_id) _ (any-false taken x d.files t m)).1);
      })
    ]
  where
    same_path-sym : (a b : StoredFile) → same_path a b ≡ false → same_path b a ≡ false
    same_path-sym a b apart = elim (Bool-cases (same_path b a)) [
      | inr t ↦ t
      | inl t ↦
          let (u, p) = both_true (eq_text b.user_id a.user_id) (eq_text b.path a.path) t in
          let same : same_path a b ≡ true = rw (sym (eq_text→≡ b.user_id a.user_id u)) (
            rw (sym (eq_text→≡ b.path a.path p))
              (rw (eq_text_refl b.user_id) (eq_text_refl b.path))) in
          let clash : true ≡ false = sym same ∙ apart in cc
    ]

pub insert_chunk-IsKeyed :
    (c : ChunkRow) (d : Db) {d' : Db} → IsKeyed d → insert_chunk c d ≡ ok d' → IsKeyed d'
unfolding insert_chunk
insert_chunk-IsKeyed c d {d'} keyed e =
    let taken = λ (b : ChunkRow). eq_text b.chunk_id c.chunk_id in
    elim (Bool-cases
      (any taken d.chunks || not (any (λ (f : StoredFile). eq_text f.file_id c.file_id) d.files))) [
        | inl t ↦ cc (rw (t, insert_chunk) at e)
        | inr t ↦ subst IsKeyed (ok_inj (rw (t, insert_chunk) at e)) (record {
          file_ids = keyed.file_ids;
          chunk_ids =
              IsKey-append (λ (b : ChunkRow). b.chunk_id) d.chunks c keyed.chunk_ids
                (λ x m. any-false taken x d.chunks (both_false (any taken d.chunks) _ t).0 m);
          paths = keyed.paths;
        })
      ]

-- A change of rows that leaves their ids.
pub update_files-IsKeyed :
    (test : StoredFile → Bool) (change : StoredFile → StoredFile) (d : Db) {r : Bool × Db}
    → IsKeyed d
    → ((f : StoredFile) → (change f).file_id ≡ f.file_id)
    → update_files test change d ≡ ok r
    → IsKeyed r.1
update_files-IsKeyed test change d {r} keyed ids e =
    let (unique, at_r) = update_files_ok test change d r e in
    subst IsKeyed (sym at_r) (record {
      file_ids = λ x y m n same.
          let (a, at_a, ea) = Elem-unmap _ x d.files m in
          let (b, at_b, eb) = Elem-unmap _ y d.files n in
          let back = λ (f : StoredFile). id_kept f in
          let here = keyed.file_ids a b at_a at_b (
            sym (id_kept a)
            ∙ ap (λ (f : StoredFile). f.file_id) (sym ea)
            ∙ same
            ∙ ap (λ (f : StoredFile). f.file_id) eb
            ∙ id_kept b) in
          ea ∙ ap (λ f. if test f then change f else f) here ∙ sym eb;
      chunk_ids = keyed.chunk_ids;
      paths = unique;
    })
  where
    id_kept : (f : StoredFile) → (if test f then change f else f).file_id ≡ f.file_id
    id_kept f = elim (Bool-cases (test f)) [ inl t ↦ rw t (ids f) | inr t ↦ rw t refl ]

pub delete_chunks-IsKeyed :
    (test : ChunkRow → Bool) (d : Db) → IsKeyed d → IsKeyed (delete_chunks test d)
unfolding delete_chunks
delete_chunks-IsKeyed test d keyed = record {
  file_ids = keyed.file_ids;
  chunk_ids = IsKey-filter (λ (c : ChunkRow). c.chunk_id) _ d.chunks keyed.chunk_ids;
  paths = keyed.paths;
}

pub delete_files-IsKeyed :
    (test : StoredFile → Bool) (d : Db) → IsKeyed d → IsKeyed (delete_files test d)
unfolding delete_files
delete_files-IsKeyed test d keyed =
    let chunks =
      delete_chunks-IsKeyed (λ c. any (λ f. test f && eq_text f.file_id c.file_id) d.files) d
        keyed in
    record {
      file_ids = IsKey-filter (λ (f : StoredFile). f.file_id) _ d.files keyed.file_ids;
      chunk_ids = chunks.chunk_ids;
      paths = unique_paths-filter _ d.files keyed.paths;
    }
