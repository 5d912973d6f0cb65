-- ===== src/Store/Manifest/Folders/Case.antt =====
-- store/src/manifest.rs: the `LIKE` of the queries below a folder does not tell capital letters from
-- small ones.
use p2pnas.Prelude.{
  ℕ, ◌≡◌, refl, sym, ap, ◌∙◌, Bool, true, not, ◌&&◌, ◌||◌, ◌==◌, [], ◌∷◌, ◌++◌, append_assoc, All,
  All-append, map, Bool-cases, inl, inr,
}
use p2pnas.Prelude.Select.{filter, order_by}
use p2pnas.Store.Manifest.{Text}
use p2pnas.Store.Manifest.Texts.{
  eq_text, le_text, starts_with, lower, like, any_suffix, is_empty, same_char,
}
use p2pnas.Store.Manifest.Db.{StoredFile, Db, is_live_row}
use p2pnas.Store.Manifest.Folders.{below, files_under}

-- A character that stands for itself in a pattern.
abbrev pub is_plain : ℕ → Bool
is_plain c = not (c == b'%') && not (c == b'_')

any_suffix-true : (xs : Text) → any_suffix is_empty xs ≡ true
unfolding any_suffix
any_suffix-true [] = refl
any_suffix-true (x ∷ xs) = any_suffix-true xs

like-plain :
    (p q : Text)
    → All (λ c. is_plain c ≡ true) p
    → like (p ++ (b'%' ∷ [])) q ≡ starts_with (map lower p) (map lower q)
unfolding like starts_with
like-plain [] q plain = any_suffix-true q
like-plain (c ∷ p) q (here, plain) = elim (Bool-cases (c == b'%')) [
  | inl t ↦ cc (rw t at here)
  | inr t ↦ elim (Bool-cases (c == b'_')) [
    | inl u ↦ cc (rw t at (rw u at here))
    | inr u ↦ rw (t, like) (rw (u, like) (letters (λ ys. like-plain p ys plain) q))
  ]
]
  where
    letters :
        ((ys : Text) → like (p ++ (b'%' ∷ [])) ys ≡ starts_with (map lower p) (map lower ys))
        → (xs : Text)
        → same_char c (like (p ++ (b'%' ∷ []))) xs ≡ starts_with (map lower (c ∷ p)) (map lower xs)
    letters ih [] = unfold starts_with in refl
    letters ih (x ∷ xs) = unfold starts_with in ap (λ b. (lower c == lower x) && b) (ih xs)

-- The text of a path and a slash, in small letters, at the beginning of another.
unfoldable pub is_below : Text → Text → Bool
unfolding starts_with
is_below path q = starts_with (map lower (path ++ (b'/' ∷ []))) (map lower q)

below-is_below :
    (path q : Text) → All (λ c. is_plain c ≡ true) path → below path q ≡ is_below path q
unfolding is_below
below-is_below path q plain =
    ap (λ p. like p q) (sym (append_assoc path (b'/' ∷ []) (b'%' ∷ [])))
    ∙ like-plain (path ++ (b'/' ∷ [])) q
        (All-append (λ c. is_plain c ≡ true) path (b'/' ∷ []) plain (refl, tt))

-- The files under a path without `%` and `_` are the user's current ones that are at the path itself, or
-- whose path, with all ASCII letters made small, begins with the path and a slash made small: those of
-- folders whose names differ from it in capital letters are among them.
pub files_under_lem :
    (user_id path : Text) (d : Db)
    → All (λ c. is_plain c ≡ true) path
    → files_under user_id path d
      ≡ order_by
          (λ p q. le_text p.1 q.1)
          (map
            (λ (f : StoredFile). (f.file_id, f.path))
            (filter
              (λ f.
                eq_text f.user_id user_id
                && (eq_text f.path path || is_below path f.path)
                && is_live_row f)
              d.files))
unfolding files_under
files_under_lem user_id path d plain =
    ap
      (λ (test : StoredFile → Bool).
        order_by (λ p q. le_text p.1 q.1)
          (map (λ (f : StoredFile). (f.file_id, f.path)) (filter test d.files)))
      (λ i f.
        eq_text f.user_id user_id
        && (eq_text f.path path || below-is_below path f.path plain i)
        && is_live_row f)
