-- ===== src/Store/Manifest/Texts.antt =====
-- store/src/manifest.rs and service.rs: the operations on texts, and those of SQLite that the queries use.
-- A text is its UTF-8 bytes and has no NUL; SQLite compares texts byte by byte.
use p2pnas.Prelude.{
  ℕ, ◌+◌, ◌≡◌, refl, Bool, true, false, not, ◌&&◌, ◌||◌, ◌==◌, ==_refl, ==_iff, leb, ltb, List, [],
  ◌∷◌, ◌++◌, Option, none, some, if◌then◌else◌, Bool-cases, inl, inr,
}
use p2pnas.Store.Manifest.{Text}

unfoldable pub eq_text : Text → Text → Bool
eq_text [] [] = true
eq_text [] (y ∷ ys) = false
eq_text (x ∷ xs) [] = false
eq_text (x ∷ xs) (y ∷ ys) = (x == y) && eq_text xs ys

unfoldable pub le_text : Text → Text → Bool
le_text [] ys = true
le_text (x ∷ xs) [] = false
le_text (x ∷ xs) (y ∷ ys) = let rest = le_text xs ys in if ltb x y then true else (x == y) && rest

abbrev pub lt_text : Text → Text → Bool
lt_text xs ys = not (le_text ys xs)

unfoldable pub starts_with : Text → Text → Bool
starts_with [] xs = true
starts_with (c ∷ cs) [] = false
starts_with (c ∷ cs) (x ∷ xs) = (c == x) && starts_with cs xs

-- What is left after a prefix.
unfoldable pub strip_prefix : Text → Text → Option Text
strip_prefix [] xs = some xs
strip_prefix (c ∷ cs) [] = none
strip_prefix (c ∷ cs) (x ∷ xs) = let rest = strip_prefix cs xs in if c == x then rest else none

-- `LIKE` folds the case of the ASCII letters.
unfoldable pub lower : ℕ → ℕ
lower c = if leb b'A' c && leb c b'Z' then c + 32 else c

-- `%` stands for any text.
unfoldable pub any_suffix : (Text → Bool) → Text → Bool
any_suffix rest [] = rest []
any_suffix rest (x ∷ xs) = rest (x ∷ xs) || any_suffix rest xs

-- The bytes that continue a character.
unfoldable pub skip_continuation : Text → Text
skip_continuation [] = []
skip_continuation (x ∷ xs) =
    let rest = skip_continuation xs in if leb 128 x && ltb x 192 then rest else x ∷ xs

-- `_` stands for one character.
abbrev pub one_char : (Text → Bool) → Text → Bool
one_char rest [] = false
one_char rest (x ∷ xs) = rest (skip_continuation xs)

abbrev pub same_char : ℕ → (Text → Bool) → Text → Bool
same_char c rest [] = false
same_char c rest (x ∷ xs) = (lower c == lower x) && rest xs

abbrev pub is_empty : Text → Bool
is_empty [] = true
is_empty (x ∷ xs) = false

-- `text LIKE pattern`, the pattern first, without an escape character.
unfoldable pub like : Text → Text → Bool
unfolding any_suffix skip_continuation
like [] = is_empty
like (c ∷ pattern) =
    let rest = like pattern in
    if c == b'%' then any_suffix rest else if c == b'_' then one_char rest else same_char c rest

-- What stands before the last slash, and what after it.
unfoldable pub rsplit_once : Text → Option (Text × Text)
rsplit_once [] = none
rsplit_once (c ∷ cs) = elim (rsplit_once cs) [
  | some (dir, base) ↦ some (c ∷ dir, base)
  | none ↦ if c == b'/' then some ([], cs) else none
]

unfoldable pub dirname : Text → Text
unfolding rsplit_once
dirname path = elim (rsplit_once path) [ some (dir, base) ↦ dir | none ↦ [] ]

unfoldable pub basename : Text → Text
unfolding rsplit_once
basename path = elim (rsplit_once path) [ some (dir, base) ↦ base | none ↦ path ]

-- What stands before the first slash, and what after it.
unfoldable pub split_once : Text → Option (Text × Text)
split_once [] = none
split_once (c ∷ cs) =
    let rest = split_once cs in
    if c == b'/'
    then some ([], cs)
    else elim rest [ some (child, below) ↦ some (c ∷ child, below) | none ↦ none ]

unfoldable pub trim_start : Text → Text
trim_start [] = []
trim_start (c ∷ cs) = let rest = trim_start cs in if c == b'/' then rest else c ∷ cs

unfoldable pub trim_end : Text → Text
trim_end [] = []
trim_end (c ∷ cs) = elim (trim_end cs) [
  | [] ↦ if c == b'/' then [] else c ∷ []
  | (d ∷ ds) ↦ c ∷ (d ∷ ds)
]

-- `trim_matches('/')`
unfoldable pub trim : Text → Text
unfolding trim_start trim_end
trim path = trim_end (trim_start path)

abbrev pub if_some : Text → List Text → List Text
if_some [] segs = segs
if_some (c ∷ cs) segs = (c ∷ cs) ∷ segs

-- The segments between the slashes that are not empty; `cur` is the one being read.
unfoldable pub segments : Text → Text → List Text
segments cur [] = if_some cur []
segments cur (c ∷ cs) =
    let next = segments [] cs in
    let longer = segments (cur ++ (c ∷ [])) cs in if c == b'/' then if_some cur next else longer

pub eq_text_refl : (xs : Text) → eq_text xs xs ≡ true
unfolding eq_text
eq_text_refl [] = refl
eq_text_refl (x ∷ xs) = rw (==_refl x) (eq_text_refl xs)

pub eq_text→≡ : (xs ys : Text) → eq_text xs ys ≡ true → xs ≡ ys
unfolding eq_text
eq_text→≡ [] [] e = refl
eq_text→≡ [] (y ∷ ys) e = cc
eq_text→≡ (x ∷ xs) [] e = cc
eq_text→≡ (x ∷ xs) (y ∷ ys) e = elim (Bool-cases (x == y)) [
  | inl same ↦ let h = (==_iff x y).0 same in let t = eq_text→≡ xs ys (rw same at e) in cc
  | inr other ↦ cc (rw other at e)
]
