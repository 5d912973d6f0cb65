-- ===== src/Store/Service/Retention/Rules.antt =====
-- store/src/service.rs: the rules of the retention, stated of a row.
use mathlib.Core.Option.{get_or}
use p2pnas.Prelude.{
  ℕ, ◌+◌, ◌≤◌, ◌≡◌, refl, ap, ◌∙◌, ◌≢◌, Bool, true, false, not, ◌&&◌, ◌||◌, List, [], ◌∷◌, Option,
  none, some, length, arith, Bool-cases, ◌⊎◌, inl, inr,
}
use p2pnas.Prelude.Select.{filter, Elem}
use p2pnas.Store.Manifest.{Text}
use p2pnas.Store.Manifest.Texts.{eq_text, lt_text, le_text}
use p2pnas.Store.Manifest.Db.{StoredFile, is_none}
use p2pnas.Store.Manifest.Retire.{is_before, same_lineage, ranks_before, row_number}
use p2pnas.Store.Service.Retention.{cutoff}

-- The lineage of a row: its own id where it has none.
abbrev pub lineage_of : StoredFile → Text
lineage_of f = get_or f.lineage f.file_id

-- A later old version: made after `f`, or at the same instant with a greater id.
abbrev pub is_later_version : StoredFile → StoredFile → Bool
is_later_version f g =
    not (is_none g.superseded_at)
    && (eq_text g.user_id f.user_id && eq_text (lineage_of g) (lineage_of f))
    && (lt_text f.created_at g.created_at
        || (eq_text f.created_at g.created_at && lt_text f.file_id g.file_id))

-- The stamp is an instant before the other.
abbrev pub IsBefore : Text → Option Text → Type 0
IsBefore cutoff stamp = (at : Text) × (stamp ≡ some at) × (lt_text at cutoff ≡ true)

-- Every version of the lineage is an old one.
abbrev pub IsOrphan : List StoredFile → StoredFile → Type 0
IsOrphan files f =
    (g : StoredFile)
    → Elem g files
    → g.user_id ≡ f.user_id
    → lineage_of g ≡ lineage_of f
    → g.superseded_at ≢ none

-- The rules: `t` days in the trash, `v` days as an old version, `k` old versions of a lineage, and no old
-- version of a lineage that has no other.
abbrev pub IsExpired : (ℕ → Text) → (ℕ → Text) → ℕ → ℕ → ℕ → List StoredFile → StoredFile → Type 0
IsExpired ago ago' t v k files f =
    IsBefore (ago t) f.deleted_at
    ⊎ (IsBefore (ago' v) f.superseded_at
        ⊎ ((f.superseded_at ≢ none)
            × ((k ≤ length (filter (is_later_version f) files)) ⊎ IsOrphan files f)))

le_text_both : (xs ys : Text) → le_text ys xs ≡ true → le_text xs ys ≡ eq_text xs ys
unfolding le_text eq_text
le_text_both [] [] e = refl
le_text_both (x ∷ xs) [] e = refl
le_text_both [] (y ∷ ys) e = cc
le_text_both (x ∷ xs) (y ∷ ys) e = ground (arith, le_text_both xs ys)

-- The order of the versions, as SQLite ranks them.
ranks_before-is_later :
    (f g : StoredFile)
    → ranks_before g f ≡ (
        lt_text f.created_at g.created_at
        || (eq_text f.created_at g.created_at && lt_text f.file_id g.file_id))
unfolding ranks_before
ranks_before-is_later f g = elim (Bool-cases (le_text g.created_at f.created_at)) [
  | inr later ↦ rw later refl
  | inl t ↦
      let both : not (lt_text g.created_at f.created_at) ≡ eq_text f.created_at g.created_at =
        not_not (le_text f.created_at g.created_at) ∙ le_text_both f.created_at g.created_at t in
      ap (λ b. lt_text f.created_at g.created_at || (b && lt_text f.file_id g.file_id)) both
]
  where
    not_not : (b : Bool) → not (not b) ≡ b
    not_not true = refl
    not_not false = refl

pub row_number-later :
    (files : List StoredFile) (f : StoredFile)
    → row_number files f ≡ length (filter (is_later_version f) files) + 1
unfolding row_number same_lineage
row_number-later files f = λ i.
    length (
      filter (λ g. not (is_none g.superseded_at) && same_lineage g f && ranks_before-is_later f g i)
        files)
    + 1

pub is_before-IsBefore :
    (cutoff : Text) (stamp : Option Text) → is_before cutoff stamp ≡ true → IsBefore cutoff stamp
is_before-IsBefore cutoff none e = cc
is_before-IsBefore cutoff (some at) e = (at, refl, e)

pub IsBefore-is_before :
    (cutoff : Text) (stamp : Option Text) → IsBefore cutoff stamp → is_before cutoff stamp ≡ true
IsBefore-is_before cutoff stamp (at, e, before) = ap (is_before cutoff) e ∙ before

pub stamped : (stamp : Option Text) → not (is_none stamp) ≡ true → stamp ≢ none
stamped none e = cc
stamped (some at) e = λ h. cc

pub stamped_back : (stamp : Option Text) → stamp ≢ none → not (is_none stamp) ≡ true
stamped_back none ne = absurd (ne refl)
stamped_back (some at) ne = refl
