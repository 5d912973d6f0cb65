-- ===== src/Prelude/Dict.antt =====
-- A hash map as an association list in which no key stands twice: only what the program uses.
use p2pnas.Prelude.{
  ◌+◌, ◌≤◌, ◌≡◌, refl, sym, ◌∙◌, ◌≢◌, Bool, List, [], ◌∷◌, Option, none, some, arith, length,
  Dec-cases, inl, inr, if◌then◌else◌,
}

abbrev pub Dict : Type 0 → Type 0 → Type 0
Dict K V = List (K × V)

module _ {K V : Type 0} (same : Discrete K) where
  unfoldable pub lookup : K → Dict K V → Option V
  lookup k [] = none
  lookup k ((j, v) ∷ m) = elim (same j k) [ yes _ ↦ some v | no _ ↦ lookup k m ]

  unfoldable pub insert : K → V → Dict K V → Dict K V
  insert k v [] = (k, v) ∷ []
  insert k v ((j, w) ∷ m) = elim (same j k) [ yes _ ↦ (k, v) ∷ m | no _ ↦ (j, w) ∷ insert k v m ]

  unfoldable pub remove : K → Dict K V → Dict K V
  remove k [] = []
  remove k ((j, w) ∷ m) =
      let rest = remove k m in elim (same j k) [ yes _ ↦ rest | no _ ↦ (j, w) ∷ rest ]

  pub lookup-insert_self : (k : K) (v : V) (m : Dict K V) → lookup k (insert k v m) ≡ some v
  unfolding lookup insert
  lookup-insert_self k v [] = elim (Dec-cases (same k k)) [
    | inl (_, d) ↦ rw (d, lookup)
    | inr (ne, _) ↦ absurd (ne refl)
  ]
  lookup-insert_self k v ((j, w) ∷ m) = elim (Dec-cases (same j k)) [
    | inl (_, d) ↦ elim (Dec-cases (same k k)) [
      | inl (_, d') ↦ rw (d, insert) (rw (d', lookup))
      | inr (ne, _) ↦ absurd (ne refl)
    ]
    | inr (_, d) ↦ rw (d, insert) (rw (d, lookup) (lookup-insert_self k v m))
  ]

  pub lookup-insert_ne :
      (k i : K) (v : V) (m : Dict K V) → k ≢ i → lookup i (insert k v m) ≡ lookup i m
  unfolding lookup insert
  lookup-insert_ne k i v [] ne = elim (Dec-cases (same k i)) [
    | inl (e, _) ↦ absurd (ne e)
    | inr (_, d) ↦ rw (d, lookup)
  ]
  lookup-insert_ne k i v ((j, w) ∷ m) ne = elim (Dec-cases (same j k)) [
    | inl (e, d) ↦ elim (Dec-cases (same k i)) [
      | inl (e', _) ↦ absurd (ne e')
      | inr (_, d') ↦ elim (Dec-cases (same j i)) [
        | inl (e'', _) ↦ absurd (ne (sym e ∙ e''))
        | inr (_, d'') ↦ rw (d, insert) (rw (d', lookup) (rw (d'', lookup)))
      ]
    ]
    | inr (_, d) ↦ elim (Dec-cases (same j i)) [
      | inl (_, d') ↦ rw (d, insert) (rw (d', lookup))
      | inr (_, d') ↦ rw (d, insert) (rw (d', lookup) (lookup-insert_ne k i v m ne))
    ]
  ]

  pub lookup-remove_self : (k : K) (m : Dict K V) → lookup k (remove k m) ≡ none
  unfolding lookup remove
  lookup-remove_self k [] = refl
  lookup-remove_self k ((j, w) ∷ m) = elim (Dec-cases (same j k)) [
    | inl (_, d) ↦ rw (d, remove) (lookup-remove_self k m)
    | inr (_, d) ↦ rw (d, remove) (rw (d, lookup) (lookup-remove_self k m))
  ]

  pub lookup-remove_ne : (k i : K) (m : Dict K V) → k ≢ i → lookup i (remove k m) ≡ lookup i m
  unfolding lookup remove
  lookup-remove_ne k i [] ne = refl
  lookup-remove_ne k i ((j, w) ∷ m) ne = elim (Dec-cases (same j k)) [
    | inl (e, d) ↦ elim (Dec-cases (same j i)) [
      | inl (e', _) ↦ absurd (ne (sym e ∙ e'))
      | inr (_, d') ↦ rw (d, remove) (rw (d', lookup) (lookup-remove_ne k i m ne))
    ]
    | inr (_, d) ↦ elim (Dec-cases (same j i)) [
      | inl (_, d') ↦ rw (d, remove) (rw (d', lookup))
      | inr (_, d') ↦ rw (d, remove) (rw (d', lookup) (lookup-remove_ne k i m ne))
    ]
  ]

  pub length-insert : (k : K) (v : V) (m : Dict K V) → length (insert k v m) ≤ length m + 1
  unfolding insert
  length-insert k v [] = omega arith
  length-insert k v ((j, w) ∷ m) = elim (Dec-cases (same j k)) [
    | inl (_, d) ↦ rw (d, insert) (omega arith)
    | inr (_, d) ↦ rw (d, insert) (omega (arith, length-insert k v m))
  ]

  pub length-remove : (k : K) (m : Dict K V) → length (remove k m) ≤ length m
  unfolding remove
  length-remove k [] = omega arith
  length-remove k ((j, w) ∷ m) = elim (Dec-cases (same j k)) [
    | inl (_, d) ↦ rw (d, remove) (omega (arith, length-remove k m))
    | inr (_, d) ↦ rw (d, remove) (omega (arith, length-remove k m))
  ]

unfoldable pub retain : {K V : Type 0} → (V → Bool) → Dict K V → Dict K V
retain keep [] = []
retain keep ((j, v) ∷ m) = let rest = retain keep m in if keep v then (j, v) ∷ rest else rest
