-- ===== src/Store/Service/Packs/Greedy.antt =====
-- store/src/service.rs: which packs are planned. The files are cut greedily: a group is closed by the first
-- file that would take it over the target.
use p2pnas.Prelude.{
  ℕ, ◌+◌, ◌≤◌, ◌≡◌, refl, sym, ap, ◌∙◌, ltb, leb, leb→le, ltb→ge, ltb→lt, List, [], ◌∷◌, ◌++◌,
  append_assoc, append-nil, All, length, arith, Bool-cases, ◌⊎◌, inl, inr,
}
use mathlib.Core.Path.{subst}
use p2pnas.Prelude.Select.{filter, sum_by, Elem, Elem-filter, Elem-All}
use p2pnas.Store.Manifest.{FileRow}
use p2pnas.Store.Service.Packs.{close_group, overflows, group_files, plan_packs}

abbrev pub total_size : List FileRow → ℕ
total_size g = sum_by (λ (f : FileRow). f.size) g

sum_by-append :
    (xs ys : List FileRow)
    → sum_by (λ (f : FileRow). f.size) (xs ++ ys)
      ≡ sum_by (λ (f : FileRow). f.size) xs + sum_by (λ (f : FileRow). f.size) ys
unfolding sum_by
sum_by-append [] ys = omega arith
sum_by-append (x ∷ xs) ys = omega (arith, sum_by-append xs ys)

-- The group is closed by the end, or by a file that would take it over the target.
abbrev pub IsClosed : ℕ → List FileRow → List (List FileRow) → Type 0
IsClosed target g [] = Unit {0}
IsClosed target g ([] ∷ gs) = ⊥
IsClosed target g ((f ∷ fs) ∷ gs) = target + 1 ≤ total_size g + f.size

-- No group is empty, each is of one file or within the target, and each is closed.
abbrev pub IsGreedy : ℕ → List (List FileRow) → Type 0
IsGreedy target [] = Unit {0}
IsGreedy target (g ∷ gs) =
    (1 ≤ length g)
    × ((length g ≡ 1) ⊎ (total_size g ≤ target))
    × IsClosed target g gs
    × IsGreedy target gs

abbrev pub joined : List (List FileRow) → List FileRow
joined [] = []
joined (g ∷ gs) = g ++ joined gs

joined-append : (gs hs : List (List FileRow)) → joined (gs ++ hs) ≡ joined gs ++ joined hs
joined-append [] hs = refl
joined-append (g ∷ gs) hs =
    ap (λ t. g ++ t) (joined-append gs hs) ∙ sym (append_assoc g (joined gs) (joined hs))

joined-close_group :
    (group : List FileRow) (groups : List (List FileRow))
    → joined (close_group group groups) ≡ joined groups ++ group
joined-close_group [] groups = sym (append-nil (joined groups))
joined-close_group (f ∷ fs) groups =
    joined-append groups ((f ∷ fs) ∷ []) ∙ ap (λ t. joined groups ++ t) (append-nil (f ∷ fs))

-- The groups, the one in the making and the files to come are the files in their order.
joined-group_files :
    (target : ℕ) (fs : List FileRow) (groups : List (List FileRow)) (group : List FileRow)
    (bytes : ℕ)
    → joined (group_files target fs groups group bytes) ≡ joined groups ++ (group ++ fs)
unfolding group_files
joined-group_files target [] groups group bytes =
    joined-close_group group groups ∙ ap (λ t. joined groups ++ t) (sym (append-nil group))
joined-group_files target (f ∷ fs) groups group bytes =
    elim (Bool-cases (overflows group bytes f target)) [
      | inl over ↦
          rw (over, group_files)
            (joined-group_files target fs (groups ++ (group ∷ [])) (f ∷ []) f.size
              ∙ ap (λ t. t ++ (f ∷ fs))
                  (joined-append groups (group ∷ [])
                    ∙ ap (λ t. joined groups ++ t) (append-nil group))
              ∙ append_assoc (joined groups) group (f ∷ fs))
      | inr fits ↦
          rw (fits, group_files)
            (joined-group_files target fs groups (group ++ (f ∷ [])) (bytes + f.size)
              ∙ ap (λ t. joined groups ++ t) (append_assoc group (f ∷ []) fs))
    ]

-- The groups that are closed already stand in front.
group_files-append :
    (target : ℕ) (fs : List FileRow) (groups : List (List FileRow)) (group : List FileRow)
    (bytes : ℕ)
    → group_files target fs groups group bytes ≡ groups ++ group_files target fs [] group bytes
unfolding group_files
group_files-append target [] groups [] bytes = sym (append-nil groups)
group_files-append target [] groups (x ∷ xs) bytes = refl
group_files-append target (f ∷ fs) groups group bytes =
    elim (Bool-cases (overflows group bytes f target)) [
      | inl over ↦
          let rest = group_files target fs [] (f ∷ []) f.size in
          rw (over, group_files)
            (group_files-append target fs (groups ++ (group ∷ [])) (f ∷ []) f.size
              ∙ append_assoc groups (group ∷ []) rest
              ∙ ap (λ t. groups ++ t)
                  (sym (group_files-append target fs (group ∷ []) (f ∷ []) f.size)))
      | inr fits ↦
          rw (fits, group_files)
            (group_files-append target fs groups (group ++ (f ∷ [])) (bytes + f.size))
    ]

-- A group in the making is the beginning of the first group.
group_files-IsGreedy :
    (target : ℕ) (fs : List FileRow) (x : FileRow) (xs : List FileRow) (bytes : ℕ)
    → bytes ≡ total_size (x ∷ xs)
    → (length (x ∷ xs) ≡ 1) ⊎ (total_size (x ∷ xs) ≤ target)
    → (rest : List FileRow) × (gs : List (List FileRow)) × (group_files target fs [] (x ∷ xs) bytes
        ≡ (x ∷ rest) ∷ gs)
      × IsGreedy target ((x ∷ rest) ∷ gs)
unfolding group_files
group_files-IsGreedy target [] x xs bytes b within = (xs, [], refl, (omega arith, within, tt, tt))
group_files-IsGreedy target (f ∷ fs) x xs bytes b within =
    elim (Bool-cases (ltb target (bytes + f.size))) [
      | inl over ↦
          let (rest, gs, e, greedy) =
            group_files-IsGreedy target fs f [] f.size (unfold sum_by in omega arith) (inl refl) in
          let closed : target + 1 ≤ total_size (x ∷ xs) + f.size =
            omega (arith, b, ltb→lt target (bytes + f.size) over) in
          (
            xs,
            (f ∷ rest) ∷ gs,
            rw (over, group_files)
                (group_files-append target fs ((x ∷ xs) ∷ []) (f ∷ []) f.size
                  ∙ ap (λ t. (x ∷ xs) ∷ t) e),
            (omega arith, within, closed, greedy),
          )
      | inr fits ↦
          let size = sum_by-append (x ∷ xs) (f ∷ []) in
          let one : sum_by (λ (f : FileRow). f.size) (f ∷ []) ≡ f.size =
            unfold sum_by in omega arith in
          let (rest, gs, e, greedy) =
            group_files-IsGreedy target fs x (xs ++ (f ∷ [])) (bytes + f.size)
              (omega (arith, b, size, one))
              (inr (omega (arith, b, size, one, ltb→ge target (bytes + f.size) fits))) in
          (rest, gs, rw (fits, group_files) e, greedy)
    ]

-- A group of two files at least is within the target.
greedy_bound :
    (target : ℕ) (gs : List (List FileRow)) (g : List FileRow)
    → IsGreedy target gs
    → Elem g gs
    → 2 ≤ length g
    → total_size g ≤ target
greedy_bound target [] g greedy m two = absurd m
greedy_bound target (h ∷ hs) g (_, within, _, greedy) m two = elim m [
  | inl here ↦ elim within [
    | inl one ↦ absurd (omega (arith, ap length here, one, two))
    | inr small ↦ let same = ap total_size here in omega (arith, same, small)
  ]
  | inr later ↦ greedy_bound target hs g greedy later two
]

-- The files in their order are cut into groups: none is empty, each has one file or is within the target,
-- and the first file of the next group would take it over the target. The groups of two files at least are
-- the planned packs, in their order; each of them is therefore within the target.
pub plan_packs_lem :
    (files : List FileRow) (target : ℕ)
    → ((groups : List (List FileRow)) × (joined groups ≡ files)
        × IsGreedy target groups
        × (plan_packs files target ≡ filter (λ g. leb 2 (length g)) groups))
      × All (λ g. (2 ≤ length g) × (total_size g ≤ target)) (plan_packs files target)
unfolding plan_packs
plan_packs_lem files target =
    let groups = group_files target files [] [] 0 in
    let greedy = all_greedy files in
    (
      (groups, joined-group_files target files [] [] 0, greedy, refl),
      Elem-All _ _ (λ g m.
          let (at_g, two) = (Elem-filter (λ (g : List FileRow). leb 2 (length g)) g groups).0 m in
          let enough = leb→le 2 (length g) two in
          (enough, greedy_bound target groups g greedy at_g enough)),
    )
  where
    all_greedy : (fs : List FileRow) → IsGreedy target (group_files target fs [] [] 0)
    all_greedy [] = unfold group_files in tt
    all_greedy (f ∷ fs) =
        let (rest, gs, e, greedy) =
          group_files-IsGreedy target fs f [] (0 + f.size) (unfold sum_by in omega arith)
            (inl refl) in
        unfold group_files in subst (IsGreedy target) (sym e) greedy
