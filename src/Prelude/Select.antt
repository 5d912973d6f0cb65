-- ===== src/Prelude/Select.antt =====
-- Rows of a table as a list: the selections, the first row, the stable sort and the sums that queries
-- ask for, and membership.
use p2pnas.Prelude.{
  ℕ, ◌+◌, ◌≡◌, refl, sym, ap, ◌∙◌, Bool, true, false, ◌||◌, List, [], ◌∷◌, ◌++◌, Option, none, some,
  ◌⊎◌, inl, inr, ◌↔◌, if◌then◌else◌, Bool-cases, All, map,
}
use mathlib.Core.Path.{subst}

module _ {A : Type 0} where
  unfoldable pub filter : (A → Bool) → List A → List A
  filter test [] = []
  filter test (x ∷ xs) = let rest = filter test xs in if test x then x ∷ rest else rest

  -- The first row.
  unfoldable pub first : List A → Option A
  first [] = none
  first (x ∷ xs) = some x

  unfoldable pub any : (A → Bool) → List A → Bool
  any test [] = false
  any test (x ∷ xs) = test x || any test xs

  unfoldable pub sum_by : (A → ℕ) → List A → ℕ
  sum_by f [] = 0
  sum_by f (x ∷ xs) = f x + sum_by f xs

  -- `ORDER BY`: a stable sort by a test for "not after".
  unfoldable pub insert_ordered : (A → A → Bool) → A → List A → List A
  insert_ordered le x [] = x ∷ []
  insert_ordered le x (y ∷ ys) =
      let rest = insert_ordered le x ys in if le x y then x ∷ (y ∷ ys) else y ∷ rest

  unfoldable pub order_by : (A → A → Bool) → List A → List A
  order_by le [] = []
  order_by le (x ∷ xs) = insert_ordered le x (order_by le xs)

  abbrev pub Elem : A → List A → Type 0
  Elem x [] = ⊥
  Elem x (y ∷ ys) = (x ≡ y) ⊎ Elem x ys

  pub Elem-filter :
      (test : A → Bool) (x : A) (xs : List A)
      → Elem x (filter test xs) ↔ (Elem x xs × (test x ≡ true))
  unfolding filter
  Elem-filter test x [] = (λ h. absurd h, λ (h, _). absurd h)
  Elem-filter test x (y ∷ ys) = elim (Bool-cases (test y)) [
    | inl passed ↦ rw passed (
      λ h. elim h [
        | inl e ↦ (inl e, rw e passed)
        | inr m ↦ let (m', t) = (Elem-filter test x ys).0 m in (inr m', t)
      ],
      λ (h, t). elim h [ inl e ↦ inl e | inr m ↦ inr ((Elem-filter test x ys).1 (m, t)) ],
    )
    | inr failed ↦ rw failed (
      λ h. let (m', t) = (Elem-filter test x ys).0 h in (inr m', t),
      λ (h, t). elim h [ inl e ↦ cc (rw e at t) | inr m ↦ (Elem-filter test x ys).1 (m, t) ],
    )
  ]

  Elem-insert_ordered :
      (le : A → A → Bool) (x y : A) (ys : List A)
      → Elem x (insert_ordered le y ys) ↔ ((x ≡ y) ⊎ Elem x ys)
  unfolding insert_ordered
  Elem-insert_ordered le x y [] = (λ h. h, λ h. h)
  Elem-insert_ordered le x y (z ∷ zs) = elim (Bool-cases (le y z)) [
    | inl before ↦ rw before (λ h. h, λ h. h)
    | inr after ↦ rw after (
      λ h. elim h [
        | inl e ↦ inr (inl e)
        | inr m ↦ elim ((Elem-insert_ordered le x y zs).0 m) [
          | inl e ↦ inl e
          | inr m' ↦ inr (inr m')
        ]
      ],
      λ h. elim h [
        | inl e ↦ inr ((Elem-insert_ordered le x y zs).1 (inl e))
        | inr m ↦ elim m [
          | inl e ↦ inl e
          | inr m' ↦ inr ((Elem-insert_ordered le x y zs).1 (inr m'))
        ]
      ],
    )
  ]

  -- Sorting keeps the rows.
  pub Elem-order_by :
      (le : A → A → Bool) (x : A) (xs : List A) → Elem x (order_by le xs) ↔ Elem x xs
  unfolding order_by
  Elem-order_by le x [] = (λ h. h, λ h. h)
  Elem-order_by le x (y ∷ ys) = (
    λ h. elim ((Elem-insert_ordered le x y (order_by le ys)).0 h) [
      | inl e ↦ inl e
      | inr m ↦ inr ((Elem-order_by le x ys).0 m)
    ],
    λ h.
        (Elem-insert_ordered le x y (order_by le ys)).1
          (elim h [ inl e ↦ inl e | inr m ↦ inr ((Elem-order_by le x ys).1 m) ]),
  )

  pub Elem-append : (x : A) (xs ys : List A) → Elem x (xs ++ ys) ↔ (Elem x xs ⊎ Elem x ys)
  Elem-append x [] ys = (λ h. inr h, λ h. elim h [ inl m ↦ absurd m | inr m ↦ m ])
  Elem-append x (z ∷ xs) ys = (
    λ h. elim h [
      | inl e ↦ inl (inl e)
      | inr m ↦ elim ((Elem-append x xs ys).0 m) [ inl a ↦ inl (inr a) | inr b ↦ inr b ]
    ],
    λ h. elim h [
      | inl m ↦ elim m [ inl e ↦ inl e | inr a ↦ inr ((Elem-append x xs ys).1 (inl a)) ]
      | inr b ↦ inr ((Elem-append x xs ys).1 (inr b))
    ],
  )

  -- What holds of all rows holds of each, and back.
  pub All-Elem : (P : A → Type 0) (xs : List A) (x : A) → All P xs → Elem x xs → P x
  All-Elem P [] x h m = absurd m
  All-Elem P (y ∷ ys) x (p, h) m = elim m [
    | inl e ↦ subst P (sym e) p
    | inr m' ↦ All-Elem P ys x h m'
  ]

  pub Elem-All : (P : A → Type 0) (xs : List A) → ((x : A) → Elem x xs → P x) → All P xs
  Elem-All P [] h = tt
  Elem-All P (y ∷ ys) h = (h y (inl refl), Elem-All P ys (λ x m. h x (inr m)))

  pub filter-All :
      (test : A → Bool) (xs : List A) → All (λ x. test x ≡ true) xs → filter test xs ≡ xs
  unfolding filter
  filter-All test [] h = refl
  filter-All test (x ∷ xs) (p, h) = rw p (ap (λ t. x ∷ t) (filter-All test xs h))

  pub filter_empty :
      (test : A → Bool) (xs : List A) → All (λ x. test x ≡ false) xs → filter test xs ≡ []
  unfolding filter
  filter_empty test [] h = refl
  filter_empty test (x ∷ xs) (p, h) = rw p (filter_empty test xs h)

  pub any_none :
      (test : A → Bool) (xs : List A) → ((x : A) → Elem x xs → test x ≡ false) → any test xs ≡ false
  unfolding any
  any_none test [] h = refl
  any_none test (x ∷ xs) h = rw (h x (inl refl)) (any_none test xs (λ y m. h y (inr m)))

  -- A row that passes makes the test for any true.
  pub any_some :
      (test : A → Bool) (x : A) (xs : List A) → Elem x xs → test x ≡ true → any test xs ≡ true
  unfolding any
  any_some test x [] m t = absurd m
  any_some test x (y ∷ ys) m t = elim m [
    | inl e ↦ rw (subst (λ z. test z ≡ true) e t) refl
    | inr m' ↦ elim (Bool-cases (test y)) [
      | inl passed ↦ rw passed refl
      | inr failed ↦ rw failed (any_some test x ys m' t)
    ]
  ]

  -- A row at the end that does not pass.
  pub filter-append :
      (test : A → Bool) (xs : List A) (y : A)
      → test y ≡ false
      → filter test (xs ++ (y ∷ [])) ≡ filter test xs
  unfolding filter
  filter-append test [] y t = rw t refl
  filter-append test (x ∷ xs) y t = elim (Bool-cases (test x)) [
    | inl passed ↦ rw passed (ap (λ r. x ∷ r) (filter-append test xs y t))
    | inr failed ↦ rw failed (filter-append test xs y t)
  ]

  -- No row passes where the test for any is false.
  pub any-false :
      (test : A → Bool) (x : A) (xs : List A) → any test xs ≡ false → Elem x xs → test x ≡ false
  any-false test x xs e m = elim (Bool-cases (test x)) [
    | inl t ↦ let found = any_some test x xs m t in let clash : true ≡ false = sym found ∙ e in cc
    | inr t ↦ t
  ]

  -- Rows that another selection would not have passed may go first.
  pub filter-filter :
      (p q : A → Bool) (xs : List A)
      → ((x : A) → Elem x xs → p x ≡ true → q x ≡ true)
      → filter p (filter q xs) ≡ filter p xs
  unfolding filter
  filter-filter p q [] h = refl
  filter-filter p q (x ∷ xs) h =
      let rest = filter-filter p q xs (λ y m. h y (inr m)) in
      elim (Bool-cases (p x)) [
        | inl pass ↦ rw (h x (inl refl) pass) (rw pass (ap (λ t. x ∷ t) rest))
        | inr fail ↦ rw fail (elim (Bool-cases (q x)) [
          | inl kept ↦ rw kept (rw fail rest)
          | inr gone ↦ rw gone rest
        ])
      ]

pub Elem-map : {A B : Type 0} (f : A → B) (x : A) (xs : List A) → Elem x xs → Elem (f x) (map f xs)
Elem-map f x [] m = absurd m
Elem-map f x (y ∷ ys) m = elim m [ inl e ↦ inl (ap f e) | inr m' ↦ inr (Elem-map f x ys m') ]

-- The only row that passes comes first.
pub first-filter :
    {A B : Type 0} (g : A → B) (test : A → Bool) (x : A) (xs : List A)
    → Elem x xs
    → test x ≡ true
    → ((y : A) → Elem y xs → test y ≡ true → y ≡ x)
    → first (map g (filter test xs)) ≡ some (g x)
unfolding first filter
first-filter g test x [] m t only = absurd m
first-filter g test x (y ∷ ys) m t only = elim (Bool-cases (test y)) [
  | inl passed ↦ rw passed (ap (λ z. some (g z)) (only y (inl refl) passed))
  | inr failed ↦ rw failed (elim m [
    | inl e ↦ cc (rw e at t)
    | inr m' ↦ first-filter g test x ys m' t (λ z n. only z (inr n))
  ])
]

-- Two changes that undo each other.
pub map-map_back :
    {A : Type 0} (g h : A → A) (xs : List A)
    → ((x : A) → Elem x xs → h (g x) ≡ x)
    → map h (map g xs) ≡ xs
map-map_back g h [] back = refl
map-map_back g h (x ∷ xs) back =
    let head = back x (inl refl) in let rest = map-map_back g h xs (λ y m. back y (inr m)) in cc

pub Elem-unmap :
    {A B : Type 0} (f : A → B) (b : B) (xs : List A)
    → Elem b (map f xs)
    → (x : A) × Elem x xs × (b ≡ f x)
Elem-unmap f b [] m = absurd m
Elem-unmap f b (y ∷ ys) m = elim m [
  | inl e ↦ (y, inl refl, e)
  | inr m' ↦ let (x, at_x, e) = Elem-unmap f b ys m' in (x, inr at_x, e)
]

-- What passes is found.
pub any_elem :
    {A : Type 0} (test : A → Bool) (xs : List A)
    → any test xs ≡ true
    → (x : A) × Elem x xs × (test x ≡ true)
unfolding any
any_elem test [] e = cc
any_elem test (x ∷ xs) e = elim (Bool-cases (test x)) [
  | inl t ↦ (x, inl refl, t)
  | inr t ↦ let (y, m, t') = any_elem test xs (rw t at e) in (y, inr m, t')
]
