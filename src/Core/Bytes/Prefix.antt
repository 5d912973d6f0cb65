-- ===== src/Core/Bytes/Prefix.antt =====
-- Length prefixes in general: a written length that has a fixed width and can be read off makes the
-- concatenation of parts canonical. `enc` is the encoding of lengths, `Fits` the lengths it serves.
use p2pnas.Prelude.{
  ℕ, ◌≡◌, refl, sym, ap, ◌∙◌, List, [], ◌∷◌, ◌++◌, append_assoc, arith, length, length-append,
  append_inj, All,
}
use p2pnas.Core.Bytes.{Bytes}

abbrev pub joined : (ℕ → Bytes) → List Bytes → Bytes
joined enc [] = []
joined enc (p ∷ ps) = enc (length p) ++ (p ++ joined enc ps)

module _ (enc : ℕ → Bytes) (Fits : ℕ → Type 0) (width : (a b : ℕ) → length (enc a) ≡ length (enc b))
    (inj : (a b : ℕ) → Fits a → Fits b → enc a ≡ enc b → a ≡ b) where
  -- The first part and what follows it are determined.
  pub prefix_cancel :
      (a b xs ys : Bytes)
      → Fits (length a)
      → Fits (length b)
      → enc (length a) ++ (a ++ xs) ≡ enc (length b) ++ (b ++ ys)
      → (a ≡ b) × (xs ≡ ys)
  prefix_cancel a b xs ys fa fb e =
      let (same, rest) =
        append_inj (enc (length a)) (enc (length b)) (a ++ xs) (b ++ ys) (width _ _) e in
      append_inj a b xs ys (inj _ _ fa fb same) rest

  pub joined-append_inj :
      (ps qs : List Bytes) (xs ys : Bytes)
      → All (λ p. Fits (length p)) ps
      → All (λ p. Fits (length p)) qs
      → length ps ≡ length qs
      → joined enc ps ++ xs ≡ joined enc qs ++ ys
      → (ps ≡ qs) × (xs ≡ ys)
  joined-append_inj [] [] xs ys fp fq l e = (refl, e)
  joined-append_inj [] (q ∷ qs) xs ys fp fq l e = absurd (omega arith)
  joined-append_inj (p ∷ ps) [] xs ys fp fq l e = absurd (omega arith)
  joined-append_inj (p ∷ ps) (q ∷ qs) xs ys (fp, fps) (fq, fqs) l e =
      let (head, tail) =
        prefix_cancel p q (joined enc ps ++ xs) (joined enc qs ++ ys) fp fq
          (sym (regroup p ps xs) ∙ e ∙ regroup q qs ys) in
      let (rest, same) = joined-append_inj ps qs xs ys fps fqs (omega arith) tail in (cc, same)
    where
      regroup :
          (r : Bytes) (rs : List Bytes) (zs : Bytes)
          → joined enc (r ∷ rs) ++ zs ≡ enc (length r) ++ (r ++ (joined enc rs ++ zs))
      regroup r rs zs = simp append_assoc

  -- Of lists of any number of parts, where a written length is not empty.
  pub joined_inj :
      (ps qs : List Bytes)
      → ((n : ℕ) → length (enc n) ≡ 0 → ⊥)
      → All (λ p. Fits (length p)) ps
      → All (λ p. Fits (length p)) qs
      → joined enc ps ≡ joined enc qs
      → ps ≡ qs
  joined_inj [] [] pos fp fq e = refl
  joined_inj [] (q ∷ qs) pos fp fq e = absurd (
      pos (length q)
        (omega (arith, ap length e, length-append (enc (length q)) (q ++ joined enc qs))))
  joined_inj (p ∷ ps) [] pos fp fq e = absurd (
      pos (length p)
        (omega (arith, ap length e, length-append (enc (length p)) (p ++ joined enc ps))))
  joined_inj (p ∷ ps) (q ∷ qs) pos (fp, fps) (fq, fqs) e =
      let (head, tail) = prefix_cancel p q (joined enc ps) (joined enc qs) fp fq e in
      let rest = joined_inj ps qs pos fps fqs tail in cc
