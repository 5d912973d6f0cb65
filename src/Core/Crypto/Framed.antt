-- ===== src/Core/Crypto/Framed.antt =====
-- Primitives that meet the laws, for the examples: a ciphertext is the plaintext behind its key,
-- nonce and associated data, each with its length before it.
use p2pnas.Prelude.{
  ◌≡◌, refl, sym, ap, ◌∙◌, List, [], ◌∷◌, ◌++◌, Option, none, some, ◌==◌, ==_iff, ==_refl,
  Bool-cases, inl, inr, if◌then◌else◌,
}
use mathlib.Core.Path.{ap₂}
use p2pnas.Core.Bytes.{Bytes}
use p2pnas.Core.Bytes.Prefix.{joined, joined-append_inj}
use p2pnas.Core.Crypto.Primitives.{Primitives, IsAead, IsAuthentic}

abbrev frame : List Bytes → Bytes
frame = joined (λ n. n ∷ [])

-- What follows a given front.
unfoldable pub strip : Bytes → Bytes → Option Bytes
strip [] c = some c
strip (x ∷ p) [] = none
strip (x ∷ p) (y ∷ c) = if x == y then strip p c else none

strip-append : (p m : Bytes) → strip p (p ++ m) ≡ some m
unfolding strip
strip-append [] m = refl
strip-append (x ∷ p) m = rw (==_refl x) (strip-append p m)

strip-eq-some : (p c : Bytes) {m : Bytes} → strip p c ≡ some m → c ≡ p ++ m
unfolding strip
strip-eq-some [] c e = cc
strip-eq-some (x ∷ p) [] e = cc
strip-eq-some (x ∷ p) (y ∷ c) e = elim (Bool-cases (x == y)) [
  | inl same ↦ ap₂ (λ a b. a ∷ b) (sym ((==_iff x y).0 same)) (strip-eq-some p c (rw same at e))
  | inr other ↦ cc (rw other at e)
]

abbrev pub framed : Primitives
framed = record {
  hkdf = λ salt key info. some (frame (salt ∷ key ∷ info ∷ []));
  unbound_key = λ k. some k;
  seal_in_place_append_tag = λ k n a m. some (frame (k ∷ n ∷ a ∷ []) ++ m);
  open_in_place = λ k n a c. strip (frame (k ∷ n ∷ a ∷ [])) c;
}

pub framed-IsAead : IsAead framed
framed-IsAead = record {
  open_seal = λ k n a m c e.
      let e' : c ≡ frame (k ∷ n ∷ a ∷ []) ++ m = cc in
      ap (strip (frame (k ∷ n ∷ a ∷ []))) e' ∙ strip-append (frame (k ∷ n ∷ a ∷ [])) m;
}

same_parts :
    (k n a m k' n' a' m' : Bytes)
    → frame (k ∷ n ∷ a ∷ []) ++ m ≡ frame (k' ∷ n' ∷ a' ∷ []) ++ m'
    → (k ≡ k') × (n ≡ n') × (a ≡ a')
same_parts k n a m k' n' a' m' e =
    let (same, _) =
      joined-append_inj (λ x. x ∷ []) (λ _. Unit {0}) (λ x y. refl) (λ x y _ _ h. cc)
        (k ∷ n ∷ a ∷ []) (k' ∷ n' ∷ a' ∷ []) m m' (tt, (tt, (tt, tt))) (tt, (tt, (tt, tt))) refl
        e in
    (cc, cc, cc)

pub framed-IsAuthentic : IsAuthentic framed
framed-IsAuthentic = record {
  same_context = λ k n a m c k' n' a' m' s o.
      let e : c ≡ frame (k ∷ n ∷ a ∷ []) ++ m = cc in
      same_parts k n a m k' n' a' m' (sym e ∙ strip-eq-some (frame (k' ∷ n' ∷ a' ∷ [])) c o);
}
