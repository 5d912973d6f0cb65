-- ===== src/Prelude/Results.antt =====
-- A Rust `Result` whose errors a component chooses, with the outcome of a panic beside it.
use mathlib.Core.Path.{◌≡◌, refl}

-- `panic` is the outcome of an index out of bounds or of a failed length check of a slice copy.
pub data Result {ℓ κ} (E : Type κ) (A : Type ℓ) : Type (ℓ ⊔ κ) where
  ok : A → Result E A
  err : E → Result E A
  panic : Result E A

infixl 5 ◌>>=◌
abbrev pub ◌>>=◌ {ℓ κ μ} :
    {E : Type κ} {S : Type ℓ} {T : Type μ} → Result E S → (S → Result E T) → Result E T
ok s >>= next = next s
err e >>= next = err e
panic >>= next = panic

-- Where two steps succeed in turn, the first did, and the second did on its result.
pub ok_steps {ℓ κ μ} :
    {E : Type κ} {S : Type ℓ} {T : Type μ} {t : T} (first : Result E S) (next : S → Result E T)
    → (first >>= next) ≡ ok t
    → (s : S) × (next s ≡ ok t) × (first ≡ ok s)
ok_steps panic next e = cc
ok_steps (err x) next e = cc
ok_steps (ok s) next e = (s, e, refl)

pub ok_inj {ℓ κ} : {E : Type κ} {A : Type ℓ} {a b : A} → ◌≡◌ {A = Result E A} (ok a) (ok b) → a ≡ b
ok_inj e = cc
