-- ===== src/Base/Result.antt =====
-- Results of fallible code: a value or an error, with `do` blocks.
use mathlib.Core.Path.{◌≡◌, refl}
use mathlib.Core.Logic.{◌⊎◌, inl, inr}
use mathlib.Core.Bool.{Bool, true, false}

pub data Result {ℓ κ} (E : Type ℓ) (A : Type κ) : Type (ℓ ⊔ κ) where
  err : E → Result E A
  ok : A → Result E A

-- `if bad { return e }`
abbrev pub refuse_if {ℓ} : {E : Type ℓ} → Bool → E → Result E (Unit {0})
refuse_if false failure = ok tt
refuse_if true failure = err failure

module _ {ℓ κ} {E : Type ℓ} {B : Type κ} where
  infixl 5 ◌>>=◌
  abbrev pub ◌>>=◌ {μ} : {A : Type μ} → Result E A → (A → Result E B) → Result E B
  err failure >>= next = err failure
  ok value >>= next = next value

  infixl 5 ◌>>◌
  abbrev pub ◌>>◌ : Result E (Unit {0}) → Result E B → Result E B
  first >> rest = first >>= (λ done. rest)

module _ {ℓ κ} {E : Type ℓ} {A : Type κ} where
  pub Result-cases : (r : Result E A) → ((a : A) × (r ≡ ok a)) ⊎ ((e : E) × (r ≡ err e))
  Result-cases (err e) = inr (e, refl)
  Result-cases (ok a) = inl (a, refl)

  pub ok_injective : {a b : A} → Path (Result E A) (ok a) (ok b) → a ≡ b
  ok_injective h = cc

  pub err≢ok : {e : E} {a : A} → Path (Result E A) (err e) (ok a) → ⊥
  err≢ok h = cc

module _ {ℓ κ μ} {E : Type ℓ} {A : Type μ} {B : Type κ} where
  pub >>=-ok :
      (r : Result E A) (next : A → Result E B) {b : B}
      → r >>= next ≡ ok b
      → (a : A) × (r ≡ ok a) × (next a ≡ ok b)
  >>=-ok (ok a) next h = (a, refl, h)
  >>=-ok (err e) next h = absurd (err≢ok h)
