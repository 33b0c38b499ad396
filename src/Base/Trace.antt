-- ===== src/Base/Trace.antt =====
-- A program with effects: the calls that it made, in order, and what it returned. Whether a call
-- succeeds is an answer of the environment, which the program asks by `attempt`.
use mathlib.Core.Path.{◌≡◌, refl}
use mathlib.Core.Bool.{Bool, true, false}
use mathlib.Core.List.{List, [], ◌∷◌, ◌++◌}
use xmorph.Base.Lists.{All, All-append}
use xmorph.Base.Result.{Result, ok, err}

abbrev pub Traced {ℓ κ μ} : Type ℓ → Type κ → Type μ → Type (ℓ ⊔ κ ⊔ μ)
Traced C E A = List C × Result E A

module _ {ℓ κ} {C : Type ℓ} {E : Type κ} where
  -- The calls so far stay, and the rest runs on a value only.
  abbrev pub resume {μ ν} :
      {A : Type μ} {B : Type ν} → List C → Result E A → (A → Traced C E B) → Traced C E B
  resume calls (err e) rest = (calls, err e)
  resume calls (ok a) rest = (calls ++ (rest a).0, (rest a).1)

  infixl 5 ◌then_do◌
  abbrev pub ◌then_do◌ {μ ν} :
      {A : Type μ} {B : Type ν} → Traced C E A → (A → Traced C E B) → Traced C E B
  part then_do rest = resume part.0 part.1 rest

  infixl 5 ◌and_do◌
  abbrev pub ◌and_do◌ {ν} : {B : Type ν} → Traced C E (Unit {0}) → Traced C E B → Traced C E B
  part and_do rest = part then_do (λ done. rest)

  abbrev pub give {μ} : {A : Type μ} → A → Traced C E A
  give a = ([], ok a)

  abbrev pub stop {μ} : {A : Type μ} → E → Traced C E A
  stop e = ([], err e)

  -- One call, whose failure ends the program, or not.
  abbrev pub attempt : C → E → Bool → Traced C E (Unit {0})
  attempt call e true = (call ∷ [], ok tt)
  attempt call e false = (call ∷ [], err e)

  abbrev pub tolerate : C → Traced C E (Unit {0})
  tolerate call = (call ∷ [], ok tt)

  -- A property of each call holds of a sequence if it does of its parts.
  pub All-resume {μ ν ρ} :
      {A : Type μ} {B : Type ν} (P : C → Type ρ) (calls : List C) (r : Result E A)
      (rest : A → Traced C E B)
      → All P calls
      → ((a : A) → r ≡ ok a → All P (rest a).0)
      → All P (resume calls r rest).0
  All-resume P calls (ok a) rest h k = All-append P calls (rest a).0 h (k a refl)
  All-resume P calls (err e) rest h k = h
