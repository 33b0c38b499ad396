-- ===== src/Base/Bytes/Cut.antt =====
-- What cutting a string at its first or last separator says, and when it undoes a concatenation.
use xmorph.Base.Tests.{◌==◌, Option-cases, ==_refl}
use xmorph.Base.Lists.{any-append}
use xmorph.Base.Bytes.{Bytes, contains_byte, cut, cut_last}
use Prim.Native.Nat.{ℕ}
use mathlib.Core.Path.{◌≡◌, refl}
use mathlib.Core.Logic.{inl, inr}
use mathlib.Core.Bool.{false, ◌||◌}
use mathlib.Core.Option.{none, some}
use mathlib.Core.List.{[], ◌∷◌, ◌++◌}
use native.Mathlib.Omega.{arith}

pub cut-append :
    (c : ℕ) (a b : Bytes) → contains_byte c a ≡ false → cut c (a ++ c ∷ b) ≡ some (a, b)
unfolding cut
cut-append c [] b h = rw (==_refl c)
cut-append c (x ∷ a) b h = ground (arith, cut-append c a b)

pub cut-eq-none : (c : ℕ) (s : Bytes) → contains_byte c s ≡ false → cut c s ≡ none
unfolding cut
cut-eq-none c [] h = refl
cut-eq-none c (x ∷ s) h = ground (arith, cut-eq-none c s)

pub cut-none : (c : ℕ) (s : Bytes) → cut c s ≡ none → contains_byte c s ≡ false
unfolding cut
cut-none c [] h = refl
cut-none c (x ∷ s) h = ground (arith, cut-none c s)

pub cut-some :
    (c : ℕ) (s a b : Bytes) → cut c s ≡ some (a, b) → (s ≡ a ++ c ∷ b) × (contains_byte c a ≡ false)
unfolding cut
cut-some c [] a b h = cc
cut-some c (x ∷ s) a b h = elim (Option-cases (cut c s)) [
  | inl e ↦ ground arith
  | inr (p, e) ↦ ground (arith, cut-some c s p.0 p.1)
]

pub cut_last-none : (c : ℕ) (s : Bytes) → cut_last c s ≡ none → contains_byte c s ≡ false
unfolding cut_last
cut_last-none c [] h = refl
cut_last-none c (x ∷ s) h = ground (arith, cut_last-none c s)

pub cut_last-eq-none : (c : ℕ) (s : Bytes) → contains_byte c s ≡ false → cut_last c s ≡ none
unfolding cut_last
cut_last-eq-none c [] h = refl
cut_last-eq-none c (x ∷ s) h = ground (arith, cut_last-eq-none c s)

pub cut_last-append :
    (c : ℕ) (a b : Bytes) → contains_byte c b ≡ false → cut_last c (a ++ c ∷ b) ≡ some (a, b)
unfolding cut_last
cut_last-append c [] b h = rw (cut_last-eq-none c b h) (rw (==_refl c))
cut_last-append c (x ∷ a) b h = rw (cut_last-append c a b h)

pub cut_last-some :
    (c : ℕ) (s a b : Bytes)
    → cut_last c s ≡ some (a, b)
    → (s ≡ a ++ c ∷ b) × (contains_byte c b ≡ false)
unfolding cut_last
cut_last-some c [] a b h = cc
cut_last-some c (x ∷ s) a b h = elim (Option-cases (cut_last c s)) [
  | inl e ↦ ground (arith, cut_last-none c s)
  | inr (p, e) ↦ ground (arith, cut_last-some c s p.0 p.1)
]

pub contains_byte-append :
    (c : ℕ) (a b : Bytes) → contains_byte c (a ++ b) ≡ (contains_byte c a || contains_byte c b)
contains_byte-append c a b = any-append (λ x. x == c) a b
