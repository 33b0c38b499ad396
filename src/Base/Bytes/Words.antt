-- ===== src/Base/Bytes/Words.antt =====
-- Texts without spaces: what trimming and splitting make of a line that ends in one.
use Prim.Native.Nat.{ℕ}
use xmorph.Base.Tests.{◌==◌, Option-cases}
use xmorph.Base.Lists.{All}
use xmorph.Base.Bytes.{
  Bytes, contains_byte, is_space, trim_right, trim_suffix_byte, cut_suffix_byte, unsnoc,
}
use xmorph.Base.Bytes.Lines.{split, fields, open_fields, keep_field}
use mathlib.Core.Path.{◌≡◌, refl}
use mathlib.Core.Logic.{inl, inr}
use mathlib.Core.Bool.{true, false}
use mathlib.Core.Option.{some}
use mathlib.Core.List.{[], ◌∷◌, ◌++◌}
use native.Mathlib.Omega.{arith}

abbrev pub IsWord : Bytes → Type 0
IsWord = All (λ c. is_space c ≡ false)

pub trim_right-IsWord : (w : Bytes) → IsWord w → trim_right w ≡ w
unfolding trim_right
trim_right-IsWord [] h = refl
trim_right-IsWord (x ∷ []) (d, h) = rw d refl
trim_right-IsWord (x ∷ y ∷ s) (d, h) = rw (trim_right-IsWord (y ∷ s) h) refl

-- A word at the end is not trimmed, nor is what stands before it.
pub trim_right-append :
    (p : Bytes) (x : ℕ) (w : Bytes) → IsWord (x ∷ w) → trim_right (p ++ x ∷ w) ≡ p ++ x ∷ w
unfolding trim_right
trim_right-append [] x w h = trim_right-IsWord (x ∷ w) h
trim_right-append (c ∷ []) x w h = rw (trim_right-IsWord (x ∷ w) h) refl
trim_right-append (c ∷ d ∷ p) x w h = rw (trim_right-append (d ∷ p) x w h) refl

unsnoc-contains_byte :
    (c : ℕ) (s t : Bytes) (y : ℕ)
    → contains_byte c s ≡ false
    → unsnoc s ≡ some (t, y)
    → (y == c) ≡ false
unfolding unsnoc
unsnoc-contains_byte c [] t y h e = cc
unsnoc-contains_byte c (x ∷ s) t y h e = elim (Option-cases (unsnoc s)) [
  | inl none_left ↦ ground arith
  | inr (q, found) ↦ ground (arith, unsnoc-contains_byte c s q.0 q.1)
]

pub trim_suffix_byte_absent :
    (c : ℕ) (s : Bytes) → contains_byte c s ≡ false → trim_suffix_byte c s ≡ s
unfolding trim_suffix_byte cut_suffix_byte
trim_suffix_byte_absent c s h = elim (Option-cases (unsnoc s)) [
  | inl e ↦ ground arith
  | inr (q, e) ↦ ground (arith, unsnoc-contains_byte c s q.0 q.1)
]

-- The line before the first separator.
pub split-append :
    (sep : ℕ) (l s : Bytes)
    → contains_byte sep l ≡ false
    → split sep (l ++ sep ∷ s) ≡ l ∷ split sep s
unfolding split
split-append sep [] s h = ground arith
split-append sep (c ∷ l) s h = ground (arith, split-append sep l s)

pub open_fields-IsWord : (w : Bytes) → IsWord w → open_fields w ≡ (w, [])
unfolding open_fields
open_fields-IsWord [] h = refl
open_fields-IsWord (x ∷ w) (d, h) = rw (open_fields-IsWord w h, d) refl

open_fields-append :
    (p w : Bytes) → IsWord p → IsWord w → open_fields (p ++ 32 ∷ w) ≡ (p, keep_field w [])
unfolding open_fields is_space
open_fields-append [] w h k = rw (open_fields-IsWord w k) refl
open_fields-append (x ∷ p) w (d, h) k = rw (open_fields-append p w h k, d) refl

-- Two words with a space between them.
pub fields-append :
    (p w : Bytes) → IsWord p → IsWord w → fields (p ++ 32 ∷ w) ≡ keep_field p (keep_field w [])
unfolding fields
fields-append p w h k = rw (open_fields-append p w h k) refl

-- A word has none of the spaces.
pub contains_byte-IsWord :
    (c : ℕ) (w : Bytes) → is_space c ≡ true → IsWord w → contains_byte c w ≡ false
unfolding is_space
contains_byte-IsWord c [] s h = refl
contains_byte-IsWord c (x ∷ w) s (d, h) = ground (arith, contains_byte-IsWord c w s h)
