-- ===== src/Base/Bytes/Trim.antt =====
-- Trimming and cutting at the end of a string.
use Prim.Native.Nat.{ℕ}
use xmorph.Base.Tests.{◌==◌, if◌then◌else◌}
use xmorph.Base.Bytes.{
  Bytes, unsnoc, is_space, trim_left, trim_right, trim_space, to_upper, cut_suffix_byte,
  trim_suffix_byte,
}
use xmorph.Base.Bytes.Number.{IsDigits, is_digit}
use mathlib.Core.Path.{◌≡◌, refl, ap, ◌∙◌, sym}
use mathlib.Core.Logic.{◌≢◌}
use mathlib.Core.Bool.{true, false}
use mathlib.Core.Option.{none, some}
use mathlib.Core.List.{[], ◌∷◌, ◌++◌, append_assoc}
use native.Mathlib.Omega.{arith}

pub unsnoc-append : (s : Bytes) (y : ℕ) → unsnoc (s ++ (y ∷ [])) ≡ some (s, y)
unfolding unsnoc
unsnoc-append [] y = refl
unsnoc-append (x ∷ s) y = rw (unsnoc-append s y)

pub cut_suffix_byte-append :
    (c : ℕ) (s : Bytes) (y : ℕ)
    → cut_suffix_byte c (s ++ (y ∷ [])) ≡ (if y == c then some s else none)
unfolding cut_suffix_byte
cut_suffix_byte-append c s y = ground (arith, unsnoc-append s y)

pub trim_suffix_byte-append :
    (c : ℕ) (s : Bytes) (y : ℕ)
    → trim_suffix_byte c (s ++ (y ∷ [])) ≡ (if y == c then s else s ++ (y ∷ []))
unfolding trim_suffix_byte
trim_suffix_byte-append c s y = ground (arith, unsnoc-append s y)

pub trim_right_fixed :
    (s : Bytes) (y : ℕ) → is_space y ≡ false → trim_right (s ++ (y ∷ [])) ≡ s ++ (y ∷ [])
unfolding trim_right
trim_right_fixed [] y h = rw h
trim_right_fixed (x ∷ []) y h = ground arith
trim_right_fixed (x ∷ z ∷ s) y h = rw (trim_right_fixed (z ∷ s) y h)

pub to_upper-append : (s t : Bytes) → to_upper (s ++ t) ≡ to_upper s ++ to_upper t
unfolding to_upper
to_upper-append [] t = refl
to_upper-append (x ∷ s) t = rw (to_upper-append s t)

pub to_upper_digits : (s : Bytes) → IsDigits s → to_upper s ≡ s
unfolding to_upper
to_upper_digits [] h = refl
to_upper_digits (x ∷ s) (d, h) = ground (arith, to_upper_digits s h)

trim_left_digit : (x : ℕ) (s : Bytes) → is_digit x ≡ true → trim_left (x ∷ s) ≡ x ∷ s
unfolding trim_left
trim_left_digit x s h = ground arith

trim_right_digits : (s : Bytes) → IsDigits s → trim_right s ≡ s
unfolding trim_right
trim_right_digits [] h = refl
trim_right_digits (x ∷ []) (d, h) = ground arith
trim_right_digits (x ∷ y ∷ s) (d, h) = rw (trim_right_digits (y ∷ s) h)

-- A number with a suffix that does not end in a space has nothing to trim.
pub trim_space_digits_append :
    (d s : Bytes) (y : ℕ)
    → d ≢ []
    → IsDigits d
    → is_space y ≡ false
    → trim_space (d ++ (s ++ (y ∷ []))) ≡ d ++ (s ++ (y ∷ []))
unfolding trim_space
trim_space_digits_append [] s y n h k = absurd (n refl)
trim_space_digits_append (x ∷ d) s y n (h, hs) k =
    ap trim_right (trim_left_digit x (d ++ (s ++ (y ∷ []))) h)
    ∙ rw (sym (append_assoc (x ∷ d) s (y ∷ []))) (trim_right_fixed ((x ∷ d) ++ s) y k)

pub trim_space_digits : (d : Bytes) → IsDigits d → trim_space d ≡ d
unfolding trim_space
trim_space_digits [] h = unfold trim_left trim_right in refl
trim_space_digits (x ∷ d) (h, hs) =
    ap trim_right (trim_left_digit x d h) ∙ trim_right_digits (x ∷ d) (h, hs)
