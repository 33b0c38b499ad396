-- ===== src/Base/Int.antt =====
-- Signed integers, for `time.Duration`, over the native numbers.
use Prim.Native.Nat.{ℕ, zero, suc, ◌/◌}
use xmorph.Base.Tests.{ltb, leb, ◌==◌, ==_refl}
use mathlib.Core.Bool.{Bool, true, false}
use mathlib.Core.Path.{◌≡◌, ap}
use mathlib.Core.Logic.{◌≢◌}
use native.Mathlib.Omega.{arith}

-- `negsuc n` is -(n + 1).
pub data ℤ : Type 0 where
  pos : ℕ → ℤ
  negsuc : ℕ → ℤ

abbrev pub is_zero : ℤ → Bool
is_zero (pos n) = n == 0
is_zero (negsuc n) = false

-- 0 < a
abbrev pub is_positive : ℤ → Bool
is_positive (pos n) = ltb 0 n
is_positive (negsuc n) = false

-- a < n, for a bound that is not negative
abbrev pub lt_pos : ℤ → ℕ → Bool
lt_pos (pos m) n = ltb m n
lt_pos (negsuc m) n = true

-- a <= b
abbrev pub leb_int : ℤ → ℤ → Bool
leb_int (pos m) (pos n) = leb m n
leb_int (pos m) (negsuc n) = false
leb_int (negsuc m) (pos n) = true
leb_int (negsuc m) (negsuc n) = leb n m

-- a == b
abbrev pub eq_int : ℤ → ℤ → Bool
eq_int (pos m) (pos n) = m == n
eq_int (pos m) (negsuc n) = false
eq_int (negsuc m) (pos n) = false
eq_int (negsuc m) (negsuc n) = m == n

pub eq_int_refl : (a : ℤ) → eq_int a a ≡ true
eq_int_refl (pos n) = ==_refl n
eq_int_refl (negsuc n) = ==_refl n

pub eq_int_sound : (a b : ℤ) → eq_int a b ≡ true → a ≡ b
eq_int_sound (pos m) (pos n) h = ap pos (ground arith)
eq_int_sound (pos m) (negsuc n) h = cc
eq_int_sound (negsuc m) (pos n) h = cc
eq_int_sound (negsuc m) (negsuc n) h = ap negsuc (ground arith)

pub eq_int_ne : (a b : ℤ) → eq_int a b ≡ false → a ≢ b
eq_int_ne a b h e = cc (rw e at h, eq_int_refl b)

abbrev pub neg : ℕ → ℤ
neg zero = pos 0
neg (suc m) = negsuc m

-- Go's division truncates towards zero.
abbrev pub quot_pos : ℤ → ℕ → ℤ
quot_pos (pos m) n = pos (m / n)
quot_pos (negsuc m) n = neg (suc m / n)
