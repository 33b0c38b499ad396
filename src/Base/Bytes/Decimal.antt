-- ===== src/Base/Bytes/Decimal.antt =====
-- strconv.Itoa and strconv.Atoi, for an int of 64 bits.
use Prim.Native.Nat.{ℕ, zero, suc, ◌+◌, ◌-◌, ◌/◌, ◌%◌, ◌^◌, ◌≤◌, ◌<◌}
use xmorph.Base.Tests.{◌==◌, Bool-cases, if◌then◌else◌}
use xmorph.Base.Int.{ℤ, pos, negsuc, neg}
use xmorph.Base.Bytes.{Bytes}
use xmorph.Base.Bytes.Number.{is_digit, IsDigits, scan_digits, parse_uint}
use mathlib.Core.Path.{◌≡◌, refl, ◌∙◌}
use mathlib.Core.Logic.{inl, inr}
use mathlib.Core.Bool.{true, false}
use mathlib.Core.Option.{Option, none, some}
use mathlib.Core.List.{[], ◌∷◌}
use native.Mathlib.Omega.{arith}

-- The digits of n, last first, put before those that are there. Each round leaves a tenth, so more
-- rounds than n are enough.
unfoldable pub put_digits : ℕ → ℕ → Bytes → Bytes
put_digits zero n out = out
put_digits (suc rounds) n out = elim (n / 10 == 0) [
  | true ↦ (b'0' + n % 10) ∷ out
  | false ↦ put_digits rounds (n / 10) ((b'0' + n % 10) ∷ out)
]

unfoldable pub decimal : ℕ → Bytes
unfolding put_digits
decimal n = put_digits (suc n) n []

-- strconv.Itoa
unfoldable pub itoa : ℤ → Bytes
unfolding decimal
itoa (pos n) = decimal n
itoa (negsuc n) = b'-' ∷ decimal (suc n)

abbrev pub max_int : ℕ
max_int = 2 ^ 63 - 1

abbrev pub signed : (ℕ → ℤ) → Option ℕ → Option ℤ
signed sign none = none
signed sign (some n) = some (sign n)

-- strconv.Atoi: a sign may come first.
unfoldable pub atoi : Bytes → Option ℤ
unfolding parse_uint
atoi [] = none
atoi (c ∷ s) =
    if c == b'-'
    then signed neg (parse_uint (2 ^ 63) s)
    else if c == b'+'
    then signed pos (parse_uint max_int s)
    else signed pos (parse_uint max_int (c ∷ s))

scan_last_digit :
    (max n : ℕ) (out : Bytes)
    → n ≤ max
    → scan_digits max ((b'0' + n % 10) ∷ out) (n / 10) ≡ scan_digits max out n
unfolding scan_digits
scan_last_digit max n out h = ground arith

scan-put_digits :
    (max rounds n : ℕ) (out : Bytes)
    → n < rounds
    → n ≤ max
    → scan_digits max (put_digits rounds n out) 0 ≡ scan_digits max out n
unfolding put_digits
scan-put_digits max zero n out r h = absurd (omega arith)
scan-put_digits max (suc rounds) n out r h = elim (Bool-cases (n / 10 == 0)) [
  | inl e ↦
      let z : n / 10 ≡ 0 = ground arith in
      rw (put_digits, e) (rw z at (scan_last_digit max n out h))
  | inr e ↦
      rw (put_digits, e)
        (scan-put_digits max rounds (n / 10) _ (ground arith) (omega arith)
          ∙ scan_last_digit max n out h)
]

is_digit_last : (n : ℕ) → is_digit (b'0' + n % 10) ≡ true
is_digit_last n = ground arith

put_digits-IsDigits :
    (rounds n : ℕ) (out : Bytes) → IsDigits out → IsDigits (put_digits rounds n out)
unfolding put_digits
put_digits-IsDigits zero n out h = h
put_digits-IsDigits (suc rounds) n out h = elim (Bool-cases (n / 10 == 0)) [
  | inl e ↦ rw (put_digits, e) (is_digit_last n, h)
  | inr e ↦ rw (put_digits, e) (put_digits-IsDigits rounds (n / 10) _ (is_digit_last n, h))
]

pub decimal-IsDigits : (n : ℕ) → IsDigits (decimal n)
unfolding decimal
decimal-IsDigits n = put_digits-IsDigits (suc n) n [] tt

-- The text starts with a digit.
Leads : Bytes → Type 0
Leads [] = ⊥
Leads (c ∷ s) = is_digit c ≡ true

put_digits-Leads :
    (rounds n d : ℕ) (out : Bytes) → is_digit d ≡ true → Leads (put_digits rounds n (d ∷ out))
unfolding put_digits Leads
put_digits-Leads zero n d out h = h
put_digits-Leads (suc rounds) n d out h = elim (Bool-cases (n / 10 == 0)) [
  | inl e ↦ rw (put_digits, e) (is_digit_last n)
  | inr e ↦ rw (put_digits, e) (put_digits-Leads rounds (n / 10) _ _ (is_digit_last n))
]

decimal-Leads : (n : ℕ) → Leads (decimal n)
unfolding decimal Leads
decimal-Leads n = elim (Bool-cases (n / 10 == 0)) [
  | inl e ↦ rw (put_digits, e) (is_digit_last n)
  | inr e ↦ rw (put_digits, e) (put_digits-Leads n (n / 10) _ [] (is_digit_last n))
]

parse_uint-Leads : (max : ℕ) (s : Bytes) → Leads s → parse_uint max s ≡ scan_digits max s 0
unfolding parse_uint Leads
parse_uint-Leads max [] h = absurd h
parse_uint-Leads max (c ∷ s) h = refl

pub parse_uint-decimal : (max n : ℕ) → n ≤ max → parse_uint max (decimal n) ≡ some n
unfolding decimal scan_digits
parse_uint-decimal max n h =
    parse_uint-Leads max (decimal n) (decimal-Leads n)
    ∙ scan-put_digits max (suc n) n [] (omega arith) h

atoi-Leads : (s : Bytes) → Leads s → atoi s ≡ signed pos (parse_uint max_int s)
unfolding atoi Leads
atoi-Leads [] h = absurd h
atoi-Leads (c ∷ s) h = ground arith

-- An int of 64 bits.
abbrev pub IsInt : ℤ → Type 0
IsInt (pos n) = n ≤ max_int
IsInt (negsuc n) = n ≤ max_int

-- Every int is read back from its print.
pub atoi-itoa : (a : ℤ) → IsInt a → atoi (itoa a) ≡ some a
unfolding itoa atoi
atoi-itoa (pos n) h =
    rw (atoi-Leads (decimal n) (decimal-Leads n), parse_uint-decimal max_int n h) refl
atoi-itoa (negsuc n) h = rw (atoi, parse_uint-decimal (2 ^ 63) (suc n) (omega arith)) refl
