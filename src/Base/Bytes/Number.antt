-- ===== src/Base/Bytes/Number.antt =====
-- strconv.ParseUint(s, 10, bits), for the largest number `max` of that many bits. Syntax and range
-- errors are not told apart, since no caller does.
use Prim.Native.Nat.{ℕ, ◌+◌, ◌-◌, ◌*◌, ◌^◌, ◌≤◌}
use xmorph.Base.Tests.{leb, ltb, if◌then◌else◌}
use xmorph.Base.Lists.{All}
use xmorph.Base.Bytes.{Bytes}
use mathlib.Core.Path.{◌≡◌}
use mathlib.Core.Logic.{◌≢◌}
use mathlib.Core.Bool.{Bool, true, ◌&&◌}
use mathlib.Core.Option.{Option, none, some}
use mathlib.Core.List.{[], ◌∷◌}
use native.Mathlib.Omega.{arith}

abbrev pub max_uint64 : ℕ
max_uint64 = 2 ^ 64 - 1

abbrev pub is_digit : ℕ → Bool
is_digit c = leb b'0' c && leb c b'9'

unfoldable pub scan_digits : ℕ → Bytes → ℕ → Option ℕ
scan_digits max [] n = some n
scan_digits max (c ∷ s) n =
    let m = n * 10 + (c - b'0') in
    let rest = scan_digits max s m in
    if is_digit c then (if ltb max m then none else rest) else none

unfoldable pub parse_uint : ℕ → Bytes → Option ℕ
unfolding scan_digits
parse_uint max [] = none
parse_uint max (c ∷ s) = scan_digits max (c ∷ s) 0

abbrev pub IsDigits : Bytes → Type 0
IsDigits = All (λ c. is_digit c ≡ true)

scan_digits_sound :
    (max : ℕ) (s : Bytes) (n m : ℕ)
    → n ≤ max
    → scan_digits max s n ≡ some m
    → IsDigits s × (m ≤ max)
unfolding scan_digits
scan_digits_sound max [] n m h e = ground arith
scan_digits_sound max (c ∷ s) n m h e =
    ground (arith, scan_digits_sound max s (n * 10 + (c - b'0')) m)

-- An accepted text is one or more digits, and its value is at most `max`.
pub parse_uint_sound :
    (max : ℕ) (s : Bytes) (n : ℕ) → parse_uint max s ≡ some n → (s ≢ []) × IsDigits s × (n ≤ max)
unfolding parse_uint
parse_uint_sound max [] n e = cc
parse_uint_sound max (c ∷ s) n e =
    let (d, b) = scan_digits_sound max (c ∷ s) 0 n (omega arith) e in ((λ h. cc), d, b)
