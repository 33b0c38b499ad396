-- ===== src/Base/Bytes.antt =====
-- Go strings as lists of bytes, with the functions of `strings` that the program calls.
pub mod Cut
pub mod Decimal
pub mod Lines
pub mod Number
pub mod Trim
pub mod Words
pub mod Unicode
use Prim.Native.Char.{code}
use Prim.Native.String.{String}
use xmorph.Base.Tests.{◌==◌, leb, if◌then◌else◌, ==_iff, ==_refl}
use xmorph.Base.Lists.{any, length}
use Prim.Native.Nat.{ℕ, ◌+◌, ◌-◌}
use mathlib.Core.Path.{◌≡◌, refl, ap}
use mathlib.Core.Logic.{◌↔◌}
use mathlib.Core.Bool.{Bool, true, false, ◌&&◌, ◌||◌}
use mathlib.Core.Option.{Option, none, some}
use mathlib.Core.List.{List, [], ◌∷◌, ◌++◌}
use native.Mathlib.Omega.{arith}

abbrev pub Bytes : Type 0
Bytes = List ℕ

-- The bytes of a literal, which is ASCII everywhere in the program.
abbrev pub codes : String → Bytes
codes String.[] = []
codes (String.◌∷◌ c s) = code c ∷ codes s

-- s == t
unfoldable pub equal : Bytes → Bytes → Bool
equal [] [] = true
equal [] (y ∷ t) = false
equal (x ∷ s) [] = false
equal (x ∷ s) (y ∷ t) = x == y && equal s t

pub equal_refl : (s : Bytes) → equal s s ≡ true
unfolding equal
equal_refl [] = refl
equal_refl (x ∷ s) = ground (arith, equal_refl s)

pub equal_sound : (s t : Bytes) → equal s t ≡ true → s ≡ t
unfolding equal
equal_sound [] [] h = refl
equal_sound [] (y ∷ t) h = cc
equal_sound (x ∷ s) [] h = cc
equal_sound (x ∷ s) (y ∷ t) h = ground (arith, equal_sound s t)

pub equal_iff : (s t : Bytes) → (equal s t ≡ true) ↔ (s ≡ t)
equal_iff s t = (equal_sound s t, λ e. rw e (equal_refl t))

-- s == ""
abbrev pub is_empty : Bytes → Bool
is_empty [] = true
is_empty (x ∷ s) = false

-- strings.ContainsRune(s, c) for an ASCII byte
abbrev pub contains_byte : ℕ → Bytes → Bool
contains_byte c = any (λ x. x == c)

-- Around the first c: s[:i] and s[i+1:] for i = strings.IndexByte(s, c).
unfoldable pub cut : ℕ → Bytes → Option (Bytes × Bytes)
cut c [] = none
cut c (x ∷ s) =
    let later : Option (Bytes × Bytes) = elim (cut c s) [
      | none ↦ none
      | some (a, b) ↦ some (x ∷ a, b)
    ] in
    if x == c then some ([], s) else later

-- Around the last c: s[:i] and s[i+1:] for i = strings.LastIndexByte(s, c).
unfoldable pub cut_last : ℕ → Bytes → Option (Bytes × Bytes)
cut_last c [] = none
cut_last c (x ∷ s) = elim (cut_last c s) [
  | some (a, b) ↦ some (x ∷ a, b)
  | none ↦ if x == c then some ([], s) else none
]

-- strings.CutPrefix
unfoldable pub cut_prefix : Bytes → Bytes → Option Bytes
cut_prefix [] s = some s
cut_prefix (p ∷ ps) [] = none
cut_prefix (p ∷ ps) (x ∷ s) = if p == x then cut_prefix ps s else none

-- strings.HasPrefix(s, p)
unfoldable pub has_prefix : Bytes → Bytes → Bool
unfolding cut_prefix
has_prefix p s = elim (cut_prefix p s) [ none ↦ false | some rest ↦ true ]

-- strings.TrimPrefix(s, p)
unfoldable pub trim_prefix : Bytes → Bytes → Bytes
unfolding cut_prefix
trim_prefix p s = elim (cut_prefix p s) [ none ↦ s | some rest ↦ rest ]

-- s without its last byte, and that byte.
unfoldable pub unsnoc : Bytes → Option (Bytes × ℕ)
unsnoc [] = none
unsnoc (x ∷ s) = elim (unsnoc s) [ none ↦ some ([], x) | some (t, y) ↦ some (x ∷ t, y) ]

-- strings.CutSuffix(s, "c") for a single byte c
unfoldable pub cut_suffix_byte : ℕ → Bytes → Option Bytes
unfolding unsnoc
cut_suffix_byte c s = elim (unsnoc s) [
  | none ↦ none
  | some (t, y) ↦ if y == c then some t else none
]

-- strings.TrimSuffix(s, "c") for a single byte c
unfoldable pub trim_suffix_byte : ℕ → Bytes → Bytes
unfolding cut_suffix_byte
trim_suffix_byte c s = elim (cut_suffix_byte c s) [ none ↦ s | some t ↦ t ]

-- The ASCII part of unicode.IsSpace; trimming is strings.TrimSpace where no other space stands at an
-- end.
unfoldable pub is_space : ℕ → Bool
is_space c = c == 32 || (leb 9 c && leb c 13)

unfoldable pub trim_left : Bytes → Bytes
unfolding is_space
trim_left [] = []
trim_left (x ∷ s) = if is_space x then trim_left s else x ∷ s

unfoldable pub trim_right : Bytes → Bytes
unfolding is_space
trim_right [] = []
trim_right (x ∷ s) = elim (trim_right s) [
  | [] ↦ if is_space x then [] else x ∷ []
  | y ∷ t ↦ x ∷ y ∷ t
]

-- strings.TrimRight(s, "c") for an ASCII byte c
unfoldable pub trim_right_byte : ℕ → Bytes → Bytes
trim_right_byte c [] = []
trim_right_byte c (x ∷ s) = elim (trim_right_byte c s) [
  | [] ↦ if x == c then [] else x ∷ []
  | y ∷ t ↦ x ∷ y ∷ t
]

-- strings.TrimSpace
unfoldable pub trim_space : Bytes → Bytes
unfolding trim_left trim_right
trim_space s = trim_right (trim_left s)

-- strings.ToUpper, on ASCII
abbrev pub upper : ℕ → ℕ
upper c = if leb b'a' c && leb c b'z' then c - 32 else c

unfoldable pub to_upper : Bytes → Bytes
to_upper [] = []
to_upper (x ∷ s) = upper x ∷ to_upper s
