-- ===== src/Base/Bytes/Unicode.antt =====
-- strings.Fields of a text in UTF-8, with the white space of Unicode. No valid or invalid text has the
-- bytes of such a space but where the space stands, since they start with a leading byte.
use Prim.Native.Nat.{ℕ, zero, suc, ◌-◌}
use xmorph.Base.Tests.{◌==◌, leb, if◌then◌else◌}
use xmorph.Base.Bytes.{Bytes}
use xmorph.Base.Bytes.Lines.{fields}
use mathlib.Core.Bool.{Bool, ◌&&◌, ◌||◌}
use mathlib.Core.List.{List, [], ◌∷◌}

abbrev byte_at : ℕ → Bytes → ℕ
byte_at i [] = 0
byte_at zero (c ∷ s) = c
byte_at (suc i) (c ∷ s) = byte_at i s

-- U+0085 and U+00A0
abbrev is_space_2 : ℕ → ℕ → Bool
is_space_2 a b = a == 0xc2 && (b == 0x85 || b == 0xa0)

-- U+1680, U+2000 to U+200A, U+2028, U+2029, U+202F, U+205F and U+3000
abbrev is_space_3 : ℕ → ℕ → ℕ → Bool
is_space_3 a b c =
    (a == 0xe1 && (b == 0x9a && c == 0x80))
    || ((a == 0xe2
          && ((b == 0x80 && ((leb 0x80 c && leb c 0x8a) || (c == 0xa8 || (c == 0xa9 || c == 0xaf))))
              || (b == 0x81 && c == 0x9f)))
        || (a == 0xe3 && (b == 0x80 && c == 0x80)))

-- The bytes of the space that starts here; 0 if none does, or one of a single byte.
unfoldable pub space_width : Bytes → ℕ
space_width s =
    if is_space_2 (byte_at 0 s) (byte_at 1 s)
    then 2
    else if is_space_3 (byte_at 0 s) (byte_at 1 s) (byte_at 2 s)
    then 3
    else 0

-- Those spaces as blanks, after `skip` bytes that belong to one.
unfoldable pub plain_spaces_from : ℕ → Bytes → Bytes
unfolding space_width
plain_spaces_from skip [] = []
plain_spaces_from (suc skip) (c ∷ s) = plain_spaces_from skip s
plain_spaces_from zero (c ∷ s) =
    let width = space_width (c ∷ s) in
    (if width == 0 then c else 32) ∷ plain_spaces_from (width - 1) s

unfoldable pub plain_spaces : Bytes → Bytes
unfolding plain_spaces_from
plain_spaces s = plain_spaces_from 0 s

-- strings.Fields
unfoldable pub unicode_fields : Bytes → List Bytes
unfolding plain_spaces fields
unicode_fields s = fields (plain_spaces s)
