-- ===== src/Base/Bytes/Lines.antt =====
-- Splitting text: strings.Split at one byte, bufio.Scanner's lines, and strings.Fields on ASCII. The
-- scanner's limit of 64 KiB on one line is left out.
use Prim.Native.Nat.{ℕ}
use xmorph.Base.Tests.{◌==◌, if◌then◌else◌}
use xmorph.Base.Bytes.{Bytes, is_empty, is_space, trim_suffix_byte}
use mathlib.Core.List.{List, [], ◌∷◌, map}

abbrev pub onto_first : ℕ → List Bytes → List Bytes
onto_first c [] = (c ∷ []) ∷ []
onto_first c (p ∷ ps) = (c ∷ p) ∷ ps

-- strings.Split(s, sep)
unfoldable pub split : ℕ → Bytes → List Bytes
split sep [] = [] ∷ []
split sep (c ∷ s) = let ps = split sep s in if c == sep then [] ∷ ps else onto_first c ps

-- strings.Join(parts, sep)
unfoldable pub join_with : Bytes → List Bytes → Bytes
join_with sep [] = []
join_with sep (p ∷ []) = p
join_with sep (p ∷ q ∷ ps) =
    mathlib.Core.List.◌++◌ p (mathlib.Core.List.◌++◌ sep (join_with sep (q ∷ ps)))

-- No empty line stands behind the last line feed.
abbrev pub drop_last_empty : List Bytes → List Bytes
drop_last_empty [] = []
drop_last_empty ([] ∷ []) = []
drop_last_empty (l ∷ ls) = l ∷ drop_last_empty ls

unfoldable pub scan_lines : Bytes → List Bytes
unfolding split
scan_lines s = map (trim_suffix_byte b'\r') (drop_last_empty (split b'\n' s))

abbrev pub keep_field : Bytes → List Bytes → List Bytes
keep_field f fs = if is_empty f then fs else f ∷ fs

-- The field that is being read is the first part of the result, which may be empty.
unfoldable pub open_fields : Bytes → Bytes × List Bytes
open_fields [] = ([], [])
open_fields (c ∷ s) =
    let (f, fs) = open_fields s in if is_space c then ([], keep_field f fs) else (c ∷ f, fs)

-- strings.Fields of a text without white space beyond ASCII; Base.Bytes.Unicode has that of any text.
unfoldable pub fields : Bytes → List Bytes
unfolding open_fields is_space
fields s = let (f, fs) = open_fields s in keep_field f fs
