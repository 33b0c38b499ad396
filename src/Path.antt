-- ===== src/Path.antt =====
-- path/filepath on Unix: Clean, Join, Base and Dir, by the components between the slashes.
pub mod Names
use mathlib.Core.List.{reverse}
use xmorph.Base.{Bool, none, some, true, false, List, [], ◌∷◌, ◌++◌, ◌||◌, ◌==◌, if◌then◌else◌}
use xmorph.Base.Bytes.{Bytes, codes, equal, is_empty, cut_last}
use xmorph.Base.Bytes.Lines.{split, join_with}

abbrev pub dot : Bytes
dot = codes "."

abbrev pub dot_dot : Bytes
dot_dot = codes ".."

-- filepath.IsAbs
abbrev pub is_abs : Bytes → Bool
is_abs [] = false
is_abs (c ∷ s) = c == b'/'

-- "" and "."
unfoldable pub is_trivial : Bytes → Bool
is_trivial part = is_empty part || equal part dot

-- What ".." does to the components so far, the last one first.
unfoldable pub go_up : Bool → List Bytes → List Bytes
go_up true [] = []
go_up false [] = dot_dot ∷ []
go_up rooted (last ∷ above) = if equal last dot_dot then dot_dot ∷ last ∷ above else above

-- The lexical rules of Clean: the components that are left, the last one first.
unfoldable pub resolve_parts : Bool → List Bytes → List Bytes → List Bytes
unfolding is_trivial go_up
resolve_parts rooted above [] = above
resolve_parts rooted above (part ∷ parts) =
    resolve_parts rooted
      (if is_trivial part
        then above
        else if equal part dot_dot
        then go_up rooted above
        else part ∷ above)
      parts

unfoldable pub clean_parts : Bytes → List Bytes
unfolding resolve_parts split
clean_parts s = reverse (resolve_parts (is_abs s) [] (split b'/' s))

abbrev pub or_dot : Bytes → Bytes
or_dot [] = dot
or_dot (c ∷ s) = c ∷ s

unfoldable pub clean : Bytes → Bytes
unfolding clean_parts join_with
clean s =
    let path = join_with (codes "/") (clean_parts s) in
    if is_abs s then b'/' ∷ path else or_dot path

-- filepath.Join(a, b)
unfoldable pub join : Bytes → Bytes → Bytes
unfolding clean
join a b = if is_empty a then (if is_empty b then [] else clean b) else clean (a ++ (b'/' ∷ b))

-- filepath.Join of any number of elements
unfoldable pub join_all : List Bytes → Bytes
unfolding clean
join_all [] = []
join_all (e ∷ es) = if is_empty e then join_all es else clean (join_with (codes "/") (e ∷ es))

-- filepath.Dir: all up to the last slash, cleaned.
unfoldable pub dir : Bytes → Bytes
unfolding clean cut_last
dir s = elim (cut_last b'/' s) [
  | none ↦ clean []
  | some (before, after) ↦ clean (before ++ (b'/' ∷ []))
]

-- The last component, from the components with the last one first.
abbrev last_of : List Bytes → Bytes
last_of [] = codes "/"
last_of (p ∷ ps) = if is_empty p then last_of ps else p

-- filepath.Base
unfoldable pub base : Bytes → Bytes
unfolding split
base [] = dot
base (c ∷ s) = last_of (reverse (split b'/' (c ∷ s)))
