-- ===== src/Passphrase.antt =====
-- internal/passphrase/passphrase.go: the word list and the phrases. The numbers that crypto/rand gives,
-- each below the number of words, are an argument; `none` is a failed read. The text of the embedded
-- list is a parameter. BitsOfEntropy, which computes in floating point, is left out.
pub mod Words
use xmorph.Base.{
  ℕ, zero, suc, Bool, true, false, Option, none, some, List, [], ◌∷◌, ◌++◌, ◌||◌, if◌then◌else◌,
  length, get_elem?, All, ◌≡◌, ◌≢◌, ◌<◌, refl, arith, Option-cases, Bool-cases, inl, inr,
}
use xmorph.Base.Bytes.{Bytes, codes, is_empty, has_prefix, trim_space}
use xmorph.Base.Bytes.Lines.{split, join_with}

unfoldable pub word_lines : List Bytes → List Bytes
word_lines [] = []
word_lines (l ∷ ls) =
    let line = trim_space l in
    let rest = word_lines ls in
    if is_empty line || has_prefix (codes "#") line then rest else line ∷ rest

unfoldable pub parse_wordlist : Bytes → List Bytes
unfolding word_lines
parse_wordlist raw = word_lines (split b'\n' raw)

abbrev pub default_words : ℕ
default_words = 3

abbrev pub add_word : Option Bytes → Option (List Bytes) → Option (List Bytes)
add_word none later = none
add_word (some w) none = none
add_word (some w) (some ws) = some (w ∷ ws)

-- The loop of `Generate`.
unfoldable pub pick : List Bytes → List (Option ℕ) → ℕ → Option (List Bytes)
pick words draws zero = some []
pick words [] (suc n) = none
pick words (none ∷ draws) (suc n) = none
pick words (some i ∷ draws) (suc n) = add_word (get_elem? i words) (pick words draws n)

abbrev pub joined : Option (List Bytes) → Option Bytes
joined none = none
joined (some ws) = some (join_with (codes "-") ws)

unfoldable pub generate : List Bytes → List (Option ℕ) → ℕ → Option Bytes
unfolding pick
generate words draws zero = none
generate [] draws (suc n) = none
generate (w ∷ words) draws (suc n) = joined (pick (w ∷ words) draws (suc n))
