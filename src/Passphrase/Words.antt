-- ===== src/Passphrase/Words.antt =====
-- A phrase that is generated from a word list is not empty.
use xmorph.Base.{
  ℕ, zero, suc, false, Option, none, some, List, [], ◌∷◌, ◌||◌, get_elem?, All, ◌≡◌, refl, arith,
  Bool-cases, inl, inr,
}
use xmorph.Base.Bytes.{Bytes, codes, is_empty, has_prefix, trim_space}
use xmorph.Base.Bytes.Lines.{split, join_with}
use xmorph.Passphrase.{word_lines, parse_wordlist, pick, joined, add_word, generate}

-- The words of a list are not empty.
abbrev pub IsWords : List Bytes → Type 0
IsWords = All (λ w. is_empty w ≡ false)

pub word_lines-IsWords : (ls : List Bytes) → IsWords (word_lines ls)
unfolding word_lines
word_lines-IsWords [] = tt
word_lines-IsWords (l ∷ ls) =
    elim (Bool-cases (is_empty (trim_space l) || has_prefix (codes "#") (trim_space l))) [
      | inl e ↦ rw e (word_lines-IsWords ls)
      | inr e ↦ rw e (ground arith, word_lines-IsWords ls)
    ]

get_elem?-IsWords :
    (words : List Bytes) (i : ℕ) (w : Bytes)
    → IsWords words
    → get_elem? i words ≡ some w
    → is_empty w ≡ false
get_elem?-IsWords [] i w h e = cc
get_elem?-IsWords (x ∷ words) zero w (d, h) e = ground arith
get_elem?-IsWords (x ∷ words) (suc i) w (d, h) e = get_elem?-IsWords words i w h e

join_with-ne-nil :
    (sep w : Bytes) (ws : List Bytes)
    → is_empty w ≡ false
    → is_empty (join_with sep (w ∷ ws)) ≡ false
unfolding join_with
join_with-ne-nil sep (x ∷ w) [] h = refl
join_with-ne-nil sep (x ∷ w) (v ∷ ws) h = refl
join_with-ne-nil sep [] ws h = cc

joined-ne-nil :
    (first : Option Bytes) (later : Option (List Bytes)) (pw : Bytes)
    → ((w : Bytes) → first ≡ some w → is_empty w ≡ false)
    → joined (add_word first later) ≡ some pw
    → is_empty pw ≡ false
joined-ne-nil none later pw h e = cc
joined-ne-nil (some w) none pw h e = cc
joined-ne-nil (some w) (some ws) pw h e =
    let n = join_with-ne-nil (codes "-") w ws (h w refl) in ground (arith, n, e)

pick-ne-nil :
    (words : List Bytes) (draws : List (Option ℕ)) (n : ℕ) (pw : Bytes)
    → IsWords words
    → joined (pick words draws (suc n)) ≡ some pw
    → is_empty pw ≡ false
unfolding pick
pick-ne-nil words [] n pw h e = cc
pick-ne-nil words (none ∷ draws) n pw h e = cc
pick-ne-nil words (some i ∷ draws) n pw h e =
    joined-ne-nil (get_elem? i words) (pick words draws n) pw
      (λ w f. get_elem?-IsWords words i w h f) e

generate-IsWords :
    (words : List Bytes) (draws : List (Option ℕ)) (n : ℕ) (pw : Bytes)
    → IsWords words
    → generate words draws n ≡ some pw
    → is_empty pw ≡ false
unfolding generate
generate-IsWords words draws zero pw h e = cc
generate-IsWords [] draws (suc n) pw h e = cc
generate-IsWords (w ∷ words) draws (suc n) pw h e = pick-ne-nil (w ∷ words) draws n pw h e

pub generate-ne-nil :
    (raw : Bytes) (draws : List (Option ℕ)) (n : ℕ) (pw : Bytes)
    → generate (parse_wordlist raw) draws n ≡ some pw
    → is_empty pw ≡ false
unfolding parse_wordlist
generate-ne-nil raw draws n pw e =
    let ls = split b'\n' raw in
    generate-IsWords (word_lines ls) draws n pw (word_lines-IsWords ls) e
