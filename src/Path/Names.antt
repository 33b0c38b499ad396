-- ===== src/Path/Names.antt =====
-- Paths of proper components stay as they are under Clean, Join and Dir.
use mathlib.Core.List.{reverse, reverse-cons}
use xmorph.Base.{
  Bool, true, false, List, [], ◌∷◌, ◌++◌, ◌&&◌, ◌||◌, not, arith, ◌≡◌, refl, sym, ap, ◌∙◌,
  append_assoc, ◌==◌, All, Bool-cases, inl, inr,
}
use xmorph.Base.Bytes.{Bytes, codes, equal, is_empty, contains_byte}
use xmorph.Base.Bytes.Cut.{cut_last-append, cut_last-eq-none}
use xmorph.Base.Bytes.Lines.{split, join_with}
use xmorph.Path.{
  dot, dot_dot, is_abs, is_trivial, resolve_parts, clean_parts, or_dot, clean, join, dir,
}

abbrev pub has_slash : Bytes → Bool
has_slash = contains_byte b'/'

-- A component that stands for itself.
unfoldable pub is_name : Bytes → Bool
is_name part = not (is_trivial part) && (not (equal part dot_dot) && not (has_slash part))

abbrev pub IsName : Bytes → Type 0
IsName part = is_name part ≡ true

-- The path of components, the last one first.
abbrev pub path_of : List Bytes → Bytes
path_of [] = []
path_of (p ∷ []) = p
path_of (p ∷ q ∷ above) = path_of (q ∷ above) ++ (b'/' ∷ p)

split_name : (p : Bytes) → has_slash p ≡ false → split b'/' p ≡ p ∷ []
unfolding split
split_name [] h = refl
split_name (c ∷ p) h = ground (arith, split_name p)

split_cons : (s : Bytes) → (p : Bytes) × (ps : List Bytes) × (split b'/' s ≡ p ∷ ps)
unfolding split
split_cons [] = ([], [], refl)
split_cons (c ∷ s) =
    let (p, ps, e) = split_cons s in
    elim (Bool-cases (c == b'/')) [
      | inl h ↦ ([], split b'/' s, rw h)
      | inr h ↦ (c ∷ p, ps, rw (h, e))
    ]

split-append :
    (s p : Bytes) → has_slash p ≡ false → split b'/' (s ++ (b'/' ∷ p)) ≡ split b'/' s ++ (p ∷ [])
unfolding split
split-append [] p h = ground (arith, split_name p)
split-append (c ∷ s) p h = let (q, qs, e) = split_cons s in ground (arith, split-append s p h, e)

pub split-path_of :
    (p : Bytes) (above : List Bytes)
    → All IsName (p ∷ above)
    → split b'/' (path_of (p ∷ above)) ≡ reverse (p ∷ above)
unfolding is_name
split-path_of p [] h = ground (arith, split_name p)
split-path_of p (q ∷ above) (h, k) =
    split-append (path_of (q ∷ above)) p (ground arith)
    ∙ ap (λ (ps : List Bytes). ps ++ (p ∷ [])) (split-path_of q above k)
    ∙ sym (reverse-cons p (q ∷ above))

resolve_parts-append :
    (rooted : Bool) (xs ys above : List Bytes)
    → resolve_parts rooted above (xs ++ ys)
      ≡ resolve_parts rooted (resolve_parts rooted above xs) ys
unfolding resolve_parts
resolve_parts-append rooted [] ys above = refl
resolve_parts-append rooted (x ∷ xs) ys above = resolve_parts-append rooted xs ys _

resolve_parts-names :
    (comps : List Bytes) → All IsName comps → resolve_parts false [] (reverse comps) ≡ comps
unfolding resolve_parts is_name
resolve_parts-names [] h = refl
resolve_parts-names (p ∷ comps) (h, k) =
    rw
      (
        reverse-cons p comps,
        resolve_parts-append false (reverse comps) (p ∷ []) [],
        resolve_parts-names comps k,
      )
      (ground arith)

join_with-append :
    (p q : Bytes) (above : List Bytes)
    → join_with (codes "/") ((q ∷ above) ++ (p ∷ []))
      ≡ join_with (codes "/") (q ∷ above) ++ (b'/' ∷ p)
unfolding join_with
join_with-append p q [] = refl
join_with-append p q (r ∷ above) =
    rw (join_with-append p r above)
      (sym (append_assoc q (b'/' ∷ join_with (codes "/") (r ∷ above)) (b'/' ∷ p)))

reverse_cons :
    (comps : List Bytes) (q : Bytes)
    → (r : Bytes) × (rs : List Bytes) × (reverse (q ∷ comps) ≡ r ∷ rs)
reverse_cons [] q = (q, [], refl)
reverse_cons (r ∷ comps) q =
    let (s, ss, e) = reverse_cons comps r in
    (s, ss ++ (q ∷ []), reverse-cons q (r ∷ comps) ∙ ap (λ (ps : List Bytes). ps ++ (q ∷ [])) e)

join_with-reverse : (comps : List Bytes) → join_with (codes "/") (reverse comps) ≡ path_of comps
unfolding join_with
join_with-reverse [] = refl
join_with-reverse (p ∷ []) = refl
join_with-reverse (p ∷ q ∷ above) =
    let (r, rs, e) = reverse_cons above q in
    ap (join_with (codes "/")) (reverse-cons p (q ∷ above))
    ∙ ap (λ (ps : List Bytes). join_with (codes "/") (ps ++ (p ∷ []))) e
    ∙ join_with-append p r rs
    ∙ ap (λ (ps : List Bytes). join_with (codes "/") ps ++ (b'/' ∷ p)) (sym e)
    ∙ ap (λ (s : Bytes). s ++ (b'/' ∷ p)) (join_with-reverse (q ∷ above))

is_empty-append : (s t : Bytes) → is_empty (s ++ t) ≡ (is_empty s && is_empty t)
is_empty-append [] t = refl
is_empty-append (c ∷ s) t = refl

is_abs-append : (s t : Bytes) → is_empty s ≡ false → is_abs (s ++ t) ≡ is_abs s
is_abs-append [] t h = ground arith
is_abs-append (c ∷ s) t h = refl

-- The path of names is not empty, does not start with a slash and is not ".".
starts_path_of :
    (p : Bytes) (above : List Bytes)
    → All IsName (p ∷ above)
    → (is_empty (path_of (p ∷ above)) ≡ false) × (is_abs (path_of (p ∷ above)) ≡ false)
unfolding is_name is_trivial
starts_path_of [] [] h = ground arith
starts_path_of (c ∷ p) [] h = ground arith
starts_path_of p (q ∷ above) (h, k) =
    let (e, a) = starts_path_of q above k in
    (
      ground (arith, is_empty-append (path_of (q ∷ above)) (b'/' ∷ p), e),
      is_abs-append (path_of (q ∷ above)) (b'/' ∷ p) e ∙ a,
    )

clean_relative :
    (s : Bytes) (comps : List Bytes)
    → is_abs s ≡ false
    → resolve_parts false [] (split b'/' s) ≡ comps
    → clean s ≡ or_dot (path_of comps)
unfolding clean clean_parts
clean_relative s comps a e = rw (a, e, join_with-reverse comps)

or_dot_nonempty : (s : Bytes) → is_empty s ≡ false → or_dot s ≡ s
or_dot_nonempty [] h = ground arith
or_dot_nonempty (c ∷ s) h = refl

pub clean-path_of :
    (p : Bytes) (above : List Bytes)
    → All IsName (p ∷ above)
    → clean (path_of (p ∷ above)) ≡ path_of (p ∷ above)
clean-path_of p above h =
    clean_relative (path_of (p ∷ above)) (p ∷ above) (starts_path_of p above h).1
      (rw (split-path_of p above h) (resolve_parts-names (p ∷ above) h))
    ∙ or_dot_nonempty (path_of (p ∷ above)) (starts_path_of p above h).0

-- One more component is hung on.
pub join-path_of :
    (p : Bytes) (above : List Bytes)
    → All IsName (p ∷ above)
    → join (path_of above) p ≡ path_of (p ∷ above)
unfolding join
join-path_of p [] h = rw ((starts_path_of p [] h).0) (clean-path_of p [] h)
join-path_of p (q ∷ above) (h, k) =
    rw ((starts_path_of q above k).0) (clean-path_of p (q ∷ above) (h, k))

clean_slash :
    (p : Bytes) (above : List Bytes)
    → All IsName (p ∷ above)
    → clean (path_of (p ∷ above) ++ (b'/' ∷ [])) ≡ path_of (p ∷ above)
unfolding resolve_parts is_trivial
clean_slash p above h =
    clean_relative (path_of (p ∷ above) ++ (b'/' ∷ [])) (p ∷ above)
      (is_abs-append (path_of (p ∷ above)) _ (starts_path_of p above h).0
        ∙ (starts_path_of p above h).1)
      (rw
        (
          split-append (path_of (p ∷ above)) [] refl,
          split-path_of p above h,
          resolve_parts-append false (reverse (p ∷ above)) ([] ∷ []) [],
          resolve_parts-names (p ∷ above) h,
        )
        refl)
    ∙ or_dot_nonempty (path_of (p ∷ above)) (starts_path_of p above h).0

-- Dir takes the last component off.
pub dir-path_of :
    (p q : Bytes) (above : List Bytes)
    → All IsName (p ∷ q ∷ above)
    → dir (path_of (p ∷ q ∷ above)) ≡ path_of (q ∷ above)
unfolding dir is_name
dir-path_of p q above (h, k) =
    rw (dir, cut_last-append b'/' (path_of (q ∷ above)) p (ground arith)) (clean_slash q above k)

pub dir_name : (p : Bytes) → IsName p → dir p ≡ dot
unfolding dir is_name clean clean_parts split resolve_parts is_trivial join_with
dir_name p h = rw (dir, cut_last-eq-none b'/' p (ground arith))

append_not_dot : (s t : Bytes) → is_empty s ≡ false → equal (s ++ (b'/' ∷ t)) dot ≡ false
unfolding equal
append_not_dot [] t h = ground arith
append_not_dot (c ∷ []) t h = ground arith
append_not_dot (c ∷ d ∷ s) t h = ground arith

not_slash : (s : Bytes) → is_abs s ≡ false → equal s (codes "/") ≡ false
unfolding equal
not_slash [] h = refl
not_slash (c ∷ s) h = ground arith

-- It is neither of the texts that Dir has for a path without a parent.
pub path_of_proper :
    (p : Bytes) (above : List Bytes)
    → All IsName (p ∷ above)
    → (equal (path_of (p ∷ above)) dot || equal (path_of (p ∷ above)) (codes "/")) ≡ false
unfolding is_name is_trivial
path_of_proper p [] h = ground (arith, not_slash p, starts_path_of p [] h)
path_of_proper p (q ∷ above) (h, k) =
    let e = append_not_dot (path_of (q ∷ above)) p ((starts_path_of q above k).0) in
    let a = not_slash (path_of (p ∷ q ∷ above)) ((starts_path_of p (q ∷ above) (h, k)).1) in
    rw (e, a)
