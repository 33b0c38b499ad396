-- ===== src/Oci/SecureJoin/Contained.antt =====
-- `secureJoin` stays beneath its root: no part of the result climbs up or is a symbolic link.
use mathlib.Core.Path.{subst}
use xmorph.Base.{
  ℕ, zero, suc, Bool, true, false, Option, none, some, List, [], ◌∷◌, if◌then◌else◌, arith, ◌≡◌,
  refl, sym, ap, ◌∙◌, All, Bool-cases, inl, inr, ◌⊎◌, ◌==◌,
}
use xmorph.Base.Bytes.{Bytes, codes, equal, cut_last}
use xmorph.Base.Bytes.Lines.{split, join_with, onto_first}
use xmorph.Base.Result.{ok, err, ok_injective, err≢ok, Result-cases}
use xmorph.Path.{dot_dot, is_abs, is_trivial, join, dir, clean, clean_parts, resolve_parts}
use xmorph.Path.Names.{
  has_slash, is_name, IsName, path_of, join-path_of, dir-path_of, dir_name, path_of_proper,
}
use xmorph.Oci.SecureJoin.{
  Entry, pass, absent, unreadable, present, symlink, JoinError, too_many_links, readlink_failed,
  Step, reach, refuse, follow, up, meet, step, resolve, secure_join,
}

abbrev pub is_link : Entry → Bool
is_link absent = false
is_link unreadable = false
is_link present = false
is_link (symlink dest) = true

Step-cases :
    (s : Step)
    → ((next : Bytes) × (s ≡ reach next))
      ⊎ (((e : JoinError) × (s ≡ refuse e)) ⊎ ((dest : Option Bytes) × (s ≡ follow dest)))
Step-cases (reach next) = inl (next, refl)
Step-cases (refuse e) = inr (inl (e, refl))
Step-cases (follow dest) = inr (inr (dest, refl))

abbrev pub NoSlash : Bytes → Type 0
NoSlash part = has_slash part ≡ false

onto_first-NoSlash :
    (c : ℕ) (ps : List Bytes) → (c == b'/') ≡ false → All NoSlash ps → All NoSlash (onto_first c ps)
onto_first-NoSlash c [] h k = (ground arith, tt)
onto_first-NoSlash c (p ∷ ps) h (n, k) = (ground arith, k)

pub split-NoSlash : (s : Bytes) → All NoSlash (split b'/' s)
unfolding split
split-NoSlash [] = (refl, tt)
split-NoSlash (c ∷ s) = elim (Bool-cases (c == b'/')) [
  | inl h ↦ rw h (refl, split-NoSlash s)
  | inr h ↦ rw h (onto_first-NoSlash c (split b'/' s) h (split-NoSlash s))
]

pub up_top : up [] ≡ []
unfolding up dir clean clean_parts split resolve_parts is_trivial join_with equal cut_last
up_top = refl

module _ (lstat : Bytes → Entry) (root : Bytes) where
  -- A place beneath the root: each component is a name, and no path to it is a symbolic link.
  abbrev pub Beneath : List Bytes → Type 0
  Beneath [] = Unit
  Beneath (p ∷ above) =
      IsName p × (is_link (lstat (join root (path_of (p ∷ above)))) ≡ false) × Beneath above

  pub Beneath-All : (comps : List Bytes) → Beneath comps → All IsName comps
  Beneath-All [] h = tt
  Beneath-All (p ∷ above) (h, _, k) = (h, Beneath-All above k)

  -- A text that is the path of such a place.
  Inside : Bytes → Type 0
  Inside resolved = (comps : List Bytes) × (resolved ≡ path_of comps) × Beneath comps

  up-Inside : (comps : List Bytes) → Beneath comps → Inside (up (path_of comps))
  unfolding up Inside equal
  up-Inside [] h = ([], up_top, tt)
  up-Inside (p ∷ []) (h, _, k) = ([], rw (up, dir_name p h), tt)
  up-Inside (p ∷ q ∷ above) (h, l, k) =
      let names = Beneath-All (p ∷ q ∷ above) (h, l, k) in
      (q ∷ above, rw (up, dir-path_of p q above names, path_of_proper q above (names.1)), k)

  -- Where a step goes is inside, if it started inside.
  Arrives : Step → Type 0
  Arrives (reach next) = Inside next
  Arrives (refuse e) = Unit
  Arrives (follow dest) = Unit

  pass-Arrives :
      (next : Bytes) (entry : Entry)
      → (is_link entry ≡ false → Inside next)
      → Arrives (pass next entry)
  unfolding Arrives
  pass-Arrives next absent k = k refl
  pass-Arrives next unreadable k = tt
  pass-Arrives next present k = k refl
  pass-Arrives next (symlink dest) k = tt

  meet-Arrives :
      (comps : List Bytes) (part : Bytes)
      → Beneath comps
      → IsName part
      → Arrives (meet lstat root (join (path_of comps) part))
  unfolding meet Inside
  meet-Arrives comps part h n =
      rw (join-path_of part comps (n, Beneath-All comps h))
        (pass-Arrives (path_of (part ∷ comps)) _ (λ l. (part ∷ comps, refl, (n, l, h))))

  step-Arrives :
      (comps : List Bytes) (part : Bytes)
      → Beneath comps
      → NoSlash part
      → Arrives (step lstat root (path_of comps) part)
  unfolding step meet Arrives Inside is_name
  step-Arrives comps part h n = elim (Bool-cases (is_trivial part)) [
    | inl t ↦ rw t (comps, refl, h)
    | inr t ↦ elim (Bool-cases (equal part dot_dot)) [
      | inl d ↦ rw (t, d) (up-Inside comps h)
      | inr d ↦ rw (t, d) (meet-Arrives comps part h (ground arith))
    ]
  ]

  step-Inside :
      (start part next : Bytes)
      → Inside start
      → NoSlash part
      → step lstat root start part ≡ reach next
      → Inside next
  unfolding Arrives Inside
  step-Inside start part next (comps, p, h) n s =
      subst Arrives (ap (λ (at : Bytes). step lstat root at part) (sym p) ∙ s)
        (step-Arrives comps part h n)

  -- An absolute link starts again at the root, a relative one beside the link.
  restart : (start : Bytes) (b : Bool) → Inside start → Inside (if b then [] else start)
  unfolding Inside
  restart start true i = ([], refl, tt)
  restart start false i = i

  resolve-Inside :
      (links : ℕ) (parts : List Bytes) (start resolved : Bytes)
      → Inside start
      → All NoSlash parts
      → resolve lstat root links start parts ≡ ok resolved
      → Inside resolved
  unfolding resolve
  resolve-Inside links [] start resolved i n e = subst Inside (ok_injective e) i
  resolve-Inside zero (part ∷ rest) start resolved i (n, ns) e =
      elim (Step-cases (step lstat root start part)) [
        | inl p ↦
            let q : resolve lstat root zero start (part ∷ rest)
                ≡ resolve lstat root zero (p.0) rest =
              rw (resolve, p.1) in
            resolve-Inside zero rest (p.0) resolved (step-Inside start part (p.0) i n (p.1)) ns
              (sym q ∙ e)
        | inr (inl p) ↦
            let q : resolve lstat root zero start (part ∷ rest) ≡ err (p.0) = rw (resolve, p.1) in
            absurd (err≢ok (sym q ∙ e))
        | inr (inr p) ↦
            let q : resolve lstat root zero start (part ∷ rest) ≡ err too_many_links =
              rw (resolve, p.1) in
            absurd (err≢ok (sym q ∙ e))
      ]
  resolve-Inside (suc links) (part ∷ rest) start resolved i (n, ns) e =
      elim (Step-cases (step lstat root start part)) [
        | inl p ↦
            let q : resolve lstat root (suc links) start (part ∷ rest)
                ≡ resolve lstat root (suc links) (p.0) rest =
              rw (resolve, p.1) in
            resolve-Inside (suc links) rest (p.0) resolved (step-Inside start part (p.0) i n (p.1))
              ns (sym q ∙ e)
        | inr (inl p) ↦
            let q : resolve lstat root (suc links) start (part ∷ rest) ≡ err (p.0) =
              rw (resolve, p.1) in
            absurd (err≢ok (sym q ∙ e))
        | inr (inr (none, s)) ↦
            let q : resolve lstat root (suc links) start (part ∷ rest) ≡ err readlink_failed =
              rw (resolve, s) in
            absurd (err≢ok (sym q ∙ e))
        | inr (inr (some dest, s)) ↦
            let parts = split b'/' (join dest (join_with (codes "/") rest)) in
            let next = if is_abs dest then [] else start in
            let q : resolve lstat root (suc links) start (part ∷ rest)
                ≡ resolve lstat root links next parts =
              rw (resolve, s) in
            resolve-Inside links parts next resolved (restart start (is_abs dest) i)
              (split-NoSlash (join dest (join_with (codes "/") rest))) (sym q ∙ e)
      ]

  -- What `secureJoin` returns is the root joined with names, none of them empty, ".", ".." or with
  -- a slash, such that no leading part of that path is a symbolic link. So the result lies beneath
  -- the root, and the kernel follows no link on the way to it.
  pub secure_join-Beneath :
      (unsafe_path path : Bytes)
      → secure_join lstat root unsafe_path ≡ ok path
      → (comps : List Bytes) × (path ≡ join root (path_of comps)) × Beneath comps
  unfolding secure_join Inside
  secure_join-Beneath unsafe_path path e =
      elim (Result-cases (resolve lstat root 255 [] (split b'/' unsafe_path))) [
        | inl p ↦
            let q : secure_join lstat root unsafe_path ≡ ok (join root (p.0)) =
              rw (secure_join, p.1) in
            let (comps, r, h) =
              resolve-Inside 255 (split b'/' unsafe_path) [] (p.0) ([], refl, tt)
                (split-NoSlash unsafe_path) (p.1) in
            (comps, sym (ok_injective (sym q ∙ e)) ∙ ap (join root) r, h)
        | inr p ↦
            let q : secure_join lstat root unsafe_path ≡ err (p.0) = rw (secure_join, p.1) in
            absurd (err≢ok (sym q ∙ e))
      ]
