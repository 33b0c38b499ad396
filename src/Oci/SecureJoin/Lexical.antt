-- ===== src/Oci/SecureJoin/Lexical.antt =====
-- `secureJoin` on a tree without symbolic links is the rooted Clean of path/filepath.
use xmorph.Base.{
  ℕ, zero, suc, Bool, true, false, List, [], ◌∷◌, if◌then◌else◌, arith, ◌≡◌, refl, ap, ◌∙◌, All,
  Bool-cases, inl, inr,
}
use xmorph.Base.Bytes.{Bytes, equal}
use xmorph.Base.Bytes.Lines.{split}
use xmorph.Base.Result.{ok}
use xmorph.Path.{dot_dot, is_trivial, join, go_up, resolve_parts}
use xmorph.Path.Names.{
  is_name, IsName, path_of, join-path_of, dir-path_of, dir_name, path_of_proper,
}
use xmorph.Oci.SecureJoin.{
  Entry, absent, unreadable, present, symlink, reach, pass, up, meet, step, resolve, secure_join,
}
use xmorph.Oci.SecureJoin.Contained.{NoSlash, split-NoSlash, up_top}

abbrev pub is_plain : Entry → Bool
is_plain absent = true
is_plain unreadable = false
is_plain present = true
is_plain (symlink dest) = false

pass_plain : (next : Bytes) (e : Entry) → is_plain e ≡ true → pass next e ≡ reach next
pass_plain next absent h = refl
pass_plain next present h = refl
pass_plain next unreadable h = cc
pass_plain next (symlink dest) h = cc

-- What Clean makes of one part under a root, the last name first.
abbrev one_part : List Bytes → Bytes → List Bytes
one_part above part =
    if is_trivial part then above else if equal part dot_dot then go_up true above else part ∷ above

-- ".." takes the last name off, and stays at the root.
up-path_of :
    (names : List Bytes)
    → All IsName names
    → (up (path_of names) ≡ path_of (go_up true names)) × All IsName (go_up true names)
unfolding up go_up is_name equal
up-path_of [] h = (up_top, tt)
up-path_of (p ∷ []) (h, k) =
    let n : equal p dot_dot ≡ false = ground (arith, h) in (rw (up, dir_name p h, n) refl, rw n tt)
up-path_of (p ∷ q ∷ above) (h, k) =
    let n : equal p dot_dot ≡ false = ground (arith, h) in
    (rw (up, dir-path_of p q above (h, k), path_of_proper q above k, n) refl, rw n k)

module _ (lstat : Bytes → Entry) (root : Bytes)
    (plain : (path : Bytes) → is_plain (lstat path) ≡ true) where
  step_plain :
      (names : List Bytes) (part : Bytes)
      → All IsName names
      → NoSlash part
      → (step lstat root (path_of names) part ≡ reach (path_of (one_part names part)))
        × All IsName (one_part names part)
  unfolding step meet is_name
  step_plain names part h n = elim (Bool-cases (is_trivial part)) [
    | inl t ↦ rw t (refl, h)
    | inr t ↦ elim (Bool-cases (equal part dot_dot)) [
      | inl d ↦ let (u, k) = up-path_of names h in rw (t, d) (ap reach u, k)
      | inr d ↦
          let name : IsName part = ground (arith, t, d, n) in
          let met : step lstat root (path_of names) part ≡ reach (join (path_of names) part) =
            rw (t, d)
              (pass_plain (join (path_of names) part) _
                (plain (join root (join (path_of names) part)))) in
          (met ∙ rw (t, d) (ap reach (join-path_of part names (name, h))), rw (t, d) (name, h))
    ]
  ]

  resolve_plain :
      (links : ℕ) (parts names : List Bytes)
      → All IsName names
      → All NoSlash parts
      → resolve lstat root links (path_of names) parts
        ≡ ok (path_of (resolve_parts true names parts))
  unfolding resolve resolve_parts
  resolve_plain links [] names h n = refl
  resolve_plain zero (part ∷ rest) names h (n, ns) =
      let (s, k) = step_plain names part h n in
      rw (resolve, s) (resolve_plain zero rest (one_part names part) k ns)
  resolve_plain (suc links) (part ∷ rest) names h (n, ns) =
      let (s, k) = step_plain names part h n in
      rw (resolve, s) (resolve_plain (suc links) rest (one_part names part) k ns)

  -- If no entry is a symbolic link and each can be looked up or is missing, then `secureJoin`
  -- succeeds on every path, with the root joined with the names that filepath.Clean leaves of that
  -- path under a root: "." and empty parts are dropped, and ".." takes back the name before it, if
  -- there is one.
  pub secure_join-resolve_parts :
      (unsafe_path : Bytes)
      → secure_join lstat root unsafe_path
        ≡ ok (join root (path_of (resolve_parts true [] (split b'/' unsafe_path))))
  unfolding secure_join
  secure_join-resolve_parts unsafe_path =
      rw (secure_join, resolve_plain 255 (split b'/' unsafe_path) [] tt (split-NoSlash unsafe_path))
        refl
