-- ===== src/Oci/SecureJoin.antt =====
-- internal/oci/extract.go: `secureJoin`. What is resolved so far is a text as in the source; what
-- remains of the path is the list of its parts between slashes.
pub mod Contained
pub mod Lexical
use xmorph.Base.{
  ℕ, zero, suc, Bool, true, false, Option, none, some, List, [], ◌∷◌, ◌||◌, if◌then◌else◌,
}
use xmorph.Base.Bytes.{Bytes, codes, equal}
use xmorph.Base.Bytes.Lines.{split, join_with}
use xmorph.Base.Result.{Result, ok, err}
use xmorph.Path.{dot, dot_dot, is_abs, is_trivial, join, dir}

-- What os.Lstat says of a path, with the answer of os.Readlink where it is a symbolic link.
pub data Entry : Type 0 where
  absent : Entry
  unreadable : Entry
  present : Entry
  symlink : Option Bytes → Entry

pub data JoinError : Type 0 where
  lstat_failed : JoinError
  readlink_failed : JoinError
  too_many_links : JoinError

-- What one part does to the path that is resolved so far.
pub data Step : Type 0 where
  reach : Bytes → Step
  refuse : JoinError → Step
  follow : Option Bytes → Step

-- What ".." does: filepath.Dir, with "." and "/" read as the root.
unfoldable pub up : Bytes → Bytes
up resolved =
    let above = dir resolved in if equal above dot || equal above (codes "/") then [] else above

-- The entry at the path that the part leads to.
abbrev pub pass : Bytes → Entry → Step
pass next absent = reach next
pass next unreadable = refuse lstat_failed
pass next present = reach next
pass next (symlink dest) = follow dest

module _ (lstat : Bytes → Entry) (root : Bytes) where
  unfoldable pub meet : Bytes → Step
  meet next = pass next (lstat (join root next))

  unfoldable pub step : Bytes → Bytes → Step
  unfolding meet
  step resolved part =
      if is_trivial part
      then reach resolved
      else if equal part dot_dot
      then reach (up resolved)
      else meet (join resolved part)

  -- With the number of links that may still be followed.
  unfoldable pub resolve : ℕ → Bytes → List Bytes → Result JoinError Bytes
  resolve links resolved [] = ok resolved
  resolve zero resolved (part ∷ rest) = elim (step resolved part) [
    | reach next ↦ resolve zero next rest
    | refuse e ↦ err e
    | follow dest ↦ err too_many_links
  ]
  resolve (suc links) resolved (part ∷ rest) = elim (step resolved part) [
    | reach next ↦ resolve (suc links) next rest
    | refuse e ↦ err e
    | follow none ↦ err readlink_failed
    | follow (some dest) ↦
        resolve links (if is_abs dest then [] else resolved)
          (split b'/' (join dest (join_with (codes "/") rest)))
  ]

  -- At most 255 links are followed.
  unfoldable pub secure_join : Bytes → Result JoinError Bytes
  unfolding resolve
  secure_join unsafe_path = elim (resolve 255 [] (split b'/' unsafe_path)) [
    | ok resolved ↦ ok (join root resolved)
    | err e ↦ err e
  ]
