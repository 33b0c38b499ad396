-- ===== src/Config/ImageRef.antt =====
-- internal/config/normalize.go: `NormalizeImageRef`, step by step.
pub mod Canonical
use xmorph.Base.{
  Bool, true, false, Option, none, some, [], ◌∷◌, ◌++◌, ◌&&◌, ◌||◌, not, if◌then◌else◌,
}
use xmorph.Base.Bytes.{Bytes, codes, equal, contains_byte, cut, cut_last}

abbrev pub default_registry : Bytes
default_registry = codes "registry-1.docker.io"

-- Strip the digest: all from the first '@' on.
unfoldable pub strip_digest : Bytes → Bytes
strip_digest ref = elim (cut b'@' ref) [ none ↦ ref | some (before, _) ↦ before ]

-- What is left and the tag: behind the last ':', unless that is a port.
unfoldable pub split_tag : Bytes → Bytes × Bytes
split_tag s = elim (cut_last b':' s) [
  | none ↦ (s, codes "latest")
  | some (before, cand) ↦ if contains_byte b'/' cand then (s, codes "latest") else (before, cand)
]

-- What makes the part before the first '/' a registry.
unfoldable pub is_registry : Bytes → Bool
is_registry cand =
    (contains_byte b'.' cand || contains_byte b':' cand) || equal cand (codes "localhost")

-- The registry and the repository.
unfoldable pub split_registry : Bytes → Bytes × Bytes
unfolding is_registry
split_registry s = elim (cut b'/' s) [
  | none ↦ (default_registry, s)
  | some (cand, rest) ↦ if is_registry cand then (cand, rest) else (default_registry, s)
]

-- The docker hub shortcut: "alpine" is "library/alpine" there.
unfoldable pub hub_repository : Bytes → Bytes → Bytes
hub_repository registry repository =
    if equal registry default_registry && not (contains_byte b'/' repository)
    then codes "library/" ++ repository
    else repository

unfoldable pub normalize_image_ref : Bytes → Bytes
normalize_image_ref ref =
    let (remaining, tag) = split_tag (strip_digest ref) in
    let (registry, repository) = split_registry remaining in
    registry ++ (b'/' ∷ (hub_repository registry repository ++ (b':' ∷ tag)))
