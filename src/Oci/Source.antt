-- ===== src/Oci/Source.antt =====
-- internal/oci/source.go: what an --image or a --rootfs argument is. os.Stat is a parameter.
use xmorph.Base.{Bool, true, false, Option, none, some, [], ◌∷◌, ◌||◌, not, if◌then◌else◌, ◌==◌}
use xmorph.Base.Bytes.{Bytes}

pub data SourceKind : Type 0 where
  registry docker_tarball oci_layout raw_tarball raw_directory : SourceKind

unfoldable pub looks_like_local_path : Bytes → Bool
looks_like_local_path [] = false
looks_like_local_path (c ∷ s) = c == b'/' || c == b'.'

-- A path that cannot be read is `none`; otherwise whether it is a directory.
module _ (stat : Bytes → Option Bool) where
  unfoldable pub classify_image : Bytes → SourceKind
  unfolding looks_like_local_path
  classify_image ref = if not (looks_like_local_path ref) then registry else elim (stat ref) [
    | none ↦ registry
    | some true ↦ oci_layout
    | some false ↦ docker_tarball
  ]

  unfoldable pub classify_rootfs : Bytes → SourceKind
  classify_rootfs path = elim (stat path) [
    | none ↦ raw_tarball
    | some true ↦ raw_directory
    | some false ↦ raw_tarball
  ]
