-- ===== src/Oci/Layout.antt =====
-- internal/oci/load.go and internal/oci/layout.go: `LoadImage` and `WriteLayout`. The packages of
-- go-containerregistry that they call are a parameter, as is the store on which these work.
pub mod Reload
use xmorph.Base.{ℕ, Bool, true, false, Option, none, some, List, [], ◌∷◌, ◌++◌, if◌then◌else◌, ◌≡◌}
use xmorph.Base.Bytes.{Bytes, equal}
use xmorph.Base.Result.{Result, ok, err, ◌>>=◌, ◌>>◌}
use xmorph.Oci.Source.{SourceKind, registry, docker_tarball, oci_layout, raw_tarball, raw_directory}

-- A pull that failed with an HTTP status has it.
pub data LoadError : Type 0 where
  bad_reference tarball_failed open_failed index_failed manifest_failed : LoadError
  no_image_manifests unsupported_kind : LoadError
  pull_failed : Option ℕ → LoadError

pub data WriteError : Type 0 where
  init_failed append_failed digest_failed : WriteError

-- The packages name, remote, tarball and layout. A digest is its text; `index_manifest` is the
-- digests of the descriptors, in their order. A write leaves a store also where it fails.
pub record Packages : Type 1 where
  pub Image : Type 0
  pub Store : Type 0
  pub Reference : Type 0
  pub Index : Type 0
  pub parse_reference : Bytes → Option Reference
  pub remote_image : Reference → Result (Option ℕ) Image
  pub image_from_path : Store → Bytes → Option Image
  pub from_path : Store → Bytes → Bool
  pub image_index : Store → Bytes → Option Index
  pub index_manifest : Index → Option (List Bytes)
  pub image_at : Store → Bytes → Bytes → Option Image
  pub write_empty : Bytes → Store → Store × Bool
  pub append_image : Bytes → Image → Store → Store × Bool
  pub digest : Image → Option Bytes

-- `if err != nil { return e }`
abbrev pub or_fail {ℓ κ} : {E : Type ℓ} {A : Type κ} → Option A → E → Result E A
or_fail none e = err e
or_fail (some a) e = ok a

abbrev pub unless_ok {ℓ} : {E : Type ℓ} → Bool → E → Result E (Unit {0})
unless_ok true e = ok tt
unless_ok false e = err e

module _ (p : Packages) where
  abbrev pulled : Result (Option ℕ) p.Image → Result LoadError p.Image
  pulled (err status) = err (pull_failed status)
  pulled (ok img) = ok img

  unfoldable pub load_registry : Bytes → Result LoadError p.Image
  load_registry ref =
      or_fail (p.parse_reference ref) bad_reference >>= λ nm. pulled (p.remote_image nm)

  -- The loop over the manifests: the first that is read as an image.
  unfoldable pub first_image : p.Store → Bytes → List Bytes → Result LoadError p.Image
  first_image s dir [] = err no_image_manifests
  first_image s dir (d ∷ ds) = elim (p.image_at s dir d) [
    | none ↦ first_image s dir ds
    | some img ↦ ok img
  ]

  unfoldable pub load_layout : p.Store → Bytes → Result LoadError p.Image
  unfolding first_image
  load_layout s ref =
      unless_ok (p.from_path s ref) open_failed
      >> (or_fail (p.image_index s ref) index_failed >>= λ ii.
          or_fail (p.index_manifest ii) manifest_failed >>= λ manifests.
          first_image s ref manifests)

  unfoldable pub load_image : p.Store → Bytes → SourceKind → Result LoadError p.Image
  unfolding load_registry load_layout
  load_image s ref registry = load_registry ref
  load_image s ref docker_tarball = or_fail (p.image_from_path s ref) tarball_failed
  load_image s ref oci_layout = load_layout s ref
  load_image s ref raw_tarball = err unsupported_kind
  load_image s ref raw_directory = err unsupported_kind

  abbrev pub appended : p.Image → p.Store → Bool → p.Store × Result WriteError Bytes
  appended img s false = (s, err append_failed)
  appended img s true = (s, or_fail (p.digest img) digest_failed)

  -- To the layout that is there, or else to an empty one that was written.
  abbrev pub append_to : Bytes → p.Image → p.Store → Bool → p.Store × Result WriteError Bytes
  append_to dir img s false = (s, err init_failed)
  append_to dir img s true = let (t, added) = p.append_image dir img s in appended img t added

  unfoldable pub write_layout : Bytes → p.Image → p.Store → p.Store × Result WriteError Bytes
  write_layout dir img s =
      if p.from_path s dir
      then append_to dir img s true
      else (let (t, made) = p.write_empty dir s in append_to dir img t made)
