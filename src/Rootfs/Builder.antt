-- ===== src/Rootfs/Builder.antt =====
-- internal/rootfs/builder.go: `Build` and `extractLayer`. What loads and
-- extracts an image or copies a directory is a parameter, as is the disk that is written;
-- go-containerregistry gives an image's configuration file.
pub mod Merge
pub mod Slices
use xmorph.Base.{ℕ, Bool, true, false, Option, none, some, List, [], ◌∷◌, ◌+◌}
use xmorph.Base.Bytes.{Bytes}
use xmorph.Base.Result.{Result, ok, err}
use xmorph.Config.Types.{Layer, image, rootfs}
use xmorph.Oci.ImageConfig.{
  ImageConfig, ConfigFile, merge_image_config, image_config, read_image_config,
}
use xmorph.Oci.Source.{
  SourceKind, registry, docker_tarball, oci_layout, raw_tarball, raw_directory, classify_image,
  classify_rootfs,
}

pub record BuildResult : Type 0 where
  pub target_dir : Bytes
  pub layer_count : ℕ
  pub config : Option ImageConfig

pub data BuildError : Type 0 where
  no_target_dir : BuildError
  load_failed : BuildError
  extract_failed : BuildError
  config_failed : BuildError
  unsupported_source : BuildError

-- What Build calls, on a disk of type `State`. An image that is loaded has the type `Image`.
pub record Sources {ℓ} (State : Type ℓ) : Type (ℓ ⊔ 1) where
  pub Image : Type 0
  pub Rest : Type 0
  pub stat : State → Bytes → Option Bool
  pub make_dir : Bytes → State → State × Bool
  pub load_image : Bytes → SourceKind → Option Image
  pub extract_image : Image → Bytes → State → State × Bool
  pub config_file : Image → Option (Option (ConfigFile Rest))
  pub extract_tarball : Bytes → Bytes → State → State × Bool
  pub copy_dir : Bytes → Bytes → State → State × Bool

module _ {ℓ} {State : Type ℓ} where
  abbrev as_layer : State × Bool → State × Result BuildError (Option ImageConfig)
  as_layer (s, true) = (s, ok none)
  as_layer (s, false) = (s, err extract_failed)

  -- The configuration is read after the extraction.
  abbrev with_config :
      Option (Option ImageConfig) → State × Bool → State × Result BuildError (Option ImageConfig)
  with_config config (s, false) = (s, err extract_failed)
  with_config none (s, true) = (s, err config_failed)
  with_config (some c) (s, true) = (s, ok c)

  module _ (sources : Sources State) (target : Bytes) where
    abbrev extract_loaded :
        State → Option sources.Image → State × Result BuildError (Option ImageConfig)
    extract_loaded s none = (s, err load_failed)
    extract_loaded s (some img) =
        with_config (read_image_config (sources.config_file img))
          (sources.extract_image img target s)

    abbrev extract_rootfs :
        Bytes → State → SourceKind → State × Result BuildError (Option ImageConfig)
    extract_rootfs path s raw_tarball = as_layer (sources.extract_tarball path target s)
    extract_rootfs path s raw_directory = as_layer (sources.copy_dir path target s)
    extract_rootfs path s registry = (s, err unsupported_source)
    extract_rootfs path s docker_tarball = (s, err unsupported_source)
    extract_rootfs path s oci_layout = (s, err unsupported_source)

    unfoldable pub extract_layer : Layer → State → State × Result BuildError (Option ImageConfig)
    unfolding classify_image classify_rootfs
    extract_layer (image ref) s =
        extract_loaded s (sources.load_image ref (classify_image (sources.stat s) ref))
    extract_layer (rootfs path) s = extract_rootfs path s (classify_rootfs (sources.stat s) path)

    -- What a layer adds to the result so far.
    unfoldable pub add_layer : Option ImageConfig → BuildResult → BuildResult
    unfolding merge_image_config
    add_layer none r = record r { layer_count = r.layer_count + 1 }
    add_layer (some c) r = record r {
      layer_count = r.layer_count + 1;
      config = merge_image_config r.config (some c);
    }

    abbrev pub go_on :
        State × Result BuildError (Option ImageConfig)
        → (Option ImageConfig → State → State × Result BuildError BuildResult)
        → State × Result BuildError BuildResult
    go_on (s, ok config) f = f config s
    go_on (s, err e) f = (s, err e)

    unfoldable pub build_layers :
        List Layer → BuildResult → State → State × Result BuildError BuildResult
    unfolding extract_layer add_layer
    build_layers [] r s = (s, ok r)
    build_layers (l ∷ ls) r s =
        go_on (extract_layer l s) (λ config. build_layers ls (add_layer config r))

    abbrev start_build :
        State × Bool
        → (State → State × Result BuildError BuildResult)
        → State × Result BuildError BuildResult
    start_build (s, true) f = f s
    start_build (s, false) f = (s, err no_target_dir)

    unfoldable pub build : List Layer → State → State × Result BuildError BuildResult
    unfolding build_layers
    build layers s =
        start_build (sources.make_dir target s)
          (build_layers layers (record { target_dir = target; layer_count = 0; config = none }))
