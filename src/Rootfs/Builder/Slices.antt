-- ===== src/Rootfs/Builder/Slices.antt =====
-- The configuration of a build has no slice that is empty but not nil.
use xmorph.Base.{Bool, true, false, Option, none, some, List, [], ◌∷◌, ◌≡◌}
use mathlib.Core.Path.{subst}
use xmorph.Base.Bytes.{Bytes}
use xmorph.Base.Result.{Result, ok, err, err≢ok, ok_injective}
use xmorph.Config.Types.{Layer, image, rootfs}
use xmorph.Oci.ImageConfig.{ImageConfig, ConfigFile, read_image_config}
use xmorph.Oci.ImageConfig.Slices.{AreTight, merge_image_config-AreTight, image_config-AreTight}
use xmorph.Oci.Source.{
  classify_image, classify_rootfs, SourceKind, registry, docker_tarball, oci_layout, raw_tarball,
  raw_directory,
}
use xmorph.Rootfs.Builder.{
  BuildResult, BuildError, Sources, as_layer, with_config, extract_loaded, extract_rootfs,
  extract_layer, add_layer, build_layers, start_build, build,
}
use xmorph.Rootfs.Builder.Merge.{go_on-ok}

module _ {ℓ} {State : Type ℓ} (sources : Sources State) (target : Bytes) where
  abbrev YieldsTight : State × Result BuildError (Option ImageConfig) → Type 0
  YieldsTight (s, ok c) = AreTight c
  YieldsTight (s, err e) = Unit

  with_config-YieldsTight :
      (f : Option (Option (ConfigFile sources.Rest))) (r : State × Bool)
      → YieldsTight (with_config (read_image_config f) r)
  unfolding read_image_config
  with_config-YieldsTight none (s, true) = tt
  with_config-YieldsTight none (s, false) = tt
  with_config-YieldsTight (some f) (s, true) = image_config-AreTight f
  with_config-YieldsTight (some f) (s, false) = tt

  as_layer-YieldsTight : (r : State × Bool) → YieldsTight (as_layer r)
  as_layer-YieldsTight (s, true) = tt
  as_layer-YieldsTight (s, false) = tt

  extract_loaded-YieldsTight :
      (s : State) (img : Option sources.Image) → YieldsTight (extract_loaded sources target s img)
  extract_loaded-YieldsTight s none = tt
  extract_loaded-YieldsTight s (some img) =
      with_config-YieldsTight (sources.config_file img) (sources.extract_image img target s)

  extract_rootfs-YieldsTight :
      (path : Bytes) (s : State) (kind : SourceKind)
      → YieldsTight (extract_rootfs sources target path s kind)
  extract_rootfs-YieldsTight path s raw_tarball =
      as_layer-YieldsTight (sources.extract_tarball path target s)
  extract_rootfs-YieldsTight path s raw_directory =
      as_layer-YieldsTight (sources.copy_dir path target s)
  extract_rootfs-YieldsTight path s registry = tt
  extract_rootfs-YieldsTight path s docker_tarball = tt
  extract_rootfs-YieldsTight path s oci_layout = tt

  extract_layer-YieldsTight :
      (l : Layer) (s : State) → YieldsTight (extract_layer sources target l s)
  unfolding extract_layer
  extract_layer-YieldsTight (image ref) s =
      extract_loaded-YieldsTight s (sources.load_image ref (classify_image (sources.stat s) ref))
  extract_layer-YieldsTight (rootfs path) s =
      extract_rootfs-YieldsTight path s (classify_rootfs (sources.stat s) path)

  add_layer-AreTight :
      (d : Option ImageConfig) (r : BuildResult)
      → AreTight d
      → AreTight r.config
      → AreTight (add_layer sources target d r).config
  unfolding add_layer
  add_layer-AreTight none r h k = k
  add_layer-AreTight (some c) r h k = merge_image_config-AreTight r.config (some c) k h

  build_layers-AreTight :
      (ls : List Layer) (r q : BuildResult) (s : State)
      → (build_layers sources target ls r s).1 ≡ ok q
      → AreTight r.config
      → AreTight q.config
  unfolding build_layers
  build_layers-AreTight [] r q s e h = subst (λ x. AreTight x.config) (ok_injective e) h
  build_layers-AreTight (l ∷ ls) r q s e h =
      let m = extract_layer sources target l s in
      let (d, x, y) =
        go_on-ok sources target m
          (λ config. build_layers sources target ls (add_layer sources target config r)) q e in
      build_layers-AreTight ls (add_layer sources target d r) q m.0 y
        (add_layer-AreTight d r (yielded m d (extract_layer-YieldsTight l s) x) h)
    where
      yielded :
          (m : State × Result BuildError (Option ImageConfig)) (d : Option ImageConfig)
          → YieldsTight m
          → m.1 ≡ ok d
          → AreTight d
      yielded (s, ok c) d t e = subst AreTight (ok_injective e) t
      yielded (s, err x) d t e = absurd (err≢ok e)

  start_build-AreTight :
      (m : State × Bool) (layers : List Layer) (q : BuildResult)
      → (start_build sources target m (
          build_layers sources target layers
            (record { target_dir = target; layer_count = 0; config = none }))).1
        ≡ ok q
      → AreTight q.config
  start_build-AreTight (s, true) layers q e = build_layers-AreTight layers _ q s e tt
  start_build-AreTight (s, false) layers q e = absurd (err≢ok e)

  pub build-AreTight :
      (layers : List Layer) (q : BuildResult) (s : State)
      → (build sources target layers s).1 ≡ ok q
      → AreTight q.config
  unfolding build
  build-AreTight layers q s e = start_build-AreTight (sources.make_dir target s) layers q e
