-- ===== src/Rootfs/Builder/Merge.antt =====
-- The result of a build that succeeds.
use xmorph.Base.{
  Bool, true, false, Option, none, some, List, [], ◌∷◌, ◌+◌, ◌||◌, length, any, arith, ◌≡◌, refl,
}
use xmorph.Base.Bytes.{Bytes}
use xmorph.Base.Result.{Result, ok, err, err≢ok}
use xmorph.Config.Types.{Layer, image, rootfs, is_some}
use xmorph.Oci.ImageConfig.{
  ImageConfig, ConfigFile, merge_image_config, image_config, read_image_config,
}
use xmorph.Oci.Source.{
  classify_image, classify_rootfs, SourceKind, registry, docker_tarball, oci_layout, raw_tarball,
  raw_directory,
}
use xmorph.Rootfs.Builder.{
  BuildResult, BuildError, Sources, as_layer, with_config, extract_loaded, extract_rootfs,
  extract_layer, add_layer, go_on, build_layers, start_build, build,
}

abbrev pub is_image : Layer → Bool
is_image (image ref) = true
is_image (rootfs path) = false

module _ {ℓ} {State : Type ℓ} (sources : Sources State) (target : Bytes) where
  -- A configuration file that is read without an error is there.
  abbrev pub HasConfigFile : Type 0
  HasConfigFile = (img : sources.Image) → ¬ (sources.config_file img ≡ some none)

  with_config-ok :
      (f : Option (Option (ConfigFile sources.Rest))) (d : Option ImageConfig) (r : State × Bool)
      → ¬ (f ≡ some none)
      → (with_config (read_image_config f) r).1 ≡ ok d
      → is_some d ≡ true
  unfolding read_image_config image_config
  with_config-ok none d (s, true) n e = ground arith
  with_config-ok (some none) d r n e = absurd (n refl)
  with_config-ok (some (some f)) d (s, true) n e = ground arith
  with_config-ok none d (s, false) n e = ground arith
  with_config-ok (some (some f)) d (s, false) n e = ground arith

  as_layer-ok :
      (d : Option ImageConfig) (r : State × Bool) → (as_layer r).1 ≡ ok d → is_some d ≡ false
  as_layer-ok d (s, true) e = ground arith
  as_layer-ok d (s, false) e = ground arith

  extract_loaded-ok :
      HasConfigFile
      → (s : State) (img : Option sources.Image) (d : Option ImageConfig)
      → (extract_loaded sources target s img).1 ≡ ok d
      → is_some d ≡ true
  extract_loaded-ok h s none d e = ground arith
  extract_loaded-ok h s (some img) d e =
      with_config-ok (sources.config_file img) d (sources.extract_image img target s) (h img) e

  extract_rootfs-ok :
      (path : Bytes) (s : State) (kind : SourceKind) (d : Option ImageConfig)
      → (extract_rootfs sources target path s kind).1 ≡ ok d
      → is_some d ≡ false
  extract_rootfs-ok path s raw_tarball d e = as_layer-ok d (sources.extract_tarball path target s) e
  extract_rootfs-ok path s raw_directory d e = as_layer-ok d (sources.copy_dir path target s) e
  extract_rootfs-ok path s registry d e = ground arith
  extract_rootfs-ok path s docker_tarball d e = ground arith
  extract_rootfs-ok path s oci_layout d e = ground arith

  extract_layer-ok :
      HasConfigFile
      → (l : Layer) (s : State) (d : Option ImageConfig)
      → (extract_layer sources target l s).1 ≡ ok d
      → is_some d ≡ is_image l
  unfolding extract_layer
  extract_layer-ok h (image ref) s d e =
      extract_loaded-ok h s (sources.load_image ref (classify_image (sources.stat s) ref)) d e
  extract_layer-ok h (rootfs path) s d e =
      extract_rootfs-ok path s (classify_rootfs (sources.stat s) path) d e

  add_layer-config :
      (d : Option ImageConfig) (r : BuildResult)
      → ((add_layer sources target d r).layer_count ≡ r.layer_count + 1)
        × ((add_layer sources target d r).target_dir ≡ r.target_dir)
        × (is_some (add_layer sources target d r).config ≡ (is_some r.config || is_some d))
  unfolding add_layer merge_image_config
  add_layer-config d r = ground arith

  pub go_on-ok :
      (m : State × Result BuildError (Option ImageConfig))
      (f : Option ImageConfig → State → State × Result BuildError BuildResult) (q : BuildResult)
      → (go_on sources target m f).1 ≡ ok q
      → (d : Option ImageConfig) × (m.1 ≡ ok d) × ((f d m.0).1 ≡ ok q)
  go_on-ok (s, ok d) f q e = (d, refl, e)
  go_on-ok (s, err x) f q e = absurd (err≢ok e)

  build_layers-ok :
      HasConfigFile
      → (ls : List Layer) (r q : BuildResult) (s : State)
      → (build_layers sources target ls r s).1 ≡ ok q
      → (q.layer_count ≡ r.layer_count + length ls)
        × (q.target_dir ≡ r.target_dir)
        × (is_some q.config ≡ (is_some r.config || any is_image ls))
  unfolding build_layers
  build_layers-ok h [] r q s e = ground arith
  build_layers-ok h (l ∷ ls) r q s e =
      let m = extract_layer sources target l s in
      let (d, x, y) =
        go_on-ok m (λ config. build_layers sources target ls (add_layer sources target config r)) q
          e in
      let a = add_layer-config d r in
      let i = build_layers-ok h ls (add_layer sources target d r) q m.0 y in
      ground (arith, a, i, extract_layer-ok h l s d x)

  start_build-ok :
      HasConfigFile
      → (m : State × Bool) (layers : List Layer) (q : BuildResult)
      → (start_build sources target m (
          build_layers sources target layers
            (record { target_dir = target; layer_count = 0; config = none }))).1
        ≡ ok q
      → (q.layer_count ≡ length layers)
        × (q.target_dir ≡ target)
        × (is_some q.config ≡ any is_image layers)
  start_build-ok h (s, true) layers q e =
      let (a, b, c) = build_layers-ok h layers _ q s e in (omega (arith, a), b, c)
  start_build-ok h (s, false) layers q e = absurd (err≢ok e)

  -- Where a configuration file that is read without an error is there: if a build succeeds, its result counts every layer of the list, names the target, and has a
  -- configuration exactly if one of the layers is an image.
  pub build-ok :
      HasConfigFile
      → (layers : List Layer) (q : BuildResult) (s : State)
      → (build sources target layers s).1 ≡ ok q
      → (q.layer_count ≡ length layers)
        × (q.target_dir ≡ target)
        × (is_some q.config ≡ any is_image layers)
  unfolding build
  build-ok h layers q s e = start_build-ok h (sources.make_dir target s) layers q e
