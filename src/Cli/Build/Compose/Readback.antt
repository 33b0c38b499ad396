-- ===== src/Cli/Build/Compose/Readback.antt =====
-- The image that a build composes, as one who reads it finds it.
use mathlib.Core.Path.{subst}
use xmorph.Base.{
  Bool, true, Option, none, some, List, [], ◌∷◌, ◌++◌, ◌≡◌, refl, ap, ◌∙◌, sym, any, arith,
}
use xmorph.Base.Bytes.{Bytes}
use xmorph.Base.Result.{ok, err, err≢ok, ok_injective, >>=-ok}
use xmorph.Base.Trace.{Traced}
use xmorph.Config.Types.{Layer, is_some}
use xmorph.Oci.ImageConfig.{ImageConfig, ConfigFile, image_config, read_image_config}
use xmorph.Oci.ImageConfig.Slices.{AreTight, HasTightSlices}
use xmorph.Rootfs.Builder.{BuildResult, Sources, build}
use xmorph.Rootfs.Builder.Merge.{HasConfigFile, is_image, build-ok}
use xmorph.Rootfs.Builder.Slices.{build-AreTight}
use xmorph.Rootfs.Copy.{Found, Call, CopyError, tar_directory}
use xmorph.Cli.Build.Compose.{
  ComposeError, wrap_failed, append_failed, set_failed, Composer, or_fail, archive_of,
  with_settings, set_settings, set_config, compose_image,
}

-- What go-containerregistry documents: the empty image has no layer, a layer is added after those of
-- the image, and a file that is set is the one that is read, with the layers as they were.
pub record IsComposer (k : Composer) (layers_of : k.Image → List k.ImageLayer) : Type 0 where
  pub no_layers : layers_of k.empty_image ≡ []
  pub append_layer :
      (img after : k.Image) (l : k.ImageLayer)
      → k.append_layers img l ≡ some after
      → layers_of after ≡ layers_of img ++ l ∷ []
  pub set_file :
      (img after : k.Image) (f : ConfigFile k.Rest)
      → k.set_config_file img f ≡ some after
      → (layers_of after ≡ layers_of img) × (k.config_file after ≡ some (some f))

or_fail-ok {ℓ} :
    {A : Type ℓ} (e : ComposeError) (o : Option A) {a : A} → or_fail e o ≡ ok a → o ≡ some a
or_fail-ok e (some x) h = ap some (ok_injective h)
or_fail-ok e none h = absurd (err≢ok h)

module _ (k : Composer) where
  archive_of-ok :
      (t : Traced Call CopyError (Unit {0})) {tar : Bytes}
      → archive_of k t ≡ ok tar
      → (t.1 ≡ ok tt) × (k.archive t.0 ≡ tar)
  archive_of-ok (calls, ok done) h = (refl, ok_injective h)
  archive_of-ok (calls, err e) h = absurd (err≢ok h)

  read-with_settings :
      (c : ImageConfig) (f : ConfigFile k.Rest)
      → HasTightSlices c
      → read_image_config (some (some (with_settings k c f))) ≡ some (some c)
  unfolding read_image_config image_config
  read-with_settings c f h i = some (
      some (record {
        entrypoint = h.entrypoint i;
        cmd = h.cmd i;
        env = h.env i;
        working_dir = c.working_dir;
      }))

  module _ (layers_of : k.Image → List k.ImageLayer) (laws : IsComposer k layers_of) where
    abbrev pub Reads : k.Image → List k.ImageLayer → ImageConfig → Type 0
    Reads img ls c = (layers_of img ≡ ls) × (read_image_config (k.config_file img) ≡ some (some c))

    set_settings-Reads :
        (img after : k.Image) (c : ImageConfig) (f : Option (Option (ConfigFile k.Rest)))
        → HasTightSlices c
        → set_settings k img c f ≡ ok after
        → Reads after (layers_of img) c
    set_settings-Reads img after c none h e = absurd (err≢ok e)
    set_settings-Reads img after c (some none) h e = absurd (err≢ok e)
    set_settings-Reads img after c (some (some f)) h e =
        let (ls, file) =
          laws.set_file img after (with_settings k c f)
            (or_fail-ok set_failed (k.set_config_file img (with_settings k c f)) e) in
        (ls, ap read_image_config file ∙ read-with_settings c f h)

    -- `img` has one layer, the archive that was packed without an error, and this configuration.
    abbrev pub IsComposed :
        (Call → Bool) → Bytes → List (Bytes × Found) → ImageConfig → k.Image → Type 0
    IsComposed works dir walk c img =
        ((tar_directory works dir walk).1 ≡ ok tt)
        × (l : k.ImageLayer) × (k.layer_from (k.archive (tar_directory works dir walk).0) ≡ some l)
        × Reads img (l ∷ []) c

    -- An image composed with a configuration whose slices are nil when they are empty: the archive of
    -- its directory was packed without an error and is its one layer, and what is read is that
    -- configuration.
    compose_image-IsComposed :
        (works : Call → Bool) (dir : Bytes) (walk : List (Bytes × Found)) (c : ImageConfig)
        (img : k.Image)
        → HasTightSlices c
        → compose_image k works dir walk (some c) ≡ ok img
        → IsComposed works dir walk c img
    unfolding compose_image set_config
    compose_image-IsComposed works dir walk c img h e =
        let (tar, packs, e₁) = >>=-ok (archive_of k (tar_directory works dir walk)) _ e in
        let (done, same) = archive_of-ok (tar_directory works dir walk) packs in
        let (l, wraps, e₂) = >>=-ok (or_fail wrap_failed (k.layer_from tar)) _ e₁ in
        let (one, adds, e₃) =
          >>=-ok (or_fail append_failed (k.append_layers k.empty_image l)) _ e₂ in
        let (ls, reads) = set_settings-Reads one img c (k.config_file one) h e₃ in
        let added = laws.append_layer k.empty_image one l (or_fail-ok append_failed _ adds) in
        (
          done,
          l,
          ap k.layer_from same ∙ or_fail-ok wrap_failed _ wraps,
          (ls ∙ added ∙ ap (λ (xs : List k.ImageLayer). xs ++ l ∷ []) laws.no_layers, reads),
        )

    some_config : (o : Option ImageConfig) → is_some o ≡ true → (c : ImageConfig) × (o ≡ some c)
    some_config (some c) h = (c, refl)
    some_config none h = ground arith

    -- With images that keep to the documentation, and whose configuration files are there when they
    -- are read without an error: if the rootfs of a list of layers is built, at least one of them an
    -- image, and its image is composed, then its directory was packed without an error, the archive is
    -- the image's one layer, and ReadImageConfig reads from the image the configuration that those of
    -- the layers were merged to, nil slices included.
    pub compose_image-build {ℓ} :
        {State : Type ℓ} (sources : Sources State) (dir : Bytes)
        → HasConfigFile sources dir
        → (layers : List Layer) (s : State) (q : BuildResult) (works : Call → Bool)
          (walk : List (Bytes × Found)) (img : k.Image)
        → any is_image layers ≡ true
        → (build sources dir layers s).1 ≡ ok q
        → compose_image k works dir walk q.config ≡ ok img
        → (c : ImageConfig) × (q.config ≡ some c) × IsComposed works dir walk c img
    compose_image-build sources dir files layers s q works walk img images built composed =
        let (counted, named, configured) = build-ok sources dir files layers q s built in
        let (c, has) = some_config q.config (configured ∙ images) in
        (
          c,
          has,
          compose_image-IsComposed works dir walk c img
              (subst AreTight has (build-AreTight sources dir layers q s built))
              (ap (compose_image k works dir walk) (sym has) ∙ composed),
        )
