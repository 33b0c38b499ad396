-- ===== src/Cli/Build/Compose.antt =====
-- internal/cli/build_compose.go: `composeImage`, over the packing of a directory and what
-- go-containerregistry does with images.
pub mod Readback
use xmorph.Base.{Bool, true, false, Option, none, some, List, [], ◌∷◌}
use xmorph.Base.Bytes.{Bytes}
use xmorph.Base.Result.{Result, ok, err, ◌>>=◌}
use xmorph.Base.Trace.{Traced}
use xmorph.Oci.ImageConfig.{ImageConfig, ConfigFile}
use xmorph.Rootfs.Copy.{Found, Call, CopyError, tar_directory}

-- A file that is nil and is written to panics.
pub data ComposeError : Type 0 where
  tar_failed wrap_failed append_failed read_failed nil_file set_failed : ComposeError

-- What composeImage calls: `archive` is the tar stream of what was packed.
pub record Composer : Type 1 where
  pub Image : Type 0
  pub ImageLayer : Type 0
  pub Rest : Type 0
  pub archive : List Call → Bytes
  pub layer_from : Bytes → Option ImageLayer
  pub empty_image : Image
  pub append_layers : Image → ImageLayer → Option Image
  pub config_file : Image → Option (Option (ConfigFile Rest))
  pub set_config_file : Image → ConfigFile Rest → Option Image

abbrev pub or_fail {ℓ} : {A : Type ℓ} → ComposeError → Option A → Result ComposeError A
or_fail e none = err e
or_fail e (some a) = ok a

module _ (k : Composer) where
  abbrev pub archive_of : Traced Call CopyError (Unit {0}) → Result ComposeError Bytes
  archive_of (calls, err e) = err tar_failed
  archive_of (calls, ok done) = ok (k.archive calls)

  abbrev pub with_settings : ImageConfig → ConfigFile k.Rest → ConfigFile k.Rest
  with_settings c f = record f {
    entrypoint = c.entrypoint;
    cmd = c.cmd;
    env = c.env;
    working_dir = c.working_dir;
  }

  abbrev pub set_settings :
      k.Image → ImageConfig → Option (Option (ConfigFile k.Rest)) → Result ComposeError k.Image
  set_settings img c none = err read_failed
  set_settings img c (some none) = err nil_file
  set_settings img c (some (some f)) =
      or_fail set_failed (k.set_config_file img (with_settings c f))

  -- `if cfg != nil`
  unfoldable pub set_config : k.Image → Option ImageConfig → Result ComposeError k.Image
  set_config img none = ok img
  set_config img (some c) = set_settings img c (k.config_file img)

  -- `composeImage`, of what is found below the directory.
  unfoldable pub compose_image :
      (Call → Bool)
      → Bytes
      → List (Bytes × Found)
      → Option ImageConfig
      → Result ComposeError k.Image
  unfolding set_config
  compose_image works dir walk config = do
    tar ← archive_of (tar_directory works dir walk)
    layer ← or_fail wrap_failed (k.layer_from tar)
    img ← or_fail append_failed (k.append_layers k.empty_image layer)
    set_config img config
