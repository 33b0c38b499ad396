-- ===== src/Config/Flags.antt =====
-- internal/config/flags.go: `Normalize`, after the flags are parsed. Which flags were given
-- (pflag's Changed) and the environment are arguments.
pub mod Normal
use xmorph.Base.{
  Bool, true, false, Option, none, some, List, [], ◌∷◌, ◌++◌, ◌||◌, ◌&&◌, not, if◌then◌else◌,
}
use xmorph.Base.Bytes.{Bytes, codes, is_empty}
use xmorph.Config.Types.{Config, Layer, image, default_image, is_some}
use xmorph.Config.Layers.{deduplicate_layers}

-- if dir, ok := envLookup(name); ok && dir != "" …
abbrev pub non_empty : Option Bytes → Option Bytes
non_empty none = none
non_empty (some dir) = if is_empty dir then none else some dir

module _ (changed : Bytes → Bool) (env : Bytes → Option Bytes) where
  unfoldable pub apply_env : Config → Config
  apply_env c = record c {
    cache_dir =
        if changed (codes "cache-dir")
        then c.cache_dir
        else elim (non_empty (env (codes "CACHE_DIRECTORY"))) [
          | none ↦ c.cache_dir
          | some dir ↦ dir
        ];
    work_dir =
        if changed (codes "work-dir")
        then c.work_dir
        else elim (non_empty (env (codes "RUNTIME_DIRECTORY"))) [
          | none ↦ c.work_dir
          | some dir ↦ dir ++ codes "/rootfs"
        ];
  }

  unfoldable pub apply_changed : Config → Config
  apply_changed c = record c {
    keep_old_root = if changed (codes "no-keep-old-root") then [] else c.keep_old_root;
    entrypoint_explicit = changed (codes "entrypoint");
  }

unfoldable pub imply_systemd : Config → Config
imply_systemd c = record c {
  no_init_coord = if c.systemd_mode then true else c.no_init_coord;
  force = if c.systemd_mode then true else c.force;
}

-- `needPort`
unfoldable pub needs_port : Config → Bool
needs_port c =
    elim c.ssh_enable [ none ↦ false | some on ↦ on ]
    || (not (is_empty c.ssh_password) || not (is_empty c.ssh_authorized_keys))

unfoldable pub imply_port : Config → Config
unfolding needs_port
imply_port c = record c {
  ssh_port = if not (is_some c.ssh_port) && needs_port c then some 22 else c.ssh_port;
}

abbrev pub or_default : List Layer → List Layer
or_default [] = image default_image ∷ []
or_default (l ∷ ls) = l ∷ ls

unfoldable pub apply_layers : List Bytes → Config → Config
apply_layers positional c = record c {
  command = c.command ++ positional;
  layers = deduplicate_layers (or_default c.layers);
}

unfoldable pub normalize : (Bytes → Bool) → List Bytes → (Bytes → Option Bytes) → Config → Config
unfolding apply_env apply_changed imply_systemd imply_port apply_layers
normalize changed positional env c =
    apply_layers positional
      (imply_port (imply_systemd (apply_changed changed env (apply_env changed env c))))
