-- ===== src/Oci/ImageConfig/Slices.antt =====
-- Configurations whose slices are nil when they are empty, as those that are read are.
use xmorph.Base.{Option, none, some, List, [], ◌∷◌, ◌≡◌, refl}
use xmorph.Base.Bytes.{Bytes}
use xmorph.Oci.ImageConfig.{
  ImageConfig, ConfigFile, elements, copy_slice, or_base, merge_env, overlay_config,
  merge_image_config, image_config,
}

abbrev pub IsTight : Option (List Bytes) → Type 0
IsTight xs = copy_slice (elements xs) ≡ xs

pub record HasTightSlices (c : ImageConfig) : Type 0 where
  pub entrypoint : IsTight c.entrypoint
  pub cmd : IsTight c.cmd
  pub env : IsTight c.env

abbrev pub AreTight : Option ImageConfig → Type 0
AreTight none = Unit
AreTight (some c) = HasTightSlices c

copy_slice-IsTight : (xs : List Bytes) → IsTight (copy_slice xs)
copy_slice-IsTight [] = refl
copy_slice-IsTight (x ∷ xs) = refl

or_base-IsTight : (a b : Option (List Bytes)) → IsTight a → IsTight b → IsTight (or_base a b)
or_base-IsTight none b h k = k
or_base-IsTight (some a) b h k = h

overlay_env-IsTight :
    (o b : Option (List Bytes))
    → IsTight b
    → IsTight (elim o [ none ↦ b | some es ↦ copy_slice (merge_env (elements b) es) ])
overlay_env-IsTight none b h = h
overlay_env-IsTight (some es) b h = copy_slice-IsTight (merge_env (elements b) es)

pub merge_image_config-AreTight :
    (b o : Option ImageConfig) → AreTight b → AreTight o → AreTight (merge_image_config b o)
unfolding merge_image_config overlay_config
merge_image_config-AreTight none o h k = k
merge_image_config-AreTight (some b) none h k = h
merge_image_config-AreTight (some b) (some o) h k = record {
  entrypoint = or_base-IsTight o.entrypoint b.entrypoint k.entrypoint h.entrypoint;
  cmd = or_base-IsTight o.cmd b.cmd k.cmd h.cmd;
  env = overlay_env-IsTight o.env b.env h.env;
}

pub image_config-AreTight {ℓ} :
    {Rest : Type ℓ} (f : Option (ConfigFile Rest)) → AreTight (image_config f)
unfolding image_config
image_config-AreTight none = tt
image_config-AreTight (some f) = record {
  entrypoint = copy_slice-IsTight (elements f.entrypoint);
  cmd = copy_slice-IsTight (elements f.cmd);
  env = copy_slice-IsTight (elements f.env);
}
