-- ===== src/Oci/ImageConfig.antt =====
-- internal/oci/config.go: the part of an image's configuration that the pivot uses. A Go slice that
-- may be nil is an `Option`; the pointer to the configuration is one too.
pub mod Env
pub mod Slices
use xmorph.Base.{ℕ, Bool, true, false, Option, none, some, List, [], ◌∷◌, ◌++◌, ◌==◌, if◌then◌else◌}
use xmorph.Base.Bytes.{Bytes, is_empty, equal}

pub record ImageConfig : Type 0 where
  pub entrypoint : Option (List Bytes)
  pub cmd : Option (List Bytes)
  pub env : Option (List Bytes)
  pub working_dir : Bytes

-- The elements of a slice; nil has none.
abbrev pub elements : Option (List Bytes) → List Bytes
elements none = []
elements (some xs) = xs

-- append([]string(nil), xs...)
abbrev pub copy_slice : List Bytes → Option (List Bytes)
copy_slice [] = none
copy_slice (x ∷ xs) = some (x ∷ xs)

-- The bytes before the first '='.
unfoldable pub env_key : Bytes → Bytes
env_key [] = []
env_key (c ∷ s) = let rest = c ∷ env_key s in if c == b'=' then [] else rest

-- The first entry of the key of `e` is replaced; if there is none then `e` is appended.
unfoldable pub put_env : Bytes → List Bytes → List Bytes
put_env e [] = e ∷ []
put_env e (x ∷ out) =
    let later = x ∷ put_env e out in if equal (env_key x) (env_key e) then e ∷ out else later

unfoldable pub merge_env : List Bytes → List Bytes → List Bytes
unfolding put_env
merge_env base [] = base
merge_env base (e ∷ overlay) = merge_env (put_env e base) overlay

abbrev pub or_base {ℓ} : {A : Type ℓ} → Option A → Option A → Option A
or_base none b = b
or_base (some a) b = some a

-- `MergeImageConfig` with neither pointer nil
unfoldable pub overlay_config : ImageConfig → ImageConfig → ImageConfig
overlay_config b o = record {
  entrypoint = or_base o.entrypoint b.entrypoint;
  cmd = or_base o.cmd b.cmd;
  env = elim o.env [ none ↦ b.env | some es ↦ copy_slice (merge_env (elements b.env) es) ];
  working_dir = if is_empty o.working_dir then b.working_dir else o.working_dir;
}

unfoldable pub merge_image_config : Option ImageConfig → Option ImageConfig → Option ImageConfig
unfolding overlay_config
merge_image_config none o = o
merge_image_config (some b) none = some b
merge_image_config (some b) (some o) = some (overlay_config b o)

-- The file that describes an image, with the rest of its fields as `Rest`.
pub record ConfigFile {ℓ} (Rest : Type ℓ) : Type ℓ where
  pub entrypoint : Option (List Bytes)
  pub cmd : Option (List Bytes)
  pub env : Option (List Bytes)
  pub working_dir : Bytes
  pub rest : Rest

module _ {ℓ} {Rest : Type ℓ} where
  -- The pointer that `ReadImageConfig` returns for one to a file.
  unfoldable pub image_config : Option (ConfigFile Rest) → Option ImageConfig
  image_config none = none
  image_config (some f) = some (record {
    entrypoint = copy_slice (elements f.entrypoint);
    cmd = copy_slice (elements f.cmd);
    env = copy_slice (elements f.env);
    working_dir = f.working_dir;
  })

  -- `ReadImageConfig`, of what the image's method ConfigFile returns: an error, nil or a file.
  unfoldable pub read_image_config : Option (Option (ConfigFile Rest)) → Option (Option ImageConfig)
  read_image_config none = none
  read_image_config (some file) = some (image_config file)
