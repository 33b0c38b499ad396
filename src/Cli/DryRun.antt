-- ===== src/Cli/DryRun.antt =====
-- internal/cli/dryrun.go: the lines of `printDryRun`, as data in place of their text, with the numbers
-- that the code counts. The detected init system is an argument.
pub mod Announced
use xmorph.Base.{
  ℕ, Bool, true, false, Option, none, some, List, [], ◌∷◌, ◌++◌, ◌&&◌, not, if◌then◌else◌, ◌+◌, ◌-◌,
  ◌==◌, ltb, length, drop,
}
use xmorph.Base.Bytes.{Bytes, codes, is_empty, trim_space}
use xmorph.Base.Int.{ℤ, is_positive}
use xmorph.Config.Types.{Config, Layer, image, rootfs, ssh_enabled, tailscale_enabled}
use xmorph.Initsys.{Kind, contains}
use xmorph.Path.{join_all}
use xmorph.Tailscale.{resolve_tailscale_args}

abbrev pub take : ℕ → Bytes → Bytes
take n [] = []
take n (x ∷ s) = let rest = take (n - 1) s in if n == 0 then [] else x ∷ rest

-- `maskAuthKey`
unfoldable pub mask_auth_key : Bytes → Bytes
mask_auth_key key =
    if is_empty key
    then codes "(unset)"
    else (if ltb 8 (length key) then take 8 key else key)
      ++ codes "..."
      ++ (if ltb 12 (length key) then drop (length key - 4) key else [])

pub data LayerKind : Type 0 where
  image_kind rootfs_kind : LayerKind

abbrev pub layer_label_kind : Layer → Bytes × LayerKind
layer_label_kind (image ref) = (ref, image_kind)
layer_label_kind (rootfs path) = (path, rootfs_kind)

-- What a layer is marked as in the list.
pub data Mark : Type 0 where
  base_mark tailscale_mark no_mark : Mark

abbrev pub mark_of : Layer → Mark
mark_of (image ref) = if contains (codes "tailscale") ref then tailscale_mark else no_mark
mark_of (rootfs path) = no_mark

pub data Auth : Type 0 where
  public_key : ℕ → Auth
  password_given password_generated : Auth

pub data PlanStep : Type 0 where
  build_from merge_layer : Bytes → LayerKind → PlanStep
  verify_structure terminate_processes execute_pivot_root : PlanStep
  tailscale_script : Bytes → Bytes → PlanStep
  start_ssh : ℕ → List Auth → PlanStep
  coordinate : Kind → PlanStep
  execute : Bytes → PlanStep

-- The number of lines that strings.Count finds, and one.
abbrev pub key_count : Bytes → ℕ
key_count [] = 1
key_count (c ∷ s) = if c == b'\n' then key_count s + 1 else key_count s

abbrev pub auth_lines : Config → List Auth
auth_lines c =
    (if is_empty c.ssh_authorized_keys
      then []
      else public_key (key_count (trim_space c.ssh_authorized_keys)) ∷ [])
    ++ (if not (is_empty c.ssh_password)
        then password_given ∷ []
        else if is_empty c.ssh_authorized_keys
        then password_generated ∷ []
        else [])

abbrev pub plan_port : Option ℕ → ℕ
plan_port none = 22
plan_port (some p) = p

abbrev pub merges : List Layer → List PlanStep
merges [] = []
merges (l ∷ ls) = merge_layer (layer_label_kind l).0 (layer_label_kind l).1 ∷ merges ls

abbrev pub only_if : Bool → PlanStep → List PlanStep
only_if true s = s ∷ []
only_if false s = []

-- The steps after those of the layers.
abbrev pub later_steps : Option Bytes → Kind → Config → List PlanStep
later_steps host kind c =
    verify_structure
    ∷ (only_if (tailscale_enabled c)
          (tailscale_script (mask_auth_key c.tailscale_authkey) (resolve_tailscale_args host c))
        ++ only_if (ssh_enabled c) (start_ssh (plan_port c.ssh_port) (auth_lines c))
        ++ only_if (not c.no_init_coord) (coordinate kind)
        ++ terminate_processes ∷ execute_pivot_root ∷ execute c.entrypoint ∷ [])

-- `step`, which each numbered line raises by one.
unfoldable pub number_from : ℕ → List PlanStep → List (ℕ × PlanStep)
number_from n [] = []
number_from n (s ∷ ss) = (n, s) ∷ number_from (n + 1) ss

unfoldable pub list_layers : ℕ → List Layer → List (ℕ × Bytes × LayerKind × Mark)
list_layers i [] = []
list_layers i (l ∷ ls) =
    let mark = if i == 0 then base_mark else mark_of l in
    (i + 1, (layer_label_kind l).0, (layer_label_kind l).1, mark) ∷ list_layers (i + 1) ls

-- What is printed: the layers, the watchdog's and the log's line if they are there, and the steps.
pub record Plan : Type 0 where
  pub layers : List (ℕ × Bytes × LayerKind × Mark)
  pub entrypoint : Bytes
  pub keep_old_root : Bytes
  pub contain : Bool
  pub timeout : ℕ
  pub watchdog : Option ℤ
  pub persistent_logs : Option Bytes
  pub steps : List (ℕ × PlanStep)

-- Without a layer it fails at layers[0]; Normalize leaves one at least.
unfoldable pub plan_of : Option Bytes → Kind → Config → List Layer → Option Plan
plan_of host kind c [] = none
plan_of host kind c (l ∷ ls) = some (record {
  layers = list_layers 0 (l ∷ ls);
  entrypoint = c.entrypoint;
  keep_old_root = c.keep_old_root;
  contain = c.contain;
  timeout = c.timeout;
  watchdog = if is_positive c.watchdog_timeout then some c.watchdog_timeout else none;
  persistent_logs =
      if is_empty c.log_persist_path
      then none
      else some (join_all (codes "/" ∷ c.log_persist_device ∷ c.log_persist_path ∷ []));
  steps = number_from 1 (
      build_from (layer_label_kind l).0 (layer_label_kind l).1
      ∷ (merges ls ++ later_steps host kind c));
})

-- `printDryRun`
unfoldable pub print_dry_run : Option Bytes → Kind → Config → Option Plan
unfolding plan_of
print_dry_run host kind c = plan_of host kind c c.layers
