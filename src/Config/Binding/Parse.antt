-- ===== src/Config/Binding/Parse.antt =====
-- internal/config/flagtypes.go and flags.go: what each flag's value does to the configuration, and
-- the values in the order of the command line.
use xmorph.Base.{ℕ, Bool, Option, none, some, List, [], ◌∷◌, ◌++◌}
use xmorph.Base.Bytes.{Bytes}
use xmorph.Base.Int.{ℤ}
use xmorph.Config.Types.{Config, image, rootfs}
use xmorph.Config.Binding.{
  Flag, image_flag, rootfs_flag, verbose, no_cache, work_dir, rootfs_size, no_rootfs_tmpfs,
  entrypoint, command, cmd, keep_old_root, no_keep_old_root, contain, force, timeout, no_init_coord,
  dry_run, skip_verify, cache_dir, log_dir, systemd_mode, keep_firewall, watchdog_timeout,
  log_persist_device, log_persist_path, output, rootfs_output, ssh_enable, ssh_port, ssh_password,
  ssh_authorized_keys, tailscale_enable, tailscale_image, tailscale_authkey, tailscale_server,
  tailscale_args, set_tristate_bool, set_tristate_uint16,
}

abbrev pub assign {ℓ} : {A : Type ℓ} → Option A → (A → Config) → Option Config
assign none f = none
assign (some a) f = some (f a)

module _ (bool : Bytes → Option Bool) (uint32 : Bytes → Option ℕ)
    (duration : Bytes → Option ℤ) where
  -- pflag's Set of one flag, `none` for a value that it refuses.
  unfoldable pub set : Flag → Bytes → Config → Option Config
  unfolding set_tristate_bool
  set image_flag v c = some (record c { layers = c.layers ++ (image v ∷ []) })
  set rootfs_flag v c = some (record c { layers = c.layers ++ (rootfs v ∷ []) })
  set verbose v c = assign (bool v) (λ b. record c { verbose = b })
  set no_cache v c = assign (bool v) (λ b. record c { no_cache = b })
  set work_dir v c = some (record c { work_dir = v })
  set rootfs_size v c = some (record c { rootfs_size = v })
  set no_rootfs_tmpfs v c = assign (bool v) (λ b. record c { no_rootfs_tmpfs = b })
  set entrypoint v c = some (record c { entrypoint = v })
  set command v c = some (record c { command = c.command ++ (v ∷ []) })
  set cmd v c = some (record c { command = c.command ++ (v ∷ []) })
  set keep_old_root v c = some (record c { keep_old_root = v })
  set no_keep_old_root v c = assign (bool v) (λ b. c)
  set contain v c = assign (bool v) (λ b. record c { contain = b })
  set force v c = assign (bool v) (λ b. record c { force = b })
  set timeout v c = assign (uint32 v) (λ n. record c { timeout = n })
  set no_init_coord v c = assign (bool v) (λ b. record c { no_init_coord = b })
  set dry_run v c = assign (bool v) (λ b. record c { dry_run = b })
  set skip_verify v c = assign (bool v) (λ b. record c { skip_verify = b })
  set cache_dir v c = some (record c { cache_dir = v })
  set log_dir v c = some (record c { log_dir = v })
  set systemd_mode v c = assign (bool v) (λ b. record c { systemd_mode = b })
  set keep_firewall v c = assign (bool v) (λ b. record c { keep_firewall = b })
  set watchdog_timeout v c = assign (duration v) (λ d. record c { watchdog_timeout = d })
  set log_persist_device v c = some (record c { log_persist_device = v })
  set log_persist_path v c = some (record c { log_persist_path = v })
  set output v c = some (record c { output = v })
  set rootfs_output v c = some (record c { rootfs_output = v })
  set ssh_enable v c = assign (set_tristate_bool v) (λ b. record c { ssh_enable = some b })
  set ssh_port v c = assign (set_tristate_uint16 v) (λ p. record c { ssh_port = some p })
  set ssh_password v c = some (record c { ssh_password = v })
  set ssh_authorized_keys v c = some (record c { ssh_authorized_keys = v })
  set tailscale_enable v c =
      assign (set_tristate_bool v) (λ b. record c { tailscale_enable = some b })
  set tailscale_image v c = some (record c { tailscale_image = v })
  set tailscale_authkey v c = some (record c { tailscale_authkey = v })
  set tailscale_server v c = some (record c { tailscale_server = v })
  set tailscale_args v c = some (record c { tailscale_args = v })

  -- The flags of a command line with their values, in its order.
  unfoldable pub set_all : List (Flag × Bytes) → Config → Option Config
  unfolding set
  set_all [] c = some c
  set_all ((f, v) ∷ args) c = elim (set f v c) [ none ↦ none | some d ↦ set_all args d ]
