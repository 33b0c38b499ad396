-- ===== src/Config/Binding.antt =====
-- internal/config/flags.go: `BindPivot` and `BindBuild`, and the values of internal/config/
-- flagtypes.go. How pflag reads a Boolean, a number and a duration is a parameter, as is the text of
-- a port that strconv prints.
pub mod Parse
pub mod Order
pub mod Defaults
use xmorph.Base.{
  ℕ, Bool, true, false, Option, none, some, List, [], ◌∷◌, ◌++◌, ◌||◌, ◌&&◌, if◌then◌else◌,
}
use xmorph.Base.Bytes.{Bytes, codes, equal, is_empty}
use xmorph.Base.Bytes.Number.{parse_uint}
use xmorph.Base.Int.{ℤ, pos}
use xmorph.Config.Types.{Config, Layer, image, rootfs, default_tailscale_image, build}

-- Each registered flag. `cmd` is an alias of `command`.
pub data Flag : Type 0 where
  image_flag rootfs_flag verbose no_cache work_dir rootfs_size no_rootfs_tmpfs : Flag
  entrypoint command cmd keep_old_root no_keep_old_root contain force timeout : Flag
  no_init_coord dry_run skip_verify cache_dir log_dir systemd_mode keep_firewall : Flag
  watchdog_timeout log_persist_device log_persist_path : Flag
  output rootfs_output : Flag
  ssh_enable ssh_port ssh_password ssh_authorized_keys : Flag
  tailscale_enable tailscale_image tailscale_authkey tailscale_server tailscale_args : Flag

abbrev pub flag_name : Flag → Bytes
flag_name image_flag = codes "image"
flag_name rootfs_flag = codes "rootfs"
flag_name verbose = codes "verbose"
flag_name no_cache = codes "no-cache"
flag_name work_dir = codes "work-dir"
flag_name rootfs_size = codes "rootfs-size"
flag_name no_rootfs_tmpfs = codes "no-rootfs-tmpfs"
flag_name entrypoint = codes "entrypoint"
flag_name command = codes "command"
flag_name cmd = codes "cmd"
flag_name keep_old_root = codes "keep-old-root"
flag_name no_keep_old_root = codes "no-keep-old-root"
flag_name contain = codes "contain"
flag_name force = codes "force"
flag_name timeout = codes "timeout"
flag_name no_init_coord = codes "no-init-coord"
flag_name dry_run = codes "dry-run"
flag_name skip_verify = codes "skip-verify"
flag_name cache_dir = codes "cache-dir"
flag_name log_dir = codes "log-dir"
flag_name systemd_mode = codes "systemd-mode"
flag_name keep_firewall = codes "keep-firewall"
flag_name watchdog_timeout = codes "watchdog-timeout"
flag_name log_persist_device = codes "log-persist-device"
flag_name log_persist_path = codes "log-persist-path"
flag_name output = codes "output"
flag_name rootfs_output = codes "rootfs-output"
flag_name ssh_enable = codes "ssh.enable"
flag_name ssh_port = codes "ssh.port"
flag_name ssh_password = codes "ssh.password"
flag_name ssh_authorized_keys = codes "ssh.authorized-keys"
flag_name tailscale_enable = codes "tailscale.enable"
flag_name tailscale_image = codes "tailscale.image"
flag_name tailscale_authkey = codes "tailscale.authkey"
flag_name tailscale_server = codes "tailscale.server"
flag_name tailscale_args = codes "tailscale.args"

-- `bindCommon`, `bindPivotOnly`, `bindBuildOnly`, `bindSSH` and `bindTailscale`, in their order.
abbrev pub common_flags : List Flag
common_flags =
    image_flag ∷ rootfs_flag ∷ verbose ∷ no_cache ∷ work_dir ∷ rootfs_size ∷ no_rootfs_tmpfs ∷ []

abbrev pub pivot_only_flags : List Flag
pivot_only_flags =
    entrypoint ∷ command ∷ cmd ∷ keep_old_root ∷ no_keep_old_root ∷ contain ∷ force ∷ timeout
    ∷ no_init_coord ∷ dry_run ∷ skip_verify ∷ cache_dir ∷ log_dir ∷ systemd_mode ∷ keep_firewall
    ∷ watchdog_timeout ∷ log_persist_device ∷ log_persist_path ∷ []

abbrev pub build_only_flags : List Flag
build_only_flags = output ∷ rootfs_output ∷ cache_dir ∷ []

abbrev pub ssh_flags : List Flag
ssh_flags = ssh_enable ∷ ssh_port ∷ ssh_password ∷ ssh_authorized_keys ∷ []

abbrev pub tailscale_flags : List Flag
tailscale_flags =
    tailscale_enable ∷ tailscale_image ∷ tailscale_authkey ∷ tailscale_server ∷ tailscale_args ∷ []

abbrev pub pivot_flags : List Flag
pivot_flags = common_flags ++ (pivot_only_flags ++ (ssh_flags ++ tailscale_flags))

abbrev pub build_flags : List Flag
build_flags = common_flags ++ (build_only_flags ++ tailscale_flags)

-- Registering a flag writes its default; pflag's Var leaves the value as it is.
unfoldable pub register : Flag → Config → Config
register verbose c = record c { verbose = false }
register no_cache c = record c { no_cache = false }
register work_dir c = record c { work_dir = codes "/run/xmorph/rootfs" }
register rootfs_size c = record c { rootfs_size = [] }
register no_rootfs_tmpfs c = record c { no_rootfs_tmpfs = false }
register entrypoint c = record c { entrypoint = codes "/bin/sh" }
register keep_old_root c = record c { keep_old_root = codes "/mnt/oldroot" }
register contain c = record c { contain = false }
register force c = record c { force = false }
register timeout c = record c { timeout = 30 }
register no_init_coord c = record c { no_init_coord = false }
register dry_run c = record c { dry_run = false }
register skip_verify c = record c { skip_verify = false }
register cache_dir c = record c { cache_dir = codes "/var/cache/xmorph" }
register log_dir c = record c { log_dir = codes "/var/log" }
register systemd_mode c = record c { systemd_mode = false }
register keep_firewall c = record c { keep_firewall = false }
register watchdog_timeout c = record c { watchdog_timeout = pos 0 }
register log_persist_device c = record c { log_persist_device = [] }
register log_persist_path c = record c { log_persist_path = codes "/var/log/xmorph" }
register output c = record c { output = [] }
register rootfs_output c = record c { rootfs_output = [] }
register ssh_password c = record c { ssh_password = [] }
register ssh_authorized_keys c = record c { ssh_authorized_keys = [] }
register tailscale_image c = record c { tailscale_image = default_tailscale_image }
register tailscale_authkey c = record c { tailscale_authkey = [] }
register tailscale_server c = record c { tailscale_server = [] }
register tailscale_args c = record c { tailscale_args = [] }
register _ c = c

unfoldable pub register_all : List Flag → Config → Config
unfolding register
register_all [] c = c
register_all (f ∷ fs) c = register_all fs (register f c)

unfoldable pub bind_pivot : Config → Config
unfolding register_all
bind_pivot c = register_all pivot_flags c

unfoldable pub bind_build : Config → Config
unfolding register_all
bind_build c = register_all build_flags (record c { subcommand = build })

-- `tristateBool.Set`
unfoldable pub set_tristate_bool : Bytes → Option Bool
set_tristate_bool s =
    if is_empty s || equal s (codes "true")
    then some true
    else if equal s (codes "false")
    then some false
    else none

-- `tristateUint16.Set`
abbrev pub set_tristate_uint16 : Bytes → Option ℕ
set_tristate_uint16 s = parse_uint 65_535 s

-- `tristateBool.String`
abbrev pub tristate_bool_string : Option Bool → Bytes
tristate_bool_string none = []
tristate_bool_string (some true) = codes "true"
tristate_bool_string (some false) = codes "false"

-- The value of a flag that is given without one: NoOptDefVal, which a Boolean flag of pflag has too.
abbrev pub bare_value : Flag → Option Bytes
bare_value keep_old_root = some (codes "/mnt/oldroot")
bare_value ssh_enable = some (codes "true")
bare_value tailscale_enable = some (codes "true")
bare_value _ = none
