-- ===== src/Config/Types.antt =====
-- internal/config/config.go: layers, the parsed configuration, its defaults and its three tests.
use xmorph.Base.{ℕ, Bool, true, false, Option, none, some, List, [], ◌||◌, not}
use xmorph.Base.Bytes.{Bytes, codes, is_empty}
use xmorph.Base.Int.{ℤ, pos}

pub data Subcommand : Type 0 where
  pivot build : Subcommand

-- The kind, with the one field of the struct that it uses.
pub data Layer : Type 0 where
  image : Bytes → Layer
  rootfs : Bytes → Layer

abbrev pub default_image : Bytes
default_image = codes "docker.io/library/alpine:latest"

abbrev pub default_tailscale_image : Bytes
default_tailscale_image = codes "docker.io/tailscale/tailscale:latest"

abbrev pub second : ℕ
second = 1_000_000_000

pub record Config : Type 0 where
  pub subcommand : Subcommand
  pub layers : List Layer
  pub entrypoint : Bytes
  pub entrypoint_explicit : Bool
  pub command : List Bytes
  pub keep_old_root : Bytes
  pub contain : Bool
  pub force : Bool
  pub timeout : ℕ
  pub no_init_coord : Bool
  pub systemd_mode : Bool
  pub verbose : Bool
  pub dry_run : Bool
  pub skip_verify : Bool
  pub no_cache : Bool
  pub cache_dir : Bytes
  pub work_dir : Bytes
  pub rootfs_size : Bytes
  pub no_rootfs_tmpfs : Bool
  pub log_dir : Bytes
  pub output : Bytes
  pub rootfs_output : Bytes
  pub keep_firewall : Bool
  pub watchdog_timeout : ℤ
  pub log_persist_device : Bytes
  pub log_persist_path : Bytes
  pub ssh_enable : Option Bool
  pub ssh_port : Option ℕ
  pub ssh_password : Bytes
  pub ssh_authorized_keys : Bytes
  pub ssh_password_generated : Bool
  pub tailscale_enable : Option Bool
  pub tailscale_image : Bytes
  pub tailscale_authkey : Bytes
  pub tailscale_server : Bytes
  pub tailscale_args : Bytes

-- `New`
abbrev pub new : Config
new = record {
  subcommand = pivot;
  layers = [];
  entrypoint = codes "/bin/sh";
  entrypoint_explicit = false;
  command = [];
  keep_old_root = codes "/mnt/oldroot";
  contain = false;
  force = false;
  timeout = 30;
  no_init_coord = false;
  systemd_mode = false;
  verbose = false;
  dry_run = false;
  skip_verify = false;
  no_cache = false;
  cache_dir = codes "/var/cache/xmorph";
  work_dir = codes "/run/xmorph/rootfs";
  rootfs_size = [];
  no_rootfs_tmpfs = false;
  log_dir = codes "/var/log";
  output = [];
  rootfs_output = [];
  keep_firewall = false;
  watchdog_timeout = pos 0;
  log_persist_device = [];
  log_persist_path = codes "/var/log/xmorph";
  ssh_enable = none;
  ssh_port = none;
  ssh_password = [];
  ssh_authorized_keys = [];
  ssh_password_generated = false;
  tailscale_enable = none;
  tailscale_image = default_tailscale_image;
  tailscale_authkey = [];
  tailscale_server = [];
  tailscale_args = [];
}

abbrev pub is_some {ℓ} : {A : Type ℓ} → Option A → Bool
is_some none = false
is_some (some a) = true

-- `SSHEnabled`
unfoldable pub ssh_enabled : Config → Bool
ssh_enabled c = elim c.ssh_enable [
  | some on ↦ on
  | none ↦
      is_some c.ssh_port || (not (is_empty c.ssh_password) || not (is_empty c.ssh_authorized_keys))
]

-- `TailscaleEnabled`
unfoldable pub tailscale_enabled : Config → Bool
tailscale_enabled c = elim c.tailscale_enable [
  | some on ↦ on
  | none ↦ not (is_empty c.tailscale_authkey)
]

-- `HasInitServices`
unfoldable pub has_init_services : Config → Bool
unfolding ssh_enabled tailscale_enabled
has_init_services c = ssh_enabled c || (tailscale_enabled c || not c.keep_firewall)
