-- ===== src/Postpivot/InitConfig.antt =====
-- internal/postpivot/configwrite.go: the configuration that the supervisor reads after the pivot.
pub mod Files
use xmorph.Base.{ℕ, Bool, Option, List}
use xmorph.Base.Bytes.{Bytes, codes}
use xmorph.Base.Int.{ℤ}

abbrev pub binary_path : Bytes
binary_path = codes "/usr/local/bin/xmorph"

abbrev pub config_path : Bytes
config_path = codes "/etc/xmorph-init.json"

pub record SshConfig : Type 0 where
  pub port : ℕ
  pub password : Bytes
  pub password_generated : Bool
  pub authorized_keys : Bytes

pub record TsConfig : Type 0 where
  pub auth_key : Bytes
  pub args : Bytes

pub record InitConfig : Type 0 where
  pub flush_firewall : Bool
  pub reboot_on_exit : Bool
  pub watchdog_timeout_seconds : ℤ
  pub keep_old_root : Bytes
  pub log_persist_dir : Bytes
  pub ssh : Option SshConfig
  pub tailscale : Option TsConfig
  pub entrypoint : List Bytes
  pub command : List Bytes
