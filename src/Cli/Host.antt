-- ===== src/Cli/Host.antt =====
-- The machine that the pivot runs on: for each call out of internal/cli/pivot.go, what it answers.
-- A `Bool` is true where the call returns no error.
use xmorph.Base.{ℕ, Bool, Option, List}
use xmorph.Base.Bytes.{Bytes}
use xmorph.Config.Types.{Layer}
use xmorph.Config.Size.{Floats}
use xmorph.Oci.ImageConfig.{ImageConfig}
use xmorph.Postpivot.InitConfig.{InitConfig}
use xmorph.Sysmem.{MemInfo}

pub record Host : Type 1 where
  pub floats : Floats
  pub is_root : Bool
  pub stdin_is_terminal : Bool
  -- LogHandler != nil
  pub has_log_handler : Bool
  pub is_systemd : Bool
  pub over_ssh : Bool
  pub in_container : Bool
  pub relocates : Bool
  pub makes_dir : Bool
  pub meminfo : Option MemInfo
  pub free_bytes : Option ℕ
  pub is_mount_point : Option Bool
  pub cleans : Bool
  pub mounts_tmpfs : Bool
  -- rootfs.Build: the merged image configuration, if any layer has one
  pub builds : List Layer → Option (Option ImageConfig)
  pub contains : Bool
  pub passphrase : Option Bytes
  pub writes_config : InitConfig → Bool
  pub copies_binary : Bool
  pub writes_resolv_conf : Bool
  pub authenticates : Bool
  pub has_watchdog : Bool
  pub log_dir_writable : Bytes → Bool
  pub arms_watchdog : Bool
  pub prepares : Bool
  pub makes_old_root : Bool
  pub pivots : Bool
  pub execs : Bool
