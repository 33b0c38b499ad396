-- ===== src/Postpivot/InitConfig/Files.antt =====
-- internal/postpivot/configwrite.go: writing the configuration and the program into the new root, and
-- reading the configuration back. encoding/json and which calls succeed are parameters.
use xmorph.Base.{Bool, Option, none, some}
use xmorph.Base.Bytes.{Bytes}
use xmorph.Base.Result.{Result, ok, err}
use xmorph.Base.Trace.{Traced, ◌and_do◌, attempt, tolerate, stop}
use xmorph.Path.{join, dir}
use xmorph.Postpivot.InitConfig.{InitConfig, config_path, binary_path}

-- `create_exclusive` is O_EXCL with the mode 0600, `create_executable` O_TRUNC with 0755.
pub data Call : Type 0 where
  make_dir remove_file create_exclusive create_executable open_file : Bytes → Call
  write_json : InitConfig → Call
  copy_content : Bytes → Bytes → Call

pub data ConfigError : Type 0 where
  mkdir_failed open_failed encode_failed : ConfigError
  readlink_failed create_failed copy_failed decode_failed : ConfigError

module _ (works : Call → Bool) where
  abbrev do_call : Call → ConfigError → Traced Call ConfigError (Unit {0})
  do_call call e = attempt call e (works call)

  unfoldable pub write_config : Bytes → InitConfig → Traced Call ConfigError (Unit {0})
  write_config rootfs cfg =
      let path = join rootfs config_path in
      do_call (make_dir (dir path)) mkdir_failed
      and_do tolerate (remove_file path)
      and_do do_call (create_exclusive path) open_failed
      and_do do_call (write_json cfg) encode_failed

  -- `CopyBinary`, with what /proc/self/exe links to
  unfoldable pub copy_binary : Option Bytes → Bytes → Traced Call ConfigError (Unit {0})
  copy_binary none rootfs = stop readlink_failed
  copy_binary (some src) rootfs =
      let dst = join rootfs binary_path in
      do_call (open_file src) open_failed
      and_do do_call (make_dir (dir dst)) mkdir_failed
      and_do do_call (create_executable dst) create_failed
      and_do do_call (copy_content src dst) copy_failed

-- What os.Open of the configuration says.
pub data Opened : Type 0 where
  opened : Bytes → Opened
  missing refused : Opened

abbrev decoded : Option InitConfig → Result ConfigError (Option InitConfig)
decoded none = err decode_failed
decoded (some cfg) = ok (some cfg)

-- `LoadConfig`: a file that is missing is no error and no configuration.
unfoldable pub load_config :
    (Bytes → Option InitConfig) → Opened → Result ConfigError (Option InitConfig)
load_config decode (opened text) = decoded (decode text)
load_config decode missing = ok none
load_config decode refused = err open_failed
