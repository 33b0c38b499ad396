-- ===== src/Tests/Data.antt =====
-- Test data: percentages as whole numbers, and a machine on which everything works.
use xmorph.Base.{ℕ, true, false, none, some, List, [], ◌∷◌, ◌*◌, ◌/◌, ltb, ◌==◌}
use xmorph.Base.Bytes.{codes}
use xmorph.Base.Bytes.Number.{parse_uint}
use xmorph.Base.Int.{pos}
use xmorph.Config.Types.{Config, Layer, image, rootfs, new}
use xmorph.Config.Size.{Floats}
use xmorph.Cli.Host.{Host}
use xmorph.Oci.ImageConfig.{ImageConfig}
use xmorph.Sysmem.{MemInfo}

abbrev pub percents : Floats
percents = record {
  Float = ℕ;
  parse = parse_uint 1000;
  not_positive = λ v. v == 0;
  above_hundred = λ v. ltb 100 v;
  share = λ total v. total * v / 100;
}

-- A small board with 415 MiB.
abbrev pub board : MemInfo
board = record { total = 435_159_040; free = 100_000_000; available = 300_000_000 }

abbrev pub alpine : ImageConfig
alpine = record {
  entrypoint = none;
  cmd = some (codes "/usr/sbin/sshd" ∷ codes "-D" ∷ []);
  env = some (codes "PATH=/bin" ∷ codes "TERM=linux" ∷ []);
  working_dir = [];
}

abbrev pub machine : Host
machine = record {
  floats = percents;
  is_root = true;
  stdin_is_terminal = false;
  has_log_handler = true;
  is_systemd = true;
  over_ssh = true;
  in_container = false;
  relocates = true;
  makes_dir = true;
  meminfo = some board;
  free_bytes = some 80_000_000;
  is_mount_point = some false;
  cleans = true;
  mounts_tmpfs = true;
  builds = λ layers. some (some alpine);
  contains = true;
  passphrase = some (codes "acorn-zesty-plum");
  writes_config = λ config. true;
  copies_binary = true;
  writes_resolv_conf = true;
  authenticates = true;
  has_watchdog = true;
  log_dir_writable = λ dir. true;
  arms_watchdog = true;
  prepares = true;
  makes_old_root = true;
  pivots = true;
  execs = true;
}

-- xmorph pivot --force --ssh.enable --watchdog-timeout 60s
abbrev pub forced : Config
forced = record new {
  force = true;
  ssh_enable = some true;
  watchdog_timeout = pos 60_000_000_000;
  layers = image (codes "alpine") ∷ [];
}

abbrev pub layers : List Layer
layers =
    image (codes "alpine")
    ∷ rootfs (codes "/a.tar")
    ∷ image (codes "alpine:latest")
    ∷ rootfs (codes "/b.tar")
    ∷ []
