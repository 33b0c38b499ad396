-- ===== src/Postpivot/Devices.antt =====
-- internal/postpivot/devices.go, reboot_linux.go and firewall_linux.go: the calls that they make. Every
-- failure is passed over, as in the code.
use xmorph.Base.{ℕ, Bool, true, false, List, [], ◌∷◌, ◌++◌, if◌then◌else◌}
use xmorph.Base.Bytes.{Bytes, codes, is_empty}

pub record Device : Type 0 where
  pub path : Bytes
  pub major : ℕ
  pub minor : ℕ

abbrev pub essential_devices : List Device
essential_devices =
    record { path = codes "/dev/null"; major = 1; minor = 3 }
    ∷ record { path = codes "/dev/zero"; major = 1; minor = 5 }
    ∷ record { path = codes "/dev/random"; major = 1; minor = 8 }
    ∷ record { path = codes "/dev/urandom"; major = 1; minor = 9 }
    ∷ record { path = codes "/dev/tty"; major = 5; minor = 0 }
    ∷ []

-- Character devices have the mode 0666.
pub data Call : Type 0 where
  make_node : Device → Call
  make_dir : Bytes → Call
  open_nftables flush_ruleset commit_rules : Call
  sync restart_machine exit_failure : Call
  unmount_beneath : Bytes → Call

abbrev pub tun : Device
tun = record { path = codes "/dev/net/tun"; major = 10; minor = 200 }

unfoldable pub missing_nodes : (Bytes → Bool) → List Device → List Call
missing_nodes exists [] = []
missing_nodes exists (d ∷ ds) =
    let rest = missing_nodes exists ds in if exists d.path then rest else make_node d ∷ rest

-- `EnsureDeviceNodes`; the tunnel is made only where stat says that it does not exist.
unfoldable pub ensure_device_nodes : (Bytes → Bool) → Bool → List Call
unfolding missing_nodes
ensure_device_nodes exists tun_missing =
    missing_nodes exists essential_devices
    ++ (if tun_missing then make_dir (codes "/dev/net") ∷ make_node tun ∷ [] else [])

-- `FlushFirewall`, with whether nftables can be opened
unfoldable pub flush_firewall : Bool → List Call
flush_firewall true = open_nftables ∷ flush_ruleset ∷ commit_rules ∷ []
flush_firewall false = open_nftables ∷ []

-- `doReboot`. The restart does not return if it succeeds; the unmounts are those of Pivot.Cleanup.
unfoldable pub do_reboot : Bytes → List Call
do_reboot old_root =
    sync ∷ (if is_empty old_root then [] else unmount_beneath old_root ∷ sync ∷ [])
    ++ restart_machine ∷ exit_failure ∷ []
