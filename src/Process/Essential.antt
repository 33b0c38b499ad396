-- ===== src/Process/Essential.antt =====
-- internal/process/essential.go, and the process record of scanner.go.
use xmorph.Base.{Bool, List, [], ◌∷◌, ◌||◌, any}
use xmorph.Base.Int.{ℤ, pos, eq_int}
use xmorph.Base.Bytes.{Bytes, codes, equal, is_empty, has_prefix}

pub record Info : Type 0 where
  pub pid : ℤ
  pub ppid : ℤ
  pub comm : Bytes
  pub cmdline : Bytes

abbrev pub essential_names : List Bytes
essential_names =
    codes "kthreadd"
    ∷ codes "ksoftirqd"
    ∷ codes "kworker"
    ∷ codes "migration"
    ∷ codes "watchdog"
    ∷ codes "kcompactd"
    ∷ codes "khugepaged"
    ∷ codes "kswapd"
    ∷ codes "kblockd"
    ∷ codes "systemd"
    ∷ codes "init"
    ∷ codes "openrc"
    ∷ codes "runit"
    ∷ codes "s6-svscan"
    ∷ codes "udevd"
    ∷ codes "systemd-udevd"
    ∷ codes "eudev"
    ∷ codes "mdev"
    ∷ codes "journald"
    ∷ codes "systemd-journald"
    ∷ codes "rsyslogd"
    ∷ codes "syslog-ng"
    ∷ codes "dhclient"
    ∷ codes "dhcpcd"
    ∷ codes "NetworkManager"
    ∷ codes "wpa_supplicant"
    ∷ codes "lvmetad"
    ∷ codes "multipathd"
    ∷ codes "iscsid"
    ∷ []

unfoldable pub is_kernel_thread : Info → Bool
is_kernel_thread i = is_empty i.cmdline

unfoldable pub is_essential_name : Bytes → Bool
is_essential_name name = any (λ n. equal name n || has_prefix n name) essential_names

-- With the own process id.
unfoldable pub is_essential : ℤ → Info → Bool
unfolding is_kernel_thread is_essential_name
is_essential self i =
    eq_int i.pid (pos 1)
    || (is_kernel_thread i
        || (eq_int i.pid self || (is_essential_name i.comm || has_prefix (codes "[") i.comm)))
