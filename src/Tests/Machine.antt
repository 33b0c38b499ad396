-- ===== src/Tests/Machine.antt =====
-- A pivot on a machine in detail.
use xmorph.Base.{
  Bool, true, false, Option, none, some, List, [], ◌∷◌, ◌&&◌, ◌||◌, not, if◌then◌else◌, any, All,
  ◌≡◌, ◌≢◌, refl, ◌∙◌, arith,
}
use xmorph.Base.Bytes.{Bytes, codes, is_empty, is_space, has_prefix}
use xmorph.Base.Int.{is_positive}
use xmorph.Config.Types.{ssh_enabled, tailscale_enabled}
use xmorph.Cli.Pivot.{run_pivot}
use xmorph.Cli.Pivot.Handed.{config_event, last_of}
use xmorph.Cli.Pivot.Machine.{Machine, host_on, prepared, armed_device, resolved, run_pivot-host_on}
use xmorph.Cli.Pivot.Ready.{is_ready, has_storage, has_stage, has_services}
use xmorph.Cli.Pivot.Success.{can_swap, run_pivot-did_exec}
use xmorph.Cli.Run.Monitor.{did_exec}
use xmorph.Pivot.Mounts.Visible.{visible, essentials_seen}
use xmorph.Postpivot.InitConfig.{InitConfig}
use xmorph.Postpivot.ResolvConf.{Net, fallback_nameservers, read_nameservers, all_loopback}
use xmorph.Postpivot.Sshd
use xmorph.Postpivot.Sshd.{Outside, start_ssh_server}
use xmorph.Postpivot.Sshd.Starts.{is_ok, binds, all_keys}
use xmorph.Postpivot.Sshd.Staged.{operator_keys, has_some}
use xmorph.Postpivot.Watchdog.{opened}
use xmorph.Postpivot.Watchdog.Device.{react_all, idle}
use xmorph.Tests.Addresses.{net, net-shown, net-fallback}
use xmorph.Tests.Data.{machine, forced}

abbrev box : Machine
box = record {
  mounts = record { works = λ c. true; exists = λ p. true; device = λ p. some 1 };
  watchdog = record {
    first_open = opened;
    loads_module = true;
    opens_again = true;
    clears_cloexec = true;
  };
  net = net;
  disk = record { makes_dir = true; writes = true };
  resolv_before = none;
  resolv_host = some (codes "nameserver 127.0.0.53\n");
  wordlist = codes "acid\nacorn\n";
  draws = some 1 ∷ some 0 ∷ some 1 ∷ [];
}

abbrev outside : Outside
outside = record {
  parse_authorized_key = λ line. some line;
  generates_host_key = true;
  kernel_binds = true;
  tailnet_binds = none;
}

box_ready :
    (is_ready (host_on box forced machine) forced && can_swap (host_on box forced machine) forced)
    ≡ true
unfolding is_ready has_storage has_stage has_services xmorph.Cli.Pivot.Ready.fits
    xmorph.Cli.Pivot.Ready.budget_for xmorph.Sysmem.recommend_rootfs_bytes
    xmorph.Sysmem.headroom_check xmorph.Cli.Entrypoint.survives_detach xmorph.Base.Bytes.equal
    xmorph.Cli.Entrypoint.resolve_entrypoint xmorph.Cli.Entrypoint.ensure_ssh_usable ssh_enabled
    tailscale_enabled xmorph.Pivot.Mounts.prepare xmorph.Postpivot.Watchdog.arm_watchdog_pre_pivot
    xmorph.Postpivot.Watchdog.ensure_watchdog_available
    xmorph.Postpivot.ResolvConf.ensure_resolv_conf xmorph.Passphrase.generate
    xmorph.Passphrase.parse_wordlist xmorph.Base.Bytes.trim_space has_prefix read_nameservers
box_ready = refl

box-did_exec : did_exec (run_pivot (host_on box forced machine) forced).1 ≡ true
box-did_exec = run_pivot-did_exec (host_on box forced machine) forced ∙ box_ready

run_pivot-host_on_example :
    (w : InitConfig) × (last_of config_event (run_pivot (host_on box forced machine) forced).0
      ≡ some w)
    × (visible box.mounts forced.work_dir (prepared box forced).0 []
        ≡ essentials_seen box.mounts forced.work_dir)
    × ((react_all (armed_device box forced).0 idle).ticks ≡ is_positive forced.watchdog_timeout)
    × (all_loopback net (read_nameservers net (resolved box forced).0) ≡ false)
    × (is_ok (start_ssh_server outside w.ssh).1 ≡ (
        ssh_enabled forced
        && (binds outside Sshd.kernel || binds outside Sshd.tailnet)
        && (outside.generates_host_key
            && all_keys outside (operator_keys forced)
            && has_some forced)))
run_pivot-host_on_example =
    run_pivot-host_on box forced machine outside net-shown net-fallback box-did_exec
