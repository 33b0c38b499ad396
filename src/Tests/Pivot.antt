-- ===== src/Tests/Pivot.antt =====
-- The pivot on a machine on which everything works.
use xmorph.Base.{
  Bool, List, ◌∷◌, ◌∙◌, if◌then◌else◌, true, false, some, [], ◌≡◌, ◌&&◌, ◌||◌, not, any, refl,
}
use xmorph.Base.Bytes.{Bytes, codes, is_empty}
use xmorph.Base.Int.{is_positive}
use xmorph.Config.Types.{ssh_enabled, tailscale_enabled}
use xmorph.Postpivot.InitConfig.{InitConfig, binary_path}
use xmorph.Postpivot.Run.{Inherited, serve, supervised, is_idle, run}
use xmorph.Postpivot.Run.Handover.{starts_ssh, starts_tsnet, flushes}
use xmorph.Cli.Main.{supervisor, entry_of}
use xmorph.Cli.Pivot.Handed.{config_event, exec_event, last_of}
use xmorph.Cli.Pivot.Handover.{run_pivot-run}
use xmorph.Cli.Run.Monitor.{awaits_unmount, armed, after, did_exec}
use xmorph.Cli.Pivot.{run_pivot}
use xmorph.Cli.Pivot.Ready.{
  is_act, is_destructive, is_ready, has_storage, has_stage, has_services, run_pivot-is_ready,
}
use xmorph.Cli.Pivot.Release.{run_pivot-watchdog}
use xmorph.Cli.Pivot.HostMounts.{Unmounts}
use xmorph.Cli.Pivot.Tmpfs.{mounts_own, run_pivot-tmpfs}
use xmorph.Cli.Pivot.Order.{rises, run_pivot_order}
use xmorph.Cli.Pivot.Success.{can_swap, run_pivot-did_exec}
use xmorph.Tests.Data.{machine, forced}

run_pivot-is_ready_example :
    (any is_act (run_pivot machine forced).0
      ≡ (not forced.dry_run && (machine.is_root && (forced.contain || forced.force))))
    × (any is_destructive (run_pivot machine forced).0 ≡ is_ready machine forced)
run_pivot-is_ready_example = run_pivot-is_ready machine forced

run_pivot-did_exec_example :
    did_exec (run_pivot machine forced).1 ≡ (is_ready machine forced && can_swap machine forced)
run_pivot-did_exec_example = run_pivot-did_exec machine forced

run_pivot_order_example : rises 0 27 (run_pivot machine forced).0 ≡ true
run_pivot_order_example = run_pivot_order machine forced

run_pivot-watchdog_example :
    after armed false (run_pivot machine forced).0
    ≡ (did_exec (run_pivot machine forced).1 && is_positive forced.watchdog_timeout)
run_pivot-watchdog_example = run_pivot-watchdog machine forced

-- Once Prepare was called, the unmount does not reach the host.
abbrev reaches_host : Bool → Bool
reaches_host prepared = not prepared

run_pivot-tmpfs_example :
    (after awaits_unmount false (run_pivot machine forced).0
      ≡ (did_exec (run_pivot machine forced).1 && mounts_own machine forced))
    × Unmounts reaches_host (run_pivot machine forced)
run_pivot-tmpfs_example = run_pivot-tmpfs machine forced reaches_host

forced_ready : (is_ready machine forced && can_swap machine forced) ≡ true
unfolding is_ready has_storage has_stage has_services xmorph.Cli.Pivot.Ready.fits
    xmorph.Cli.Pivot.Ready.budget_for xmorph.Sysmem.recommend_rootfs_bytes
    xmorph.Sysmem.headroom_check xmorph.Cli.Entrypoint.survives_detach xmorph.Base.Bytes.equal
    xmorph.Cli.Entrypoint.resolve_entrypoint xmorph.Cli.Entrypoint.ensure_ssh_usable ssh_enabled
    tailscale_enabled
forced_ready = refl

forced-did_exec : did_exec (run_pivot machine forced).1 ≡ true
forced-did_exec = run_pivot-did_exec machine forced ∙ forced_ready

abbrev inherited : Inherited
inherited = record { makes_log_dir = true; watchdog_fd = some 7; tsnet_starts = false }

run_pivot-run_example :
    (w : InitConfig) × (entrypoint : Bytes) × (args : List Bytes) × (last_of config_event
        (run_pivot machine forced).0
      ≡ some w)
    × (last_of exec_event (run_pivot machine forced).0
        ≡ some
            (binary_path ∷ codes "--init" ∷ entrypoint ∷ args, is_positive forced.watchdog_timeout))
    × (entry_of (binary_path ∷ codes "--init" ∷ entrypoint ∷ args) ≡ supervisor (entrypoint ∷ args))
    × ((run inherited (some w) (entrypoint ∷ args)).1 ≡ (
        if is_idle (entrypoint ∷ args)
        then serve
        else supervised (entrypoint ∷ args) true forced.keep_old_root))
    × (any starts_ssh (run inherited (some w) (entrypoint ∷ args)).0 ≡ ssh_enabled forced)
    × (any starts_tsnet (run inherited (some w) (entrypoint ∷ args)).0 ≡ tailscale_enabled forced)
    × (any flushes (run inherited (some w) (entrypoint ∷ args)).0 ≡ not forced.keep_firewall)
run_pivot-run_example = run_pivot-run machine forced inherited forced-did_exec
