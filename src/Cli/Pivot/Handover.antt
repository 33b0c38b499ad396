-- ===== src/Cli/Pivot/Handover.antt =====
-- From the command to the supervisor: what runs after a pivot that hands over.
use xmorph.Base.{true, some, List, ◌∷◌, not, if◌then◌else◌, any, ◌≡◌, refl, ◌∙◌, ap}
use xmorph.Base.Bytes.{Bytes, codes, equal}
use xmorph.Base.Int.{is_positive}
use xmorph.Config.Types.{Config, ssh_enabled, tailscale_enabled}
use xmorph.Postpivot.InitConfig.{InitConfig, binary_path}
use xmorph.Postpivot.Run.{Inherited, serve, supervised, is_idle, run}
use xmorph.Postpivot.Run.Handover.{starts_ssh, starts_tsnet, flushes, run-build_postpivot_config}
use xmorph.Cli.Entrypoint.{build_postpivot_config}
use xmorph.Cli.Host.{Host}
use xmorph.Cli.Main.{supervisor, entry_of}
use xmorph.Cli.Run.Monitor.{did_exec}
use xmorph.Cli.Pivot.{run_pivot}
use xmorph.Cli.Pivot.Handed.{config_event, exec_event, last_of}
use xmorph.Cli.Pivot.Staged.{run_pivot-Handed}

-- If the pivot hands over to the supervisor, then it has written a configuration, and executed
-- xmorph's own binary with `--init`, an entrypoint and its arguments, and with the watchdog's
-- descriptor exactly if a watchdog was asked for. Started by these arguments the program is the
-- supervisor, and when it loads that configuration it serves if the entrypoint is xmorph's own idle
-- command, and otherwise supervises exactly that entrypoint with those arguments, with a reboot at
-- their end and with the old root as configured. It starts SSH and Tailscale exactly if each was
-- enabled, and flushes the firewall exactly unless it was to be kept.
pub run_pivot-run :
    (h : Host) (c : Config) (host : Inherited)
    → did_exec (run_pivot h c).1 ≡ true
    → (w : InitConfig) × (entrypoint : Bytes) × (args : List Bytes) × (last_of config_event
          (run_pivot h c).0
        ≡ some w)
      × (last_of exec_event (run_pivot h c).0
          ≡ some (binary_path ∷ codes "--init" ∷ entrypoint ∷ args, is_positive c.watchdog_timeout))
      × (entry_of (binary_path ∷ codes "--init" ∷ entrypoint ∷ args)
          ≡ supervisor (entrypoint ∷ args))
      × ((run host (some w) (entrypoint ∷ args)).1 ≡ (
          if is_idle (entrypoint ∷ args)
          then serve
          else supervised (entrypoint ∷ args) true c.keep_old_root))
      × (any starts_ssh (run host (some w) (entrypoint ∷ args)).0 ≡ ssh_enabled c)
      × (any starts_tsnet (run host (some w) (entrypoint ∷ args)).0 ≡ tailscale_enabled c)
      × (any flushes (run host (some w) (entrypoint ∷ args)).0 ≡ not c.keep_firewall)
unfolding entry_of equal
run_pivot-run h c host e =
    let d = run_pivot-Handed h c e in
    let (final, ssh, ts, firewall) =
      run-build_postpivot_config host d.usable d.entrypoint d.args (d.entrypoint ∷ d.args) in
    (
      build_postpivot_config d.usable d.entrypoint d.args,
      d.entrypoint,
      d.args,
      d.written,
      d.executed,
      refl,
      final ∙ rw d.same_old_root refl,
      ssh ∙ d.same_ssh,
      ts ∙ d.same_tailscale,
      firewall ∙ ap not d.same_firewall,
    )
