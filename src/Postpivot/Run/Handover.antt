-- ===== src/Postpivot/Run/Handover.antt =====
-- What the pivot stages is what the supervisor runs.
use xmorph.Base.{
  Bool, true, false, some, List, [], ◌∷◌, ◌&&◌, ◌||◌, not, if◌then◌else◌, any, any-append,
  append-nil, arith, ◌≡◌, refl,
}
use xmorph.Base.Bytes.{Bytes, is_empty}
use xmorph.Config.Types.{Config, is_some, ssh_enabled, tailscale_enabled}
use xmorph.Postpivot.InitConfig.{InitConfig}
use xmorph.Cli.Entrypoint.{build_postpivot_config}
use xmorph.Postpivot.Run.{
  Setup, flush_firewall, open_logs, start_tsnet, start_ssh, serve, supervised, Inherited, is_idle,
  only_if, watchdog_setup, tsnet_setup, ssh_setup, services, run,
}

abbrev pub starts_ssh : Setup → Bool
starts_ssh (start_ssh s tailnet) = true
starts_ssh _ = false

abbrev pub starts_tsnet : Setup → Bool
starts_tsnet (start_tsnet args) = true
starts_tsnet _ = false

abbrev pub flushes : Setup → Bool
flushes flush_firewall = true
flushes _ = false

module _ (host : Inherited) (c : InitConfig) where
  any-services :
      (p : Setup → Bool)
      → any p (services host c) ≡ (
          any p (only_if c.flush_firewall (flush_firewall ∷ []))
          || (any p (
                only_if
                  (not (is_empty c.log_persist_dir) && host.makes_log_dir)
                  (open_logs c.log_persist_dir ∷ []))
              || (any p (watchdog_setup host c)
                  || (any p (tsnet_setup host c) || any p (ssh_setup host c)))))
  unfolding services
  any-services p =
      let logs =
        only_if (not (is_empty c.log_persist_dir) && host.makes_log_dir)
          (open_logs c.log_persist_dir ∷ []) in
      rw
        (
          any-append p (only_if c.flush_firewall (flush_firewall ∷ [])) _,
          any-append p logs _,
          any-append p (watchdog_setup host c) _,
          any-append p (tsnet_setup host c) _,
        )
        refl

  services-kinds :
      (any starts_ssh (services host c) ≡ is_some c.ssh)
      × (any starts_tsnet (services host c) ≡ is_some c.tailscale)
      × (any flushes (services host c) ≡ c.flush_firewall)
  unfolding watchdog_setup tsnet_setup ssh_setup
  services-kinds = (
    ground (arith, any-services starts_ssh),
    ground (arith, any-services starts_tsnet),
    ground (arith, any-services flushes),
  )

-- If the supervisor loads the configuration that the pivot built, then, whatever its own arguments
-- are, it serves if the entrypoint is xmorph's own idle command, and otherwise supervises exactly
-- the entrypoint and the arguments that the pivot chose, with a reboot at their end. It starts SSH
-- exactly if that was enabled, Tailscale exactly if that was, and flushes the firewall exactly
-- unless it was to be kept.
pub run-build_postpivot_config :
    (host : Inherited) (c : Config) (entrypoint : Bytes) (args argv : List Bytes)
    → ((run host (some (build_postpivot_config c entrypoint args)) argv).1 ≡ (
        if is_idle (entrypoint ∷ args)
        then serve
        else supervised (entrypoint ∷ args) true c.keep_old_root))
      × (any starts_ssh (run host (some (build_postpivot_config c entrypoint args)) argv).0
          ≡ ssh_enabled c)
      × (any starts_tsnet (run host (some (build_postpivot_config c entrypoint args)) argv).0
          ≡ tailscale_enabled c)
      × (any flushes (run host (some (build_postpivot_config c entrypoint args)) argv).0
          ≡ not c.keep_firewall)
unfolding run build_postpivot_config
run-build_postpivot_config host c entrypoint args argv =
    let (a, b, d) = services-kinds host (build_postpivot_config c entrypoint args) in
    (ground (arith, append-nil args), ground (arith, a), ground (arith, b), ground (arith, d))
