-- ===== src/Cli/Pivot/Release.antt =====
-- What the pivot holds is released if it returns, and kept if the supervisor takes over.
use xmorph.Base.{Bool, true, false, [], ◌&&◌, arith, ◌≡◌, ◌∙◌, Option-cases, inl, inr}
use xmorph.Base.Int.{is_positive}
use xmorph.Config.Types.{Config}
use xmorph.Cli.Entrypoint.{Launch}
use xmorph.Cli.Host.{Host}
use xmorph.Cli.Run.{
  unmount_tmpfs, arm_watchdog, disarm_watchdog, arm_failed, when, acquire, Run, Exit, ◌>>=◌, ◌>>◌,
  deferring, check, needs_root, needs_force,
}
use xmorph.Cli.Run.Monitor.{
  armed, after, did_exec, after-append, after-check, Releases, Releases-bind,
}
use xmorph.Cli.Pivot.{
  detach, start, requested_budget, check_headroom, mount_own, storage, stage, precheck,
  stop_services, swap_roots, exec_new, finish, commit, after_storage, run_contain, pivot_host,
  run_pivot,
}
use xmorph.Sysmem.{MemInfo}

module _ (h : Host) (c : Config) where
  armed-finish : (b : Bool) (launch : Launch) → after armed b (finish h c launch).0 ≡ b
  unfolding finish swap_roots exec_new ◌>>=◌
  armed-finish b launch = ground arith

  armed-stop : (b : Bool) → after armed b (stop_services h c).0 ≡ b
  unfolding stop_services ◌>>=◌
  armed-stop b = ground arith

  armed-stage : after armed false (stage h c).0 ≡ false
  unfolding stage ◌>>=◌
  armed-stage = ground arith

  armed-precheck : after armed false (precheck h c).0 ≡ false
  unfolding precheck ◌>>=◌
  armed-precheck = ground arith

  armed-start : after armed false (start h c).0 ≡ false
  unfolding start detach ◌>>=◌
  armed-start = ground arith

  armed-mount_own : (mem : MemInfo) → after armed false (mount_own h c mem).0 ≡ false
  unfolding mount_own requested_budget check_headroom ◌>>=◌
  armed-mount_own mem = ground arith

  armed-storage : after armed false (storage h c).0 ≡ false
  unfolding storage ◌>>=◌
  armed-storage = elim (Option-cases h.meminfo) [
    | inl e ↦ rw (e, storage, ◌>>=◌)
    | inr (mem, e) ↦
        ground (arith, armed-mount_own mem, after-append armed false (mount_own h c mem).0 [])
  ]

  abbrev wd : Bool
  wd = is_positive c.watchdog_timeout

  armed-deferring :
      (m : Run Exit)
      → after armed true m.0 ≡ true
      → after armed true (deferring true disarm_watchdog m).0 ≡ did_exec m.1
  armed-deferring m e = after-append armed true m.0 _ ∙ rw e (ground arith)

  -- Arming, and what runs while it is armed.
  abbrev armed_part : Launch → Run Exit
  armed_part launch =
      when wd (acquire (arm_watchdog c.watchdog_timeout) h.arms_watchdog arm_failed)
      >> deferring wd disarm_watchdog (finish h c launch)

  armed_part-Releases : (launch : Launch) → Releases armed wd (armed_part launch)
  unfolding ◌>>=◌
  armed_part-Releases launch = ground (
    arith,
    armed-finish false launch,
    armed-deferring (finish h c launch) (armed-finish true launch),
  )

  armed-commit : (launch : Launch) → Releases armed wd (commit h c launch)
  unfolding commit
  armed-commit launch =
      Releases-bind armed wd (stop_services h c) (λ u. armed_part launch) (armed-stop false)
        (λ u e. armed_part-Releases launch)

  armed-after_storage : Releases armed wd (after_storage h c)
  unfolding after_storage
  armed-after_storage = Releases-bind armed wd (stage h c) _ armed-stage (λ launch e.
      Releases-bind armed wd (precheck h c) _ armed-precheck (λ u e'. armed-commit launch))

  armed-deferring_unmount :
      (held : Bool) (m : Run Exit)
      → Releases armed wd m
      → Releases armed wd (deferring held unmount_tmpfs m)
  armed-deferring_unmount true m r = after-append armed false m.0 _ ∙ ground arith
  armed-deferring_unmount false m r = r

  armed-run_contain : Releases armed wd (run_contain h c)
  unfolding run_contain ◌>>=◌
  armed-run_contain = ground arith

  armed-pivot_host : Releases armed wd (pivot_host h c)
  unfolding pivot_host
  armed-pivot_host =
      Releases-bind armed wd (check h.is_root needs_root) _ (after-check armed h.is_root needs_root)
        (λ u e.
          Releases-bind armed wd (check c.force needs_force) _
            (after-check armed c.force needs_force)
            (λ u e. Releases-bind armed wd (start h c) _ armed-start (λ u e.
              Releases-bind armed wd (storage h c) _ armed-storage
                (λ held e. armed-deferring_unmount held (after_storage h c) armed-after_storage))))

  -- The watchdog is armed when the pivot ends exactly if the supervisor took over and a watchdog
  -- was asked for: every return, at whatever point, leaves it disarmed.
  pub run_pivot-watchdog :
      after armed false (run_pivot h c).0
      ≡ (did_exec (run_pivot h c).1 && is_positive c.watchdog_timeout)
  unfolding run_pivot
  run_pivot-watchdog = ground (arith, armed-run_contain, armed-pivot_host)
