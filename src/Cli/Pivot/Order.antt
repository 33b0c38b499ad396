-- ===== src/Cli/Pivot/Order.antt =====
-- The order of the events of a pivot, on every path through it.
use xmorph.Base.{
  ℕ, Bool, true, false, List, [], ◌∷◌, ◌++◌, ◌+◌, ◌≤◌, ◌&&◌, leb, arith, ◌≡◌, Option-cases, inl,
  inr,
}
use xmorph.Base.Int.{is_positive}
use xmorph.Base.Result.{Result, ok, err}
use xmorph.Config.Types.{Config}
use xmorph.Cli.Entrypoint.{Launch}
use xmorph.Cli.Host.{Host}
use xmorph.Cli.Run.{
  Event, print_plan, open_log, relocate_scope, wait_grace, ignore_hangup, make_work_dir,
  clean_work_dir, build_rootfs, contain, copy_binary, write_resolv_conf, pre_auth, probe_watchdog,
  mount_tmpfs, unmount_tmpfs, announce_password, write_config, probe_log_dir, ignore_terminate,
  isolate_services, wait_services, terminate_processes, arm_watchdog, disarm_watchdog,
  prepare_mounts, make_old_root, flush_log, pivot_root, cleanup_old_root, exec_supervisor,
}
use xmorph.Cli.Run.{
  Failure, Run, Exit, returned, replaced, at_exit, ◌>>=◌, deferring, continue, check, when, acquire,
  arm_failed, needs_root, needs_force,
}
use xmorph.Cli.Pivot.{
  detach, start, requested_budget, check_headroom, mount_own, storage, stage, precheck,
  stop_services, swap_roots, exec_new, finish, commit, after_storage, run_contain, pivot_host,
  run_pivot,
}
use xmorph.Sysmem.{MemInfo}

-- The place of each event: what is checked comes before what is stopped, what is stopped before
-- the roots are swapped, and what is released comes last, in the reverse order.
abbrev pub place : Event → ℕ
place print_plan = 0
place open_log = 0
place relocate_scope = 1
place wait_grace = 2
place ignore_hangup = 3
place make_work_dir = 4
place clean_work_dir = 5
place (mount_tmpfs size) = 5
place build_rootfs = 6
place contain = 7
place (announce_password pw port) = 7
place (write_config config) = 8
place copy_binary = 9
place write_resolv_conf = 10
place pre_auth = 11
place probe_watchdog = 12
place (probe_log_dir dir) = 13
place ignore_terminate = 14
place isolate_services = 15
place wait_services = 16
place (terminate_processes timeout) = 17
place (arm_watchdog timeout) = 18
place prepare_mounts = 19
place make_old_root = 20
place flush_log = 21
place pivot_root = 22
place cleanup_old_root = 23
place (exec_supervisor argv watchdog) = 24
place disarm_watchdog = 25
place unmount_tmpfs = 26

-- The places rise strictly, from `lo` on and below `hi`.
abbrev pub rises : ℕ → ℕ → List Event → Bool
rises lo hi [] = leb lo hi
rises lo hi (e ∷ es) = leb lo (place e) && rises (place e + 1) hi es

rises-le : (lo hi : ℕ) (t : List Event) → rises lo hi t ≡ true → lo ≤ hi
rises-le lo hi [] r = ground arith
rises-le lo hi (e ∷ t) r = ground (arith, rises-le (place e + 1) hi t)

rises-append :
    (lo mid hi : ℕ) (t u : List Event)
    → rises lo mid t ≡ true
    → rises mid hi u ≡ true
    → rises lo hi (t ++ u) ≡ true
rises-append lo mid hi [] [] r s = ground arith
rises-append lo mid hi [] (e ∷ u) r s = ground arith
rises-append lo mid hi (e ∷ t) u r s = ground (arith, rises-append (place e + 1) mid hi t u)

rises_widen :
    (lo mid hi : ℕ) (t : List Event) → mid ≤ hi → rises lo mid t ≡ true → rises lo hi t ≡ true
rises_widen lo mid hi [] h r = ground arith
rises_widen lo mid hi (e ∷ t) h r = ground (arith, rises_widen (place e + 1) mid hi t)

module _ (lo mid hi : ℕ) where
  rises-continue {ℓ κ} :
      {A : Type ℓ} {B : Type κ} (t : List Event) (r : Result Failure A) (f : A → Run B)
      → mid ≤ hi
      → rises lo mid t ≡ true
      → ((a : A) → rises mid hi (f a).0 ≡ true)
      → rises lo hi (continue t r f).0 ≡ true
  rises-continue t (ok a) f h r s = rises-append lo mid hi t (f a).0 r (s a)
  rises-continue t (err e) f h r s = rises_widen lo mid hi t h r

  rises-bind {ℓ κ} :
      {A : Type ℓ} {B : Type κ} (m : Run A) (f : A → Run B)
      → mid ≤ hi
      → rises lo mid m.0 ≡ true
      → ((a : A) → rises mid hi (f a).0 ≡ true)
      → rises lo hi (m >>= f).0 ≡ true
  unfolding ◌>>=◌
  rises-bind m f h r s = rises-continue m.0 m.1 f h r s

rises-at_exit :
    (lo : ℕ) (e : Event) (r : Result Failure Exit)
    → lo ≤ place e
    → rises lo (place e + 1) (at_exit e r) ≡ true
rises-at_exit lo e (ok returned) h = ground arith
rises-at_exit lo e (ok replaced) h = ground arith
rises-at_exit lo e (err f) h = ground arith

rises-deferring :
    (lo hi : ℕ) (e : Event) (held : Bool) (m : Run Exit)
    → rises lo hi m.0 ≡ true
    → hi ≤ place e
    → rises lo (place e + 1) (deferring held e m).0 ≡ true
rises-deferring lo hi e true m r k =
    rises-append lo hi (place e + 1) m.0 (at_exit e m.1) r (rises-at_exit hi e m.1 k)
rises-deferring lo hi e false m r k = rises_widen lo hi (place e + 1) m.0 (omega arith) r

module _ (h : Host) (c : Config) where
  rises-start : rises 0 5 (start h c).0 ≡ true
  unfolding start detach ◌>>=◌
  rises-start = ground arith

  rises-mount_own : (mem : MemInfo) → rises 5 6 (mount_own h c mem).0 ≡ true
  unfolding mount_own requested_budget check_headroom ◌>>=◌
  rises-mount_own mem = ground arith

  rises-storage : rises 5 6 (storage h c).0 ≡ true
  unfolding storage ◌>>=◌
  rises-storage = elim (Option-cases h.meminfo) [
    | inl e ↦ rw (e, storage, ◌>>=◌)
    | inr (mem, e) ↦
        ground (arith, rises-mount_own mem, rises-append 5 6 6 (mount_own h c mem).0 [])
  ]

  rises-stage : rises 6 11 (stage h c).0 ≡ true
  unfolding stage ◌>>=◌
  rises-stage = ground arith

  rises-precheck : rises 11 14 (precheck h c).0 ≡ true
  unfolding precheck ◌>>=◌
  rises-precheck = ground arith

  rises-stop_services : rises 14 18 (stop_services h c).0 ≡ true
  unfolding stop_services ◌>>=◌
  rises-stop_services = ground arith

  rises-finish : (launch : Launch) → rises 19 25 (finish h c launch).0 ≡ true
  unfolding finish swap_roots exec_new ◌>>=◌
  rises-finish launch = ground arith

  rises-arm :
      rises 18 19
        (when
          (is_positive c.watchdog_timeout)
          (acquire (arm_watchdog c.watchdog_timeout) h.arms_watchdog arm_failed)).0
      ≡ true
  rises-arm = ground arith

  rises-commit : (launch : Launch) → rises 14 26 (commit h c launch).0 ≡ true
  unfolding commit
  rises-commit launch =
      rises-bind 14 18 26 (stop_services h c) _ (omega arith) rises-stop_services (λ u.
        rises-bind 18 19 26
          (when (is_positive c.watchdog_timeout)
            (acquire (arm_watchdog c.watchdog_timeout) h.arms_watchdog arm_failed))
          _ (omega arith) rises-arm
          (λ u.
            rises-deferring 19 25 disarm_watchdog (is_positive c.watchdog_timeout)
              (finish h c launch) (rises-finish launch) (omega arith)))

  rises-after_storage : rises 6 26 (after_storage h c).0 ≡ true
  unfolding after_storage
  rises-after_storage = rises-bind 6 11 26 (stage h c) _ (omega arith) rises-stage (λ launch.
      rises-bind 11 14 26 (precheck h c) _ (omega arith) rises-precheck (λ u. rises-commit launch))

  rises-check : (b : Bool) (f : Failure) → rises 0 0 (check b f).0 ≡ true
  rises-check b f = ground arith

  rises-run_contain : rises 0 27 (run_contain h c).0 ≡ true
  unfolding run_contain ◌>>=◌
  rises-run_contain = ground arith

  rises-pivot_host : rises 0 27 (pivot_host h c).0 ≡ true
  unfolding pivot_host
  rises-pivot_host =
      rises-bind 0 0 27 (check h.is_root needs_root) _ (omega arith)
        (rises-check h.is_root needs_root)
        (λ u.
          rises-bind 0 0 27 (check c.force needs_force) _ (omega arith)
            (rises-check c.force needs_force)
            (λ u. rises-bind 0 5 27 (start h c) _ (omega arith) rises-start (λ u.
              rises-bind 5 6 27 (storage h c) _ (omega arith) rises-storage (λ held.
                rises-deferring 6 26 unmount_tmpfs held (after_storage h c) rises-after_storage
                  (omega arith)))))

  -- On every path the events come in the order of their places, each at most once: all that is
  -- checked comes before signals are ignored for good, that before services and processes are
  -- stopped, those before the watchdog is armed, that before the mounts change and the roots are
  -- swapped, and that before the supervisor is started; a watchdog is disarmed before the tmpfs is
  -- unmounted, both after all else.
  pub run_pivot_order : rises 0 27 (run_pivot h c).0 ≡ true
  unfolding run_pivot
  run_pivot_order = ground (arith, rises-run_contain, rises-pivot_host)
