-- ===== src/Cli/Pivot/Ready.antt =====
-- When the pivot acts at all, and when it passes the point of no safe abort.
use xmorph.Base.{
  ℕ, Bool, true, false, Option, none, some, [], ◌&&◌, ◌||◌, not, ◌==◌, if◌then◌else◌, any,
  any-append, arith, ◌≡◌, refl, ◌∙◌, ap, Option-cases, inl, inr,
}
use mathlib.Core.Path.{fun_ext}
use xmorph.Base.Bytes.{is_empty}
use xmorph.Base.Int.{is_positive}
use xmorph.Base.Result.{ok, err}
use xmorph.Config.Types.{Config, tailscale_enabled, is_some}
use xmorph.Config.Size.{parse_size}
use xmorph.Cli.Entrypoint.{
  Launch, resolve_entrypoint, survives_detach, ensure_ssh_usable, build_postpivot_config,
}
use xmorph.Cli.Host.{Host}
use xmorph.Cli.Run.{
  Event, print_plan, ignore_terminate, isolate_services, wait_services, terminate_processes,
  arm_watchdog, prepare_mounts, pivot_root, exec_supervisor, unmount_tmpfs, Failure, needs_root,
  needs_force, Run, ◌>>=◌, ◌>>◌, check, deferring, Exit,
}
use xmorph.Cli.Run.Trace.{any-bind, test}
use xmorph.Cli.Pivot.{
  detach, start, requested_budget, check_headroom, mount_own, storage, stage, persist_dir, precheck,
  stop_services, commit, after_storage, run_contain, pivot_host, run_pivot,
}
use xmorph.Oci.ImageConfig.{ImageConfig}
use xmorph.Sysmem.{MemInfo, recommend_rootfs_bytes, headroom_check}

-- Anything but the print of a dry run.
abbrev pub is_act : Event → Bool
is_act print_plan = false
is_act _ = true

-- The destructive steps, those behind the point of no safe abort. What comes before it, such as the
-- move to a scope, the tmpfs, the emptying of a reused work dir and the probe of the watchdog, is not
-- among them.
abbrev pub is_destructive : Event → Bool
is_destructive ignore_terminate = true
is_destructive isolate_services = true
is_destructive wait_services = true
is_destructive (terminate_processes t) = true
is_destructive (arm_watchdog t) = true
is_destructive prepare_mounts = true
is_destructive pivot_root = true
is_destructive (exec_supervisor argv watchdog) = true
is_destructive _ = false

any-check :
    (b : Bool) (f : Failure) (k : Run Exit)
    → any is_destructive (check b f >> k).0 ≡ (b && any is_destructive k.0)
unfolding ◌>>=◌
any-check b f k = ground arith

any-check-is_act :
    (b : Bool) (f : Failure) (k : Run Exit) → any is_act (check b f >> k).0 ≡ (b && any is_act k.0)
unfolding ◌>>=◌
any-check-is_act b f k = ground arith

module _ (h : Host) (c : Config) where
  -- The size of the rootfs, if the operator gave none or one that can be read.
  unfoldable pub budget_for : MemInfo → Option ℕ
  budget_for mem =
      if is_empty c.rootfs_size
      then some (recommend_rootfs_bytes mem)
      else elim (parse_size h.floats c.rootfs_size mem.total) [ ok n ↦ some n | err e ↦ none ]

  unfoldable pub fits : MemInfo → Bool
  fits mem = elim (budget_for mem) [
    | none ↦ false
    | some n ↦ not (n == 0) && elim (headroom_check mem n) [ ok w ↦ true | err e ↦ false ]
  ]

  -- There is room for the new root, on a tmpfs of its own or where the operator says.
  unfoldable pub has_storage : Bool
  has_storage = elim h.meminfo [
    | none ↦ false
    | some mem ↦ if c.no_rootfs_tmpfs then is_some h.free_bytes else elim h.is_mount_point [
      | none ↦ false
      | some true ↦ h.cleans
      | some false ↦ fits mem && h.mounts_tmpfs
    ]
  ]

  abbrev pub can_stage : Option ImageConfig → Bool
  can_stage built =
      let launch = resolve_entrypoint c built in
      survives_detach h.stdin_is_terminal c launch.entrypoint
      && elim (ensure_ssh_usable h.passphrase c) [
        | none ↦ false
        | some usable ↦
            h.writes_config (build_postpivot_config usable.0 launch.entrypoint launch.args)
            && (h.copies_binary && h.writes_resolv_conf)
      ]

  -- The rootfs was built, and is one that can be reached and started.
  unfoldable pub has_stage : Bool
  has_stage = elim (h.builds c.layers) [ none ↦ false | some built ↦ can_stage built ]

  -- Tailscale, the watchdog and the log directory are there if they were asked for.
  unfoldable pub has_services : Bool
  has_services =
      (not (tailscale_enabled c) || h.authenticates)
      && ((not (is_positive c.watchdog_timeout) || h.has_watchdog)
          && (is_empty c.log_persist_path
              || (not (is_empty c.keep_old_root) && h.log_dir_writable (persist_dir h c))))

  unfoldable pub is_ready : Bool
  is_ready =
      not c.dry_run
      && (not c.contain
          && (h.is_root
              && (c.force && (h.makes_dir && (has_storage && (has_stage && has_services))))))

  any-start : any is_destructive (start h c).0 ≡ false
  unfolding start detach ◌>>=◌
  any-start = ground arith

  pub test-start : (b : Bool) → test (λ u. b) (start h c).1 ≡ (h.makes_dir && b)
  unfolding start detach ◌>>=◌
  test-start b = ground arith

  any-mount_own : (mem : MemInfo) → any is_destructive (mount_own h c mem).0 ≡ false
  unfolding mount_own requested_budget check_headroom ◌>>=◌
  any-mount_own mem = ground arith

  test-mount_own :
      (mem : MemInfo) (b : Bool)
      → test (λ u. b) (mount_own h c mem).1 ≡ ((fits mem && h.mounts_tmpfs) && b)
  unfolding mount_own requested_budget check_headroom ◌>>=◌ fits budget_for
  test-mount_own mem b = ground arith

  any-storage : any is_destructive (storage h c).0 ≡ false
  unfolding storage ◌>>=◌
  any-storage = elim (Option-cases h.meminfo) [
    | inl e ↦ rw (e, storage, ◌>>=◌)
    | inr (mem, e) ↦
        ground (arith, any-mount_own mem, any-append is_destructive (mount_own h c mem).0 [])
  ]

  pub test-storage : (b : Bool) → test (λ u. b) (storage h c).1 ≡ (has_storage && b)
  unfolding storage ◌>>=◌ has_storage
  test-storage b = elim (Option-cases h.meminfo) [
    | inl e ↦ ground arith
    | inr (mem, e) ↦ ground (arith, test-mount_own mem b)
  ]

  any-stage : any is_destructive (stage h c).0 ≡ false
  unfolding stage ◌>>=◌
  any-stage = ground arith

  pub test-stage : (b : Bool) → test (λ u. b) (stage h c).1 ≡ (has_stage && b)
  unfolding stage ◌>>=◌ has_stage
  test-stage b = ground arith

  any-precheck : any is_destructive (precheck h c).0 ≡ false
  unfolding precheck ◌>>=◌
  any-precheck = ground arith

  pub test-precheck : (b : Bool) → test (λ u. b) (precheck h c).1 ≡ (has_services && b)
  unfolding precheck ◌>>=◌ has_services
  test-precheck b = ground arith

  any-commit : (launch : Launch) → any is_destructive (commit h c launch).0 ≡ true
  unfolding commit stop_services ◌>>=◌
  any-commit launch = ground arith

  any-precheck-commit :
      (launch : Launch)
      → any is_destructive (precheck h c >>= (λ u. commit h c launch)).0 ≡ has_services
  any-precheck-commit launch =
      any-bind is_destructive (precheck h c) (λ u. commit h c launch)
      ∙ rw any-precheck (rw any-commit (test-precheck true ∙ ground arith))

  any-after_storage : any is_destructive (after_storage h c).0 ≡ (has_stage && has_services)
  unfolding after_storage
  any-after_storage =
      any-bind is_destructive (stage h c) (λ launch. precheck h c >>= (λ u. commit h c launch))
      ∙ rw any-stage (
          ap (λ (f : Launch → Bool). test f (stage h c).1) (fun_ext any-precheck-commit)
          ∙ test-stage has_services)

  any-deferring :
      (held : Bool) (m : Run Exit)
      → any is_destructive (deferring held unmount_tmpfs m).0 ≡ any is_destructive m.0
  any-deferring true m = any-append is_destructive m.0 _ ∙ ground arith
  any-deferring false m = refl

  any-run_contain : any is_destructive (run_contain h c).0 ≡ false
  unfolding run_contain ◌>>=◌
  any-run_contain = ground arith

  abbrev with_storage : Run Exit
  with_storage = storage h c >>= (λ mounted. deferring mounted unmount_tmpfs (after_storage h c))

  any-with_storage :
      any is_destructive with_storage.0 ≡ (has_storage && (has_stage && has_services))
  any-with_storage =
      any-bind is_destructive (storage h c)
        (λ mounted. deferring mounted unmount_tmpfs (after_storage h c))
      ∙ rw any-storage (
          ap (λ (f : Bool → Bool). test f (storage h c).1)
            (fun_ext (λ mounted. any-deferring mounted (after_storage h c) ∙ any-after_storage))
          ∙ test-storage (has_stage && has_services))

  any-start-with_storage :
      any is_destructive (start h c >>= (λ u. with_storage)).0
      ≡ (h.makes_dir && (has_storage && (has_stage && has_services)))
  any-start-with_storage =
      any-bind is_destructive (start h c) (λ u. with_storage)
      ∙ rw any-start (rw any-with_storage (test-start (has_storage && (has_stage && has_services))))

  acts-start : any is_act (start h c).0 ≡ true
  unfolding start detach ◌>>=◌
  acts-start = ground arith

  acts-start-bind : (k : Run Exit) → any is_act (start h c >>= (λ u. k)).0 ≡ true
  acts-start-bind k = any-bind is_act (start h c) (λ u. k) ∙ rw acts-start refl

  acts-run_contain : any is_act (run_contain h c).0 ≡ h.is_root
  unfolding run_contain ◌>>=◌
  acts-run_contain = ground arith

  run_pivot_acts :
      any is_act (run_pivot h c).0 ≡ (not c.dry_run && (h.is_root && (c.contain || c.force)))
  unfolding run_pivot pivot_host
  run_pivot_acts = ground (
    arith,
    acts-run_contain,
    any-check-is_act h.is_root needs_root
        (check c.force needs_force >> (start h c >>= (λ u. with_storage))),
    any-check-is_act c.force needs_force (start h c >>= (λ u. with_storage)),
    acts-start-bind with_storage,
  )

  run_pivot_destroys : any is_destructive (run_pivot h c).0 ≡ is_ready
  unfolding run_pivot pivot_host is_ready
  run_pivot_destroys = ground (
    arith,
    any-run_contain,
    any-check h.is_root needs_root
        (check c.force needs_force >> (start h c >>= (λ u. with_storage))),
    any-check c.force needs_force (start h c >>= (λ u. with_storage)),
    any-start-with_storage,
  )

  -- The pivot does anything beyond printing the plan of a dry run exactly if it is no dry run, runs as root, and is contained or has --force. It
  -- takes a step behind the point of no safe abort (it stops heeding SIGTERM, stops services,
  -- terminates processes, arms the watchdog, prepares the mounts of the new root, pivots or replaces
  -- itself) exactly if moreover it is not contained, has --force, and every check passes: the work
  -- dir, the room for the rootfs, the build, an entrypoint that survives, a login, the staged files,
  -- Tailscale, the watchdog, the log directory.
  pub run_pivot-is_ready :
      (any is_act (run_pivot h c).0 ≡ (not c.dry_run && (h.is_root && (c.contain || c.force))))
      × (any is_destructive (run_pivot h c).0 ≡ is_ready)
  run_pivot-is_ready = (run_pivot_acts, run_pivot_destroys)
