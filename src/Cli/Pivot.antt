-- ===== src/Cli/Pivot.antt =====
-- internal/cli/pivot.go: `runPivot` and `runContain`, stage by stage in the order of the source.
pub mod Ready
pub mod Handed
pub mod Handover
pub mod Machine
pub mod Staged
pub mod Release
pub mod HostMounts
pub mod Tmpfs
pub mod Order
pub mod Success
use xmorph.Base.{
  ℕ, Bool, true, false, Option, none, some, List, [], ◌∷◌, ◌++◌, ◌&&◌, ◌||◌, not, ◌==◌,
  if◌then◌else◌,
}
use xmorph.Base.Bytes.{Bytes, codes, is_empty}
use xmorph.Base.Int.{is_positive}
use xmorph.Base.Result.{Result, ok, err}
use xmorph.Config.Types.{Config, tailscale_enabled}
use xmorph.Config.Size.{SizeError, parse_size}
use xmorph.Cli.Entrypoint.{
  Launch, resolve_entrypoint, survives_detach, ssh_port, ensure_ssh_usable, build_postpivot_config,
}
use xmorph.Cli.Host.{Host}
use xmorph.Cli.Run.{
  Event, print_plan, open_log, relocate_scope, wait_grace, ignore_hangup, make_work_dir,
  clean_work_dir, build_rootfs, contain, copy_binary, write_resolv_conf, pre_auth, probe_watchdog,
  mount_tmpfs, unmount_tmpfs, announce_password, write_config, probe_log_dir, ignore_terminate,
  isolate_services, wait_services, terminate_processes, arm_watchdog, disarm_watchdog,
  prepare_mounts, make_old_root, flush_log, pivot_root, cleanup_old_root, exec_supervisor,
}
use xmorph.Cli.Run.{
  Failure, needs_root, needs_force, work_dir_failed, no_meminfo, statfs_failed, mount_point_failed,
  clean_failed, bad_rootfs_size, no_ram, insufficient_headroom, mount_failed, build_failed,
  contain_failed, entrypoint_is_shell, no_password, config_failed, binary_failed, resolv_failed,
  auth_failed, watchdog_missing, needs_old_root, log_dir_failed, arm_failed, prepare_failed,
  old_root_failed, pivot_failed, exec_failed, Exit, returned, replaced,
}
use xmorph.Cli.Run.{Run, pure, fail, ◌>>=◌, ◌>>◌, emit, call, acquire, check, when, deferring}
use xmorph.Path.{join_all}
use xmorph.Postpivot.InitConfig.{binary_path}
use xmorph.Sysmem.{MemInfo, recommend_rootfs_bytes, headroom_check}

abbrev from_some {ℓ} : {A : Type ℓ} → Option A → Failure → Run A
from_some none f = fail f
from_some (some a) f = pure a

abbrev or_zero : Option ℕ → ℕ
or_zero none = 0
or_zero (some n) = n

module _ (h : Host) (c : Config) where
  -- Whether the process was moved out of the launching session's scope.
  unfoldable pub detach : Run Bool
  detach =
      if not c.systemd_mode && h.is_systemd
      then (relocate_scope ∷ [], ok h.relocates)
      else pure false

  -- From the log sink to the work dir.
  unfoldable pub start : Run (Unit {0})
  start = do
    when (not (is_empty c.log_dir) && h.has_log_handler) (emit open_log)
    detached ← detach
    when (h.over_ssh && not detached) (emit wait_grace)
    emit ignore_hangup
    call make_work_dir h.makes_dir work_dir_failed

  -- The size that was asked for, or the recommended one.
  unfoldable pub requested_budget : MemInfo → Run ℕ
  requested_budget mem =
      if is_empty c.rootfs_size
      then pure (recommend_rootfs_bytes mem)
      else elim (parse_size h.floats c.rootfs_size mem.total) [
        | ok n ↦ pure n
        | err e ↦ fail bad_rootfs_size
      ]

  unfoldable pub check_headroom : MemInfo → ℕ → Run (Unit {0})
  check_headroom mem budget = elim (headroom_check mem budget) [
    | ok warn ↦ pure tt
    | err e ↦ fail insufficient_headroom
  ]

  unfoldable pub mount_own : MemInfo → Run (Unit {0})
  mount_own mem = do
    budget ← requested_budget mem
    check (not (budget == 0)) no_ram
    check_headroom mem budget
    acquire (mount_tmpfs budget) h.mounts_tmpfs mount_failed

  -- Whether a tmpfs was mounted on the work dir, which has to be unmounted on an abort.
  unfoldable pub storage : Run Bool
  storage = do
    mem ← from_some h.meminfo no_meminfo
    if c.no_rootfs_tmpfs then (do free ← from_some h.free_bytes statfs_failed; pure false) else (do
      mounted ← from_some h.is_mount_point mount_point_failed
      if mounted
          then (do call clean_work_dir h.cleans clean_failed; pure false)
          else (do mount_own mem; pure true))

  -- Build, the configuration for after the pivot, and the files that it needs.
  unfoldable pub stage : Run Launch
  stage = do
    built ←
        (build_rootfs ∷ [], elim (h.builds c.layers) [ none ↦ err build_failed | some ic ↦ ok ic ])
    let launch : Launch = resolve_entrypoint c built
    check (survives_detach h.stdin_is_terminal c launch.entrypoint) entrypoint_is_shell
    usable ← from_some (ensure_ssh_usable h.passphrase c) no_password
    when (not (is_empty usable.1)) (emit (announce_password usable.1 (ssh_port usable.0)))
    let written = build_postpivot_config usable.0 launch.entrypoint launch.args
    call (write_config written) (h.writes_config written) config_failed
    call copy_binary h.copies_binary binary_failed
    call write_resolv_conf h.writes_resolv_conf resolv_failed
    pure launch

  unfoldable pub persist_dir : Bytes
  persist_dir = join_all (codes "/" ∷ c.log_persist_device ∷ c.log_persist_path ∷ [])

  -- What can be checked while the old system is alive.
  unfoldable pub precheck : Run (Unit {0})
  precheck = do
    when (tailscale_enabled c) (call pre_auth h.authenticates auth_failed)
    when (is_positive c.watchdog_timeout) (call probe_watchdog h.has_watchdog watchdog_missing)
    when (not (is_empty c.log_persist_path)) (do
      check (not (is_empty c.keep_old_root)) needs_old_root
      call (probe_log_dir persist_dir) (h.log_dir_writable persist_dir) log_dir_failed)

  -- From here on the pivot is not to be interrupted. Errors are logged and passed over.
  unfoldable pub stop_services : Run (Unit {0})
  stop_services = do
    emit ignore_terminate
    when (not c.systemd_mode) (do
      when (not c.no_init_coord && not h.in_container)
          (do emit isolate_services; emit wait_services)
      emit (terminate_processes c.timeout))

  unfoldable pub swap_roots : Run (Unit {0})
  swap_roots = do
    call prepare_mounts h.prepares prepare_failed
    call make_old_root h.makes_old_root old_root_failed
    when h.has_log_handler (emit flush_log)
    call pivot_root h.pivots pivot_failed
    when (is_empty c.keep_old_root) (emit cleanup_old_root)

  unfoldable pub exec_new : Launch → Run Exit
  exec_new launch =
      let argv = binary_path ∷ codes "--init" ∷ launch.entrypoint ∷ launch.args in
      (
        exec_supervisor argv (is_positive c.watchdog_timeout) ∷ [],
        if h.execs then ok replaced else err exec_failed,
      )

  -- With the watchdog armed or not needed.
  unfoldable pub finish : Launch → Run Exit
  finish launch = do swap_roots; exec_new launch

  unfoldable pub commit : Launch → Run Exit
  commit launch = do
    stop_services
    when (is_positive c.watchdog_timeout)
        (acquire (arm_watchdog c.watchdog_timeout) h.arms_watchdog arm_failed)
    deferring (is_positive c.watchdog_timeout) disarm_watchdog (finish launch)

  unfoldable pub after_storage : Run Exit
  after_storage = do launch ← stage; precheck; commit launch

  unfoldable pub run_contain : Run Exit
  run_contain = do
    check h.is_root needs_root
    call clean_work_dir h.cleans clean_failed
    built ←
        (build_rootfs ∷ [], elim (h.builds c.layers) [ none ↦ err build_failed | some ic ↦ ok ic ])
    call contain h.contains contain_failed
    pure returned

  -- Neither a dry run nor contained.
  unfoldable pub pivot_host : Run Exit
  pivot_host = do
    check h.is_root needs_root
    check c.force needs_force
    start
    mounted ← storage
    deferring mounted unmount_tmpfs after_storage

  unfoldable pub run_pivot : Run Exit
  run_pivot =
      if c.dry_run
      then (print_plan ∷ [], ok returned)
      else if c.contain
      then run_contain
      else pivot_host
