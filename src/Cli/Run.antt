-- ===== src/Cli/Run.antt =====
-- The pivot as a program with effects: what it does to the machine is the list of its events, in
-- order, beside what it returns. A call that fails has its event too, since it was attempted, except
-- for the two resources that are released again: those events say that the resource is held.
pub mod Trace
pub mod Monitor
use xmorph.Base.{ℕ, Bool, true, false, List, [], ◌∷◌, ◌++◌, if◌then◌else◌}
use xmorph.Base.Bytes.{Bytes}
use xmorph.Base.Int.{ℤ}
use xmorph.Base.Result.{Result, ok, err}
use xmorph.Postpivot.InitConfig.{InitConfig}

pub data Event : Type 0 where
  print_plan open_log relocate_scope wait_grace ignore_hangup make_work_dir : Event
  clean_work_dir build_rootfs contain copy_binary write_resolv_conf pre_auth probe_watchdog : Event
  mount_tmpfs : ℕ → Event
  unmount_tmpfs : Event
  announce_password : Bytes → ℕ → Event
  write_config : InitConfig → Event
  probe_log_dir : Bytes → Event
  ignore_terminate isolate_services wait_services : Event
  terminate_processes : ℕ → Event
  arm_watchdog : ℤ → Event
  disarm_watchdog prepare_mounts make_old_root flush_log pivot_root cleanup_old_root : Event
  exec_supervisor : List Bytes → Bool → Event

pub data Failure : Type 0 where
  needs_root needs_force work_dir_failed no_meminfo statfs_failed mount_point_failed : Failure
  clean_failed bad_rootfs_size no_ram insufficient_headroom mount_failed build_failed : Failure
  contain_failed entrypoint_is_shell no_password config_failed binary_failed resolv_failed : Failure
  auth_failed watchdog_missing needs_old_root log_dir_failed arm_failed prepare_failed : Failure
  old_root_failed pivot_failed exec_failed : Failure

-- `replaced`: the process image is the supervisor's now, and nothing is returned to.
pub data Exit : Type 0 where
  returned replaced : Exit

abbrev pub Run {ℓ} : Type ℓ → Type ℓ
Run A = List Event × Result Failure A

abbrev pub pure {ℓ} : {A : Type ℓ} → A → Run A
pure a = ([], ok a)

abbrev pub fail {ℓ} : {A : Type ℓ} → Failure → Run A
fail e = ([], err e)

-- The rest runs only if no error was returned.
abbrev pub continue {ℓ κ} :
    {A : Type ℓ} {B : Type κ} → List Event → Result Failure A → (A → Run B) → Run B
continue t (ok a) f = (t ++ (f a).0, (f a).1)
continue t (err e) f = (t, err e)

infixl 5 ◌>>=◌
unfoldable pub ◌>>=◌ {ℓ κ} : {A : Type ℓ} {B : Type κ} → Run A → (A → Run B) → Run B
run >>= next = continue run.0 run.1 next

infixl 5 ◌>>◌
abbrev pub ◌>>◌ {κ} : {B : Type κ} → Run (Unit {0}) → Run B → Run B
first >> rest = first >>= (λ done. rest)

abbrev pub emit : Event → Run (Unit {0})
emit e = (e ∷ [], ok tt)

-- A call that returns an error, which ends the pivot, or none.
abbrev pub call : Event → Bool → Failure → Run (Unit {0})
call e true f = (e ∷ [], ok tt)
call e false f = (e ∷ [], err f)

-- A call that acquires a resource.
abbrev pub acquire : Event → Bool → Failure → Run (Unit {0})
acquire e true f = (e ∷ [], ok tt)
acquire e false f = ([], err f)

abbrev pub check : Bool → Failure → Run (Unit {0})
check true f = ([], ok tt)
check false f = ([], err f)

abbrev pub when : Bool → Run (Unit {0}) → Run (Unit {0})
when b m = if b then m else ([], ok tt)

-- What a `defer` adds, by the way in which the function ends.
abbrev pub at_exit : Event → Result Failure Exit → List Event
at_exit e (ok replaced) = []
at_exit e (ok returned) = e ∷ []
at_exit e (err f) = e ∷ []

abbrev pub deferring : Bool → Event → Run Exit → Run Exit
deferring held e m = (if held then m.0 ++ at_exit e m.1 else m.0, m.1)
