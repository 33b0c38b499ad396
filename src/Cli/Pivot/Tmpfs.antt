-- ===== src/Cli/Pivot/Tmpfs.antt =====
-- When the tmpfs that the pivot mounts on the work dir is unmounted again.
use xmorph.Base.{
  Bool, true, false, none, some, List, [], ◌∷◌, ◌++◌, ◌&&◌, not, arith, ◌≡◌, ◌∙◌, Option-cases, inl,
  inr,
}
use xmorph.Base.Int.{is_positive}
use xmorph.Base.Result.{Result, ok, err}
use xmorph.Config.Types.{Config}
use xmorph.Cli.Entrypoint.{Launch}
use xmorph.Cli.Host.{Host}
use xmorph.Cli.Run.{
  Event, unmount_tmpfs, disarm_watchdog, Failure, Run, Exit, ◌>>=◌, deferring, continue, check,
  when, acquire, arm_watchdog, arm_failed, needs_root, needs_force,
}
use xmorph.Cli.Run.Monitor.{
  awaits_unmount, after, did_exec, after-append, after-check, Releases, Releases-bind,
}
use xmorph.Cli.Pivot.HostMounts.{Unmounts, run_pivot-Unmounts}
use xmorph.Cli.Pivot.{
  detach, start, requested_budget, check_headroom, mount_own, storage, stage, precheck,
  stop_services, swap_roots, exec_new, finish, commit, after_storage, run_contain, pivot_host,
  run_pivot,
}
use xmorph.Sysmem.{MemInfo}

-- A part that neither mounts nor unmounts.
abbrev Leaves {ℓ} : {A : Type ℓ} → Run A → Type 0
Leaves m = (b : Bool) → after awaits_unmount b m.0 ≡ b

Leaves-continue {ℓ κ} :
    {A : Type ℓ} {B : Type κ} (t : List Event) (r : Result Failure A) (f : A → Run B)
    → ((b : Bool) → after awaits_unmount b t ≡ b)
    → ((a : A) → Leaves (f a))
    → Leaves (continue t r f)
Leaves-continue t (ok a) f h k b = after-append awaits_unmount b t (f a).0 ∙ rw (h b) (k a b)
Leaves-continue t (err e) f h k b = h b

Leaves-bind {ℓ κ} :
    {A : Type ℓ} {B : Type κ} (m : Run A) (f : A → Run B)
    → Leaves m
    → ((a : A) → Leaves (f a))
    → Leaves (m >>= f)
unfolding ◌>>=◌
Leaves-bind m f h k = Leaves-continue m.0 m.1 f h k

module _ (h : Host) (c : Config) where
  -- The storage is a tmpfs of our own, and no mount that was there already.
  abbrev pub mounts_own : Bool
  mounts_own =
      not c.no_rootfs_tmpfs && elim h.is_mount_point [ none ↦ false | some reused ↦ not reused ]

  stage-Leaves : Leaves (stage h c)
  unfolding stage ◌>>=◌
  stage-Leaves b = ground arith

  precheck-Leaves : Leaves (precheck h c)
  unfolding precheck ◌>>=◌
  precheck-Leaves b = ground arith

  stop_services-Leaves : Leaves (stop_services h c)
  unfolding stop_services ◌>>=◌
  stop_services-Leaves b = ground arith

  finish-Leaves : (launch : Launch) → Leaves (finish h c launch)
  unfolding finish swap_roots exec_new ◌>>=◌
  finish-Leaves launch b = ground arith

  deferring-Leaves :
      (held : Bool) (m : Run Exit) → Leaves m → Leaves (deferring held disarm_watchdog m)
  deferring-Leaves true m k b = after-append awaits_unmount b m.0 _ ∙ ground (arith, k b)
  deferring-Leaves false m k b = k b

  arm-Leaves : Leaves (
      when
        (is_positive c.watchdog_timeout)
        (acquire (arm_watchdog c.watchdog_timeout) h.arms_watchdog arm_failed))
  arm-Leaves b = ground arith

  commit-Leaves : (launch : Launch) → Leaves (commit h c launch)
  unfolding commit
  commit-Leaves launch = Leaves-bind (stop_services h c) _ stop_services-Leaves (λ u.
      Leaves-bind _ _ arm-Leaves (λ u.
        deferring-Leaves (is_positive c.watchdog_timeout) (finish h c launch)
          (finish-Leaves launch)))

  after_storage-Leaves : Leaves (after_storage h c)
  unfolding after_storage
  after_storage-Leaves =
      Leaves-bind (stage h c) _ stage-Leaves
        (λ launch. Leaves-bind (precheck h c) _ precheck-Leaves (λ u. commit-Leaves launch))

  start_releases : after awaits_unmount false (start h c).0 ≡ false
  unfolding start detach ◌>>=◌
  start_releases = ground arith

  mount_own_awaits :
      (mem : MemInfo)
      → after awaits_unmount false (mount_own h c mem).0
        ≡ elim (mount_own h c mem).1 [ ok u ↦ true | err e ↦ false ]
  unfolding mount_own requested_budget check_headroom ◌>>=◌
  mount_own_awaits mem = ground arith

  -- What the state of the tmpfs is after `storage`, by its result.
  abbrev IsStored : Result Failure Bool → Bool → Type 0
  IsStored (ok held) b = (b ≡ held) × (held ≡ mounts_own)
  IsStored (err e) b = b ≡ false

  storage-IsStored : IsStored (storage h c).1 (after awaits_unmount false (storage h c).0)
  unfolding storage ◌>>=◌
  storage-IsStored = elim (Option-cases h.meminfo) [
    | inl e ↦ rw (e, storage, ◌>>=◌)
    | inr (mem, e) ↦
        ground
          (arith, mount_own_awaits mem, after-append awaits_unmount false (mount_own h c mem).0 [])
  ]

  with_storage-Releases :
      Releases awaits_unmount mounts_own
        (storage h c >>= (λ held. deferring held unmount_tmpfs (after_storage h c)))
  unfolding ◌>>=◌
  with_storage-Releases = ground (
    arith,
    storage-IsStored,
    after-append awaits_unmount false (storage h c).0 (after_storage h c).0,
    after-append awaits_unmount false (storage h c).0
        ((after_storage h c).0 ++ (unmount_tmpfs ∷ [])),
    after-append awaits_unmount false (storage h c).0 ((after_storage h c).0 ++ []),
    after-append awaits_unmount (after awaits_unmount false (storage h c).0) (after_storage h c).0
        (unmount_tmpfs ∷ []),
    after-append awaits_unmount (after awaits_unmount false (storage h c).0) (after_storage h c).0
        [],
    after_storage-Leaves false,
    after_storage-Leaves true,
  )

  run_contain-Releases : Releases awaits_unmount mounts_own (run_contain h c)
  unfolding run_contain ◌>>=◌
  run_contain-Releases = ground arith

  pivot_host-Releases : Releases awaits_unmount mounts_own (pivot_host h c)
  unfolding pivot_host
  pivot_host-Releases =
      Releases-bind awaits_unmount mounts_own (check h.is_root needs_root) _
        (after-check awaits_unmount h.is_root needs_root)
        (λ u e.
          Releases-bind awaits_unmount mounts_own (check c.force needs_force) _
            (after-check awaits_unmount c.force needs_force)
            (λ u e.
              Releases-bind awaits_unmount mounts_own (start h c) _ start_releases
                (λ u e. with_storage-Releases)))

  run_pivot_releases :
      after awaits_unmount false (run_pivot h c).0 ≡ (did_exec (run_pivot h c).1 && mounts_own)
  unfolding run_pivot
  run_pivot_releases = ground (arith, run_contain-Releases, pivot_host-Releases)

  -- On every return after the pivot has mounted its tmpfs the unmount is called, and only then; if the
  -- supervisor takes over it is never called, and the tmpfs is kept exactly if the storage is one of
  -- our own. Whether that call takes the tmpfs from the host's mounts is not for the pivot to say:
  -- its error is dropped, and once Prepare has made a mount namespace of its own it acts there. So,
  -- with `unmounts` for its effect before and after Prepare was called, the host has the tmpfs at the
  -- end exactly if it was mounted and either the supervisor took over or the call had no effect on
  -- the host.
  pub run_pivot-tmpfs :
      (unmounts : Bool → Bool)
      → (after awaits_unmount false (run_pivot h c).0 ≡ (did_exec (run_pivot h c).1 && mounts_own))
        × Unmounts unmounts (run_pivot h c)
  run_pivot-tmpfs unmounts = (run_pivot_releases, run_pivot-Unmounts unmounts h c)
