-- ===== src/Cli/Pivot/Success.antt =====
-- When the supervisor takes over.
use mathlib.Core.Path.{fun_ext}
use xmorph.Base.{Bool, true, false, List, ◌&&◌, ◌||◌, not, arith, ◌≡◌, refl, ◌∙◌, ap}
use xmorph.Base.Int.{is_positive}
use xmorph.Base.Result.{Result, ok, err}
use xmorph.Config.Types.{Config}
use xmorph.Cli.Entrypoint.{Launch}
use xmorph.Cli.Host.{Host}
use xmorph.Cli.Run.{
  Event, unmount_tmpfs, Failure, Run, Exit, ◌>>=◌, deferring, continue, check, needs_root,
  needs_force,
}
use xmorph.Cli.Run.Monitor.{did_exec}
use xmorph.Cli.Run.Trace.{test}
use xmorph.Cli.Pivot.{
  start, storage, stage, precheck, stop_services, swap_roots, exec_new, finish, commit,
  after_storage, run_contain, pivot_host, run_pivot,
}
use xmorph.Cli.Pivot.Ready.{
  has_storage, has_stage, has_services, is_ready, test-start, test-storage, test-stage,
  test-precheck,
}

did_exec-continue {ℓ} :
    {A : Type ℓ} (t : List Event) (r : Result Failure A) (f : A → Run Exit)
    → did_exec (continue t r f).1 ≡ test (λ a. did_exec (f a).1) r
did_exec-continue t (ok a) f = refl
did_exec-continue t (err e) f = refl

-- A sequence ends in the supervisor if its first part succeeds and its rest does.
did_exec-bind {ℓ} :
    {A : Type ℓ} (m : Run A) (f : A → Run Exit)
    → did_exec (m >>= f).1 ≡ test (λ a. did_exec (f a).1) m.1
unfolding ◌>>=◌
did_exec-bind m f = did_exec-continue m.0 m.1 f

did_exec-constant {ℓ} :
    {A : Type ℓ} (m : Run A) (f : A → Run Exit) (b : Bool)
    → ((a : A) → did_exec (f a).1 ≡ b)
    → did_exec (m >>= f).1 ≡ test (λ a. b) m.1
did_exec-constant {A} m f b k = did_exec-bind m f ∙ ap (λ (g : A → Bool). test g m.1) (fun_ext k)

test-check : (k : Bool) (f : Failure) (b : Bool) → test (λ u. b) (check k f).1 ≡ (k && b)
test-check true f b = refl
test-check false f b = refl

module _ (h : Host) (c : Config) where
  -- Each step after the services are stopped succeeds.
  abbrev pub can_swap : Bool
  can_swap =
      (not (is_positive c.watchdog_timeout) || h.arms_watchdog)
      && (h.prepares && (h.makes_old_root && (h.pivots && h.execs)))

  did_exec-commit : (launch : Launch) → did_exec (commit h c launch).1 ≡ can_swap
  unfolding commit stop_services finish swap_roots exec_new ◌>>=◌
  did_exec-commit launch = ground arith

  did_exec-after_storage :
      did_exec (after_storage h c).1 ≡ (has_stage h c && (has_services h c && can_swap))
  unfolding after_storage
  did_exec-after_storage =
      did_exec-constant (stage h c) _ (has_services h c && can_swap) (λ launch.
        did_exec-constant (precheck h c) _ can_swap (λ u. did_exec-commit launch)
        ∙ test-precheck h c can_swap)
      ∙ test-stage h c (has_services h c && can_swap)

  abbrev later : Bool
  later = has_stage h c && (has_services h c && can_swap)

  did_exec-start :
      did_exec
        (start h c
          >>= (λ u. storage h c >>= (λ held. deferring held unmount_tmpfs (after_storage h c)))).1
      ≡ (h.makes_dir && (has_storage h c && later))
  did_exec-start =
      did_exec-constant (start h c) _ (has_storage h c && later) (λ u.
        did_exec-constant (storage h c) _ later (λ held. did_exec-after_storage)
        ∙ test-storage h c later)
      ∙ test-start h c (has_storage h c && later)

  did_exec-run_contain : did_exec (run_contain h c).1 ≡ false
  unfolding run_contain ◌>>=◌
  did_exec-run_contain = ground arith

  did_exec-pivot_host :
      did_exec (pivot_host h c).1
      ≡ (h.is_root && (c.force && (h.makes_dir && (has_storage h c && later))))
  unfolding pivot_host
  did_exec-pivot_host =
      did_exec-constant (check h.is_root needs_root) _
        (c.force && (h.makes_dir && (has_storage h c && later)))
        (λ u.
          did_exec-constant (check c.force needs_force) _
            (h.makes_dir && (has_storage h c && later)) (λ u. did_exec-start)
          ∙ test-check c.force needs_force _)
      ∙ test-check h.is_root needs_root _

  -- The supervisor takes over exactly if every check before the point of no return passes, and
  -- every step after it: the watchdog is armed if it was asked for, the mounts are prepared, the
  -- mount point for the old root is made, the roots are swapped and the supervisor is executed.
  -- No failure to stop services or processes keeps it from that.
  pub run_pivot-did_exec : did_exec (run_pivot h c).1 ≡ (is_ready h c && can_swap)
  unfolding run_pivot is_ready
  run_pivot-did_exec = ground (arith, did_exec-run_contain, did_exec-pivot_host)
