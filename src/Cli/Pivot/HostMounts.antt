-- ===== src/Cli/Pivot/HostMounts.antt =====
-- The tmpfs on the work dir in the mounts of the host, along the events of a pivot.
use xmorph.Base.{
  Bool, true, false, List, [], ◌∷◌, ◌++◌, ◌&&◌, ◌||◌, not, if◌then◌else◌, any, any-append, arith,
  ◌≡◌, refl, ◌∙◌, Option-cases, inl, inr,
}
use xmorph.Base.Result.{Result, ok, err}
use xmorph.Config.Types.{Config}
use xmorph.Cli.Entrypoint.{Launch}
use xmorph.Cli.Host.{Host}
use xmorph.Cli.Run.{
  Event, mount_tmpfs, unmount_tmpfs, prepare_mounts, Failure, Run, Exit, returned, replaced, ◌>>=◌,
  deferring, continue, check, needs_root, needs_force,
}
use xmorph.Cli.Run.Monitor.{did_exec}
use xmorph.Cli.Run.Trace.{any-bind, test}
use xmorph.Cli.Pivot.{
  detach, start, requested_budget, check_headroom, mount_own, storage, stage, precheck,
  stop_services, swap_roots, exec_new, finish, commit, after_storage, run_contain, pivot_host,
  run_pivot,
}
use xmorph.Sysmem.{MemInfo}

abbrev pub is_mount : Event → Bool
is_mount (mount_tmpfs size) = true
is_mount _ = false

abbrev pub is_unmount : Event → Bool
is_unmount unmount_tmpfs = true
is_unmount _ = false

abbrev pub is_prepare : Event → Bool
is_prepare prepare_mounts = true
is_prepare _ = false

-- Whether the host has our tmpfs mounted, and whether Prepare, which makes a mount namespace of its
-- own, was called.
pub record Mounts : Type 0 where
  pub mounted : Bool
  pub prepared : Bool

module _ (unmounts : Bool → Bool) where
  -- `unmounts` says if the call of UnmountTmpfs takes the tmpfs from the mounts of the host, by
  -- whether Prepare was called before: the call may fail, or act in the namespace of the pivot only.
  abbrev pub observe : Mounts → Event → Mounts
  observe s e = record {
    mounted =
        if is_mount e
        then true
        else if is_unmount e
        then s.mounted && not (unmounts s.prepared)
        else s.mounted;
    prepared = s.prepared || is_prepare e;
  }

  abbrev pub observe_all : Mounts → List Event → Mounts
  observe_all s [] = s
  observe_all s (e ∷ es) = observe_all (observe s e) es

  observe_all-append :
      (s : Mounts) (t u : List Event) → observe_all s (t ++ u) ≡ observe_all (observe_all s t) u
  observe_all-append s [] u = refl
  observe_all-append s (e ∷ t) u = observe_all-append (observe s e) t u

abbrev nothing_yet : Mounts
nothing_yet = record { mounted = false; prepared = false }

abbrev touches : Event → Bool
touches e = is_mount e || is_unmount e

abbrev is_loud : Event → Bool
is_loud e = touches e || is_prepare e

any_or : (p q : Event → Bool) (t : List Event) → any (λ e. p e || q e) t ≡ (any p t || any q t)
any_or p q [] = refl
any_or p q (e ∷ t) = rw (any_or p q t) (swap_or (p e) (q e) (any p t) (any q t))
  where
    swap_or : (a b c d : Bool) → ((a || b) || (c || d)) ≡ ((a || c) || (b || d))
    swap_or a b c d = ground arith

loud_parts :
    (t : List Event)
    → any is_loud t ≡ false
    → (any is_mount t ≡ false) × (any is_unmount t ≡ false) × (any is_prepare t ≡ false)
loud_parts t h = ground (arith, h, any_or touches is_prepare t, any_or is_mount is_unmount t)

module _ (unmounts : Bool → Bool) where
  -- Until the unmount, the mounts only tell whether the other two events occurred.
  observe_all-mounting :
      (s : Mounts) (t : List Event)
      → any is_unmount t ≡ false
      → observe_all unmounts s t ≡ record {
        mounted = s.mounted || any is_mount t;
        prepared = s.prepared || any is_prepare t;
      }
  observe_all-mounting s [] h = ground arith
  observe_all-mounting s (e ∷ t) h =
      observe_all-mounting (observe unmounts s e) t (ground (arith, h)) ∙ ground (arith, h)

  -- At the end the host has the tmpfs if it was mounted and the process was replaced, or the unmount
  -- did not reach it; and the unmount was called if it was mounted and the process was not replaced.
  abbrev pub Unmounts : Run Exit → Type 0
  Unmounts m =
      ((observe_all unmounts nothing_yet m.0).mounted
        ≡ (any is_mount m.0 && (did_exec m.1 || not (unmounts (any is_prepare m.0)))))
      × (any is_unmount m.0 ≡ (any is_mount m.0 && not (did_exec m.1)))

  continue-Unmounts {ℓ} :
      {A : Type ℓ} (t : List Event) (r : Result Failure A) (f : A → Run Exit)
      → any is_loud t ≡ false
      → ((a : A) → Unmounts (f a))
      → Unmounts (continue t r f)
  continue-Unmounts t (ok a) f h k =
      let (m, u, p) = loud_parts t h in
      rw
        (
          observe_all-append unmounts nothing_yet t (f a).0,
          observe_all-mounting nothing_yet t u,
          any-append is_mount t (f a).0,
          any-append is_unmount t (f a).0,
          any-append is_prepare t (f a).0,
          m,
          u,
          p,
        )
        (k a)
  continue-Unmounts t (err e) f h k =
      let (m, u, p) = loud_parts t h in rw (observe_all-mounting nothing_yet t u, m, u) (refl, refl)

  bind-Unmounts {ℓ} :
      {A : Type ℓ} (m : Run A) (f : A → Run Exit)
      → any is_loud m.0 ≡ false
      → ((a : A) → Unmounts (f a))
      → Unmounts (m >>= f)
  unfolding ◌>>=◌
  bind-Unmounts m f h k = continue-Unmounts m.0 m.1 f h k

reach_false {ℓ} :
    {A : Type ℓ} (r : Result Failure A) {q : A → Bool} → ((a : A) → q a ≡ false) → test q r ≡ false
reach_false (ok a) k = k a
reach_false (err e) k = refl

any-bind_false {ℓ κ} :
    {A : Type ℓ} {B : Type κ} (p : Event → Bool) (m : Run A) (f : A → Run B)
    → any p m.0 ≡ false
    → ((a : A) → any p (f a).0 ≡ false)
    → any p (m >>= f).0 ≡ false
any-bind_false p m f h k = any-bind p m f ∙ rw h (reach_false m.1 k)

untouched :
    (t : List Event) → any touches t ≡ false → (any is_mount t ≡ false) × (any is_unmount t ≡ false)
untouched t h = ground (arith, h, any_or is_mount is_unmount t)

-- Storage holds the tmpfs exactly if it mounted one.
abbrev IsHeld : Result Failure Bool → List Event → Type 0
IsHeld (ok held) t = any is_mount t ≡ held
IsHeld (err e) t = any is_mount t ≡ false

module _ (h : Host) (c : Config) where
  stage_untouched : any touches (stage h c).0 ≡ false
  unfolding stage ◌>>=◌
  stage_untouched = ground arith

  precheck_untouched : any touches (precheck h c).0 ≡ false
  unfolding precheck ◌>>=◌
  precheck_untouched = ground arith

  commit_untouched : (launch : Launch) → any touches (commit h c launch).0 ≡ false
  unfolding commit stop_services finish swap_roots exec_new ◌>>=◌
  commit_untouched launch = ground arith

  after_storage_untouched : any touches (after_storage h c).0 ≡ false
  unfolding after_storage
  after_storage_untouched = any-bind_false touches (stage h c) _ stage_untouched (λ launch.
      any-bind_false touches (precheck h c) _ precheck_untouched (λ u. commit_untouched launch))

  start_quiet : any is_loud (start h c).0 ≡ false
  unfolding start detach ◌>>=◌
  start_quiet = ground arith

  mount_own_mounts :
      (mem : MemInfo)
      → any is_mount (mount_own h c mem).0
        ≡ elim (mount_own h c mem).1 [ ok u ↦ true | err e ↦ false ]
  unfolding mount_own requested_budget check_headroom ◌>>=◌
  mount_own_mounts mem = ground arith

  mount_own_prepares :
      (mem : MemInfo)
      → (any is_unmount (mount_own h c mem).0 ≡ false)
        × (any is_prepare (mount_own h c mem).0 ≡ false)
  unfolding mount_own requested_budget check_headroom ◌>>=◌
  mount_own_prepares mem = ground arith

  storage-IsHeld :
      IsHeld (storage h c).1 (storage h c).0
      × (any is_unmount (storage h c).0 ≡ false)
      × (any is_prepare (storage h c).0 ≡ false)
  unfolding storage ◌>>=◌
  storage-IsHeld = elim (Option-cases h.meminfo) [
    | inl e ↦ rw (e, storage, ◌>>=◌) (refl, refl, refl)
    | inr (mem, e) ↦ ground (
      arith,
      mount_own_mounts mem,
      mount_own_prepares mem,
      any-append is_mount (mount_own h c mem).0 [],
      any-append is_unmount (mount_own h c mem).0 [],
      any-append is_prepare (mount_own h c mem).0 [],
    )
  ]

module _ (unmounts : Bool → Bool) where
  held-Unmounts :
      (t es : List Event)
      → any is_mount t ≡ true
      → any is_unmount t ≡ false
      → any is_prepare t ≡ false
      → any touches es ≡ false
      → ((observe_all unmounts nothing_yet (t ++ (es ++ unmount_tmpfs ∷ []))).mounted ≡ (
          any is_mount (t ++ (es ++ unmount_tmpfs ∷ []))
          && not (unmounts (any is_prepare (t ++ (es ++ unmount_tmpfs ∷ []))))))
        × (any is_unmount (t ++ (es ++ unmount_tmpfs ∷ []))
            ≡ (any is_mount (t ++ (es ++ unmount_tmpfs ∷ [])) && true))
  held-Unmounts t es h u p k =
      let (m, v) = untouched es k in
      rw
        (
          observe_all-append unmounts nothing_yet t (es ++ unmount_tmpfs ∷ []),
          observe_all-append unmounts (observe_all unmounts nothing_yet t) es (unmount_tmpfs ∷ []),
          observe_all-mounting unmounts nothing_yet t u,
          observe_all-mounting unmounts _ es v,
          any-append is_mount t (es ++ unmount_tmpfs ∷ []),
          any-append is_unmount t (es ++ unmount_tmpfs ∷ []),
          any-append is_prepare t (es ++ unmount_tmpfs ∷ []),
          any-append is_unmount es (unmount_tmpfs ∷ []),
          any-append is_prepare es (unmount_tmpfs ∷ []),
          h,
          u,
          p,
          v,
        )
        (ground arith)

  -- A tmpfs that is held is unmounted on a return.
  deferring-Unmounts :
      (t : List Event) (r : Result Failure Bool) (m : Run Exit)
      → IsHeld r t
      → any is_unmount t ≡ false
      → any is_prepare t ≡ false
      → any touches m.0 ≡ false
      → Unmounts unmounts (continue t r (λ held. deferring held unmount_tmpfs m))
  deferring-Unmounts t (err e) m h u p k =
      rw (observe_all-mounting unmounts nothing_yet t u, h, u) (refl, refl)
  deferring-Unmounts t (ok true) (es, ok replaced) h u p k =
      let (m, v) = untouched es k in
      let w : any is_unmount (t ++ (es ++ [])) ≡ false =
        rw (any-append is_unmount t (es ++ []), any-append is_unmount es [], u, v) refl in
      rw
        (
          observe_all-mounting unmounts nothing_yet (t ++ (es ++ [])) w,
          w,
          any-append is_mount t (es ++ []),
          h,
        )
        (refl, refl)
  deferring-Unmounts t (ok true) (es, ok returned) h u p k = held-Unmounts t es h u p k
  deferring-Unmounts t (ok true) (es, err e) h u p k = held-Unmounts t es h u p k
  deferring-Unmounts t (ok false) (es, r) h u p k =
      let (m, v) = untouched es k in
      let w : any is_unmount (t ++ es) ≡ false = rw (any-append is_unmount t es, u, v) refl in
      rw (observe_all-mounting unmounts nothing_yet (t ++ es) w, w, any-append is_mount t es, h, m)
        (refl, refl)

  run_contain-Unmounts : (h : Host) (c : Config) → Unmounts unmounts (run_contain h c)
  unfolding run_contain ◌>>=◌
  run_contain-Unmounts h c = ground arith

  with_storage-Unmounts :
      (h : Host) (c : Config)
      → Unmounts unmounts
          (storage h c >>= (λ held. deferring held unmount_tmpfs (after_storage h c)))
  unfolding ◌>>=◌
  with_storage-Unmounts h c =
      let (held, u, p) = storage-IsHeld h c in
      deferring-Unmounts (storage h c).0 (storage h c).1 (after_storage h c) held u p
        (after_storage_untouched h c)

  check_quiet : (b : Bool) (f : Failure) → any is_loud (check b f).0 ≡ false
  check_quiet true f = refl
  check_quiet false f = refl

  pivot_host-Unmounts : (h : Host) (c : Config) → Unmounts unmounts (pivot_host h c)
  unfolding pivot_host
  pivot_host-Unmounts h c =
      bind-Unmounts unmounts (check h.is_root needs_root) _ (check_quiet h.is_root needs_root) (λ u.
        bind-Unmounts unmounts (check c.force needs_force) _ (check_quiet c.force needs_force) (λ u.
          bind-Unmounts unmounts (start h c) _ (start_quiet h c) (λ u. with_storage-Unmounts h c)))

  pub run_pivot-Unmounts : (h : Host) (c : Config) → Unmounts unmounts (run_pivot h c)
  unfolding run_pivot
  run_pivot-Unmounts h c = ground (arith, run_contain-Unmounts h c, pivot_host-Unmounts h c)
