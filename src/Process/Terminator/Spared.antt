-- ===== src/Process/Terminator/Spared.antt =====
-- No spared process gets a signal.
use xmorph.Base.{
  ℕ, Bool, true, false, some, List, [], ◌∷◌, ◌&&◌, not, any, map, arith, ◌≡◌, ◌≢◌, refl, All,
  All-append, Bool-cases, inl, inr,
}
use xmorph.Base.Int.{ℤ, pos, eq_int, eq_int_refl, eq_int_sound, eq_int_ne}
use xmorph.Process.Essential.{Info, is_essential}
use xmorph.Process.Terminator.{
  TerminateOptions, Action, send_term, poll, send_kill, sleep, Machine, with_defaults, excluded,
  targets_of, split_running, kill_phase, terminate,
}

-- Some scanned process has the id and is not excluded.
abbrev pub is_target : Machine → TerminateOptions → List Info → ℤ → Bool
is_target m opts procs pid = any (λ p. eq_int p.pid pid && not (excluded m opts p)) procs

abbrev pub IsTarget : Machine → TerminateOptions → List Info → ℤ → Type 0
IsTarget m opts procs pid = is_target m opts procs pid ≡ true

-- A signal goes to such a process; the waits are no signals.
abbrev pub Allowed : (ℤ → Type 0) → Action → Type 0
Allowed P (send_term pid) = P pid
Allowed P (poll d) = Unit
Allowed P (send_kill pid) = P pid
Allowed P (sleep d) = Unit

module _ (P Q : ℤ → Type 0) where
  pub weaken : (pids : List ℤ) → ((pid : ℤ) → P pid → Q pid) → All P pids → All Q pids
  weaken [] f h = tt
  weaken (pid ∷ pids) f (h, k) = (f pid h, weaken pids f k)

module _ (m : Machine) (opts : TerminateOptions) where
  targets_of-IsTarget : (procs : List Info) → All (IsTarget m opts procs) (targets_of m opts procs)
  unfolding targets_of
  targets_of-IsTarget [] = tt
  targets_of-IsTarget (p ∷ procs) =
      let rest : All (IsTarget m opts (p ∷ procs)) (targets_of m opts procs) =
        weaken (IsTarget m opts procs) (IsTarget m opts (p ∷ procs)) (targets_of m opts procs)
          (λ pid h. ground (arith, h)) (targets_of-IsTarget procs) in
      elim (Bool-cases (excluded m opts p)) [
        | inl e ↦ rw e rest
        | inr e ↦ rw e (rw (eq_int_refl p.pid, e) refl, rest)
      ]

module _ (P : ℤ → Type 0) where
  split_running-All :
      (runs : ℤ → Bool) (pids : List ℤ) → All P pids → All P (split_running runs pids).0
  unfolding split_running
  split_running-All runs [] h = tt
  split_running-All runs (pid ∷ pids) (h, k) = elim (Bool-cases (runs pid)) [
    | inl e ↦ rw e (h, split_running-All runs pids k)
    | inr e ↦ rw e (split_running-All runs pids k)
  ]

  map-send_term : (pids : List ℤ) → All P pids → All (Allowed P) (map send_term pids)
  map-send_term [] h = tt
  map-send_term (pid ∷ pids) (h, k) = (h, map-send_term pids k)

  map-send_kill : (pids : List ℤ) → All P pids → All (Allowed P) (map send_kill pids)
  map-send_kill [] h = tt
  map-send_kill (pid ∷ pids) (h, k) = (h, map-send_kill pids k)

  kill_phase-Allowed :
      (m : Machine) (opts : TerminateOptions) (still : List ℤ) (gone : ℕ)
      → All P still
      → All (Allowed P) (kill_phase m opts (still, gone)).0
  unfolding kill_phase
  kill_phase-Allowed m opts [] gone h = tt
  kill_phase-Allowed m opts (pid ∷ still) gone h =
      All-append (Allowed P) (map send_kill (pid ∷ still)) (sleep opts.kill_timeout ∷ [])
        (map-send_kill (pid ∷ still) h) (tt, tt)

-- The id is neither xmorph's own, nor its parent's, nor one of the excluded ids, nor 1 where
-- essential processes are skipped.
abbrev pub Spares : Machine → TerminateOptions → ℤ → Type 0
Spares m opts pid =
    (pid ≢ m.self)
    × (pid ≢ m.parent)
    × (any (λ x. eq_int pid x) opts.exclude_pids ≡ false)
    × ((opts.skip_essential && eq_int pid (pos 1)) ≡ false)

excluded-Spares :
    (m : Machine) (opts : TerminateOptions) (p : Info)
    → excluded m opts p ≡ false
    → Spares m opts p.pid
unfolding excluded is_essential
excluded-Spares m opts p h = (
  eq_int_ne p.pid m.self (ground (arith, h)),
  eq_int_ne p.pid m.parent (ground (arith, h)),
  ground (arith, h),
  ground (arith, h),
)

pub IsTarget-Spares :
    (m : Machine) (opts : TerminateOptions) (procs : List Info) (pid : ℤ)
    → IsTarget m opts procs pid
    → Spares m opts pid
IsTarget-Spares m opts [] pid h = cc
IsTarget-Spares m opts (p ∷ procs) pid h =
    elim (Bool-cases (eq_int p.pid pid && not (excluded m opts p))) [
      | inl e ↦
          let same : p.pid ≡ pid = eq_int_sound p.pid pid (ground (arith, e)) in
          rw same at (excluded-Spares m opts p (ground (arith, e)))
      | inr e ↦ IsTarget-Spares m opts procs pid (rw e at h)
    ]

-- If the scan finds `procs`, every signal goes to the id of a scanned process that is not excluded.
pub terminate-IsTarget :
    (m : Machine) (opts : TerminateOptions) (procs : List Info)
    → All (Allowed (IsTarget m (with_defaults opts) procs)) (terminate m opts (some procs)).0
unfolding terminate
terminate-IsTarget m opts procs =
    let full = with_defaults opts in
    let P = IsTarget m full procs in
    let t = targets_of-IsTarget m full procs in
    let runs = split_running m.survives_term (targets_of m full procs) in
    All-append (Allowed P) (map send_term (targets_of m full procs)) _
      (map-send_term P (targets_of m full procs) t)
      (
        tt,
        kill_phase-Allowed P m full runs.0 runs.1
            (split_running-All P m.survives_term (targets_of m full procs) t),
      )
