-- ===== src/Process/Terminator/Signals.antt =====
-- Which processes `Terminate` may signal, from the entries of /proc on.
use xmorph.Base.{
  Bool, true, false, Option, none, some, List, [], ◌∷◌, ◌&&◌, any, arith, ◌≡◌, All, Option-cases,
  inl, inr,
}
use xmorph.Base.Bytes.{Bytes, codes}
use xmorph.Base.Bytes.Decimal.{atoi}
use xmorph.Base.Int.{ℤ, eq_int}
use xmorph.Process.Essential.{Info}
use xmorph.Process.Scanner.{DirEntry, ProcFs, read_proc, scan_entries, scan_root, scan}
use xmorph.Process.Terminator.{
  TerminateOptions, Action, send_term, poll, send_kill, sleep, Machine, with_defaults, terminate,
}
use xmorph.Process.Terminator.Spared.{
  is_target, IsTarget, Allowed, Spares, IsTarget-Spares, terminate-IsTarget,
}

abbrev pub or_empty {ℓ} : {A : Type ℓ} → Option (List A) → List A
or_empty none = []
or_empty (some xs) = xs

abbrev reads_as : ℤ → Option ℤ → Bool
reads_as pid none = false
reads_as pid (some n) = eq_int n pid

-- A directory of /proc whose name reads as the number.
abbrev pub is_listed : ProcFs → ℤ → Bool
is_listed fs pid =
    any (λ e. e.is_dir && reads_as pid (atoi e.name)) (or_empty (fs.read_dir (codes "/proc")))

-- What holds of each id that gets a signal.
abbrev pub MaySignal : Machine → TerminateOptions → ProcFs → ℤ → Type 0
MaySignal m opts fs pid =
    (is_listed fs pid ≡ true) × IsTarget m opts (or_empty (scan fs)) pid × Spares m opts pid

module _ (fs : ProcFs) (root : Bytes) where
  read_proc-pid : (pid : ℤ) (p : Info) → read_proc fs root pid ≡ some p → p.pid ≡ pid
  unfolding read_proc
  read_proc-pid pid p h = ground arith

  scan_entries-names :
      (es : List DirEntry) (pid : ℤ)
      → any (λ p. eq_int p.pid pid) (scan_entries fs root es) ≡ true
      → any (λ e. e.is_dir && reads_as pid (atoi e.name)) es ≡ true
  unfolding scan_entries
  scan_entries-names [] pid h = cc
  scan_entries-names (e ∷ es) pid h =
      let rest = scan_entries-names es pid in
      elim (Option-cases (atoi e.name)) [
        | inl a ↦ ground (arith, a, rest)
        | inr (n, a) ↦ elim (Option-cases (read_proc fs root n)) [
          | inl r ↦ ground (arith, a, r, rest)
          | inr (p, r) ↦ ground (arith, a, r, read_proc-pid n p r, rest)
        ]
      ]

module _ (P Q : ℤ → Type 0) (f : (pid : ℤ) → P pid → Q pid) where
  weaken_action : (a : Action) → Allowed P a → Allowed Q a
  weaken_action (send_term pid) h = f pid h
  weaken_action (poll d) h = tt
  weaken_action (send_kill pid) h = f pid h
  weaken_action (sleep d) h = tt

  weaken_actions : (acts : List Action) → All (Allowed P) acts → All (Allowed Q) acts
  weaken_actions [] h = tt
  weaken_actions (a ∷ acts) (h, k) = (weaken_action a h, weaken_actions acts k)

is_target-pid :
    (m : Machine) (opts : TerminateOptions) (procs : List Info) (pid : ℤ)
    → is_target m opts procs pid ≡ true
    → any (λ p. eq_int p.pid pid) procs ≡ true
is_target-pid m opts [] pid h = cc
is_target-pid m opts (p ∷ procs) pid h = ground (arith, is_target-pid m opts procs pid)

IsTarget-is_listed :
    (m : Machine) (opts : TerminateOptions) (fs : ProcFs) (pid : ℤ)
    → IsTarget m opts (or_empty (scan fs)) pid
    → is_listed fs pid ≡ true
unfolding scan_root
IsTarget-is_listed m opts fs pid h = elim (Option-cases (fs.read_dir (codes "/proc"))) [
  | inl e ↦ cc (rw (scan_root, e) at h)
  | inr (es, e) ↦ rw e (
      scan_entries-names fs (codes "/proc") es pid
        (is_target-pid m opts (scan_entries fs (codes "/proc") es) pid (rw (scan_root, e) at h)))
]

-- Every signal of Terminate, SIGTERM or SIGKILL, goes to a number that a directory of /proc has for
-- its name, and that some process of the scan has which is not excluded; and the number is neither
-- that of xmorph, nor its parent's, nor one of the excluded ones, nor 1 where essential processes are
-- skipped. If /proc cannot be read there is no signal.
pub terminate-MaySignal :
    (m : Machine) (opts : TerminateOptions) (fs : ProcFs)
    → All (Allowed (MaySignal m (with_defaults opts) fs)) (terminate m opts (scan fs)).0
unfolding terminate
terminate-MaySignal m opts fs = elim (Option-cases (scan fs)) [
  | inl e ↦ rw (e, terminate) tt
  | inr (procs, e) ↦
      weaken_actions (IsTarget m (with_defaults opts) procs) (MaySignal m (with_defaults opts) fs)
        (λ pid t.
          let found : IsTarget m (with_defaults opts) (or_empty (scan fs)) pid = rw e t in
          (
            IsTarget-is_listed m (with_defaults opts) fs pid found,
            found,
            IsTarget-Spares m (with_defaults opts) procs pid t,
          ))
        _ (rw e (terminate-IsTarget m opts procs))
]
