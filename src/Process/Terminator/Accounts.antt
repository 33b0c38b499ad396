-- ===== src/Process/Terminator/Accounts.antt =====
-- What Terminate returns, process by process.
use xmorph.Base.{
  ℕ, Bool, some, List, [], ◌∷◌, ◌++◌, ◌&&◌, not, ◌+◌, ◌==◌, if◌then◌else◌, length, map, arith, ◌≡◌,
  refl, ap, ◌∙◌,
}
use xmorph.Base.Int.{ℤ}
use xmorph.Process.Essential.{Info}
use xmorph.Process.Terminator.{
  TerminateOptions, TerminateResult, Machine, Action, send_term, poll, send_kill, sleep,
  with_defaults, targets_of, split_running, kill_phase, terminate,
}

-- Those of the processes for which the test holds, in their order.
abbrev pub those : (ℤ → Bool) → List ℤ → List ℤ
those p [] = []
those p (pid ∷ pids) = if p pid then pid ∷ those p pids else those p pids

split_running-those :
    (runs : ℤ → Bool) (pids : List ℤ) → (split_running runs pids).0 ≡ those runs pids
unfolding split_running
split_running-those runs [] = refl
split_running-those runs (pid ∷ pids) = ground (arith, split_running-those runs pids)

split_running_gone :
    (runs : ℤ → Bool) (pids : List ℤ)
    → (split_running runs pids).1 ≡ length (those (λ p. not (runs p)) pids)
unfolding split_running
split_running_gone runs [] = refl
split_running_gone runs (pid ∷ pids) = ground (arith, split_running_gone runs pids)

those-those :
    (p q : ℤ → Bool) (pids : List ℤ) → those q (those p pids) ≡ those (λ x. p x && q x) pids
those-those p q [] = refl
those-those p q (pid ∷ pids) = ground (arith, those-those p q pids)

-- A process that did not survive both signals exited after one of them.
those-split :
    (p q : ℤ → Bool) (pids : List ℤ)
    → length (those (λ x. not (p x)) pids) + length (those (λ x. not (q x)) (those p pids))
      ≡ length (those (λ x. not (p x && q x)) pids)
those-split p q [] = refl
those-split p q (pid ∷ pids) = ground (arith, those-split p q pids)

-- The SIGKILL phase, if there is someone left for it.
abbrev pub kills_of : List ℤ → ℤ → List Action
kills_of [] timeout = []
kills_of (pid ∷ pids) timeout = map send_kill (pid ∷ pids) ++ (sleep timeout ∷ [])

kill_phase-those :
    (m : Machine) (opts : TerminateOptions) (still : List ℤ) (gone : ℕ)
    → kill_phase m opts (still, gone) ≡ (
      kills_of still opts.kill_timeout,
      record {
        terminated = gone + length (those (λ p. not (m.survives_kill p)) still);
        killed = length still;
        stubborn_pid = those m.survives_kill still;
      },
    )
unfolding kill_phase
kill_phase-those m opts [] gone = ground arith
kill_phase-those m opts (pid ∷ still) gone =
    rw
      (
        split_running-those m.survives_kill (pid ∷ still),
        split_running_gone m.survives_kill (pid ∷ still),
      )
      refl

-- All that Terminate does and returns.
abbrev pub terminated_as :
    Machine → TerminateOptions → List ℤ → List Action × TerminateResult × Bool
terminated_as m opts targets =
    let both : ℤ → Bool = λ p. m.survives_term p && m.survives_kill p in
    (
      map send_term targets
          ++ (poll opts.graceful_timeout
              ∷ kills_of (those m.survives_term targets) opts.kill_timeout),
      record {
        terminated = length (those (λ p. not (both p)) targets);
        killed = length (those m.survives_term targets);
        stubborn_pid = those both targets;
      },
      not (length (those both targets) == 0),
    )

kill_phase-split_running :
    (m : Machine) (opts : TerminateOptions) (targets : List ℤ)
    → let (actions, result, failed) = terminated_as m opts targets in
      kill_phase m opts (split_running m.survives_term targets)
      ≡ (kills_of (those m.survives_term targets) opts.kill_timeout, result)
kill_phase-split_running m opts targets =
    ap (kill_phase m opts) (λ i.
      (split_running-those m.survives_term targets i, split_running_gone m.survives_term targets i))
    ∙ kill_phase-those m opts (those m.survives_term targets)
        (length (those (λ p. not (m.survives_term p)) targets))
    ∙ rw
        (
          those-split m.survives_term m.survives_kill targets,
          those-those m.survives_term m.survives_kill targets,
        )
        refl

-- If the scan finds `procs`, then every target gets SIGTERM, in order; after the grace period those
-- that still run get SIGKILL, in order, and a second wait follows exactly if there are any. The
-- stubborn processes of the result are exactly the targets that still run after both, in order; the
-- killed are counted as those that got SIGKILL, and the terminated as the targets that are not
-- stubborn; and an error is returned exactly if one is stubborn.
pub terminate-Accounts :
    (m : Machine) (given : TerminateOptions) (procs : List Info)
    → let opts = with_defaults given in
      let (actions, result, failed) = terminated_as m opts (targets_of m opts procs) in
      terminate m given (some procs) ≡ (actions, some result, failed)
unfolding terminate
terminate-Accounts m given procs =
    let opts = with_defaults given in
    let targets = targets_of m opts procs in
    ap
      (λ (r : List Action × TerminateResult). (
        map send_term targets ++ (poll opts.graceful_timeout ∷ r.0),
        some r.1,
        not (length r.1.stubborn_pid == 0),
      ))
      (kill_phase-split_running m opts targets)
