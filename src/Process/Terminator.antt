-- ===== src/Process/Terminator.antt =====
-- internal/process/terminator.go: `Terminate`. What the scan finds and which processes run after
-- the waits are answers of the machine; `gracefulPolling` and the sleep only wait.
pub mod Accounts
pub mod Grace
pub mod Signals
pub mod Spared
use xmorph.Base.{
  ℕ, Bool, true, false, Option, none, some, List, [], ◌∷◌, ◌++◌, ◌||◌, ◌&&◌, not, if◌then◌else◌,
  ◌+◌, ◌==◌, any, map, length,
}
use xmorph.Base.Int.{ℤ, pos, is_positive, eq_int}
use xmorph.Base.Result.{Result, ok, err}
use xmorph.Process.Essential.{Info, is_essential, is_kernel_thread}

pub record TerminateOptions : Type 0 where
  pub graceful_timeout : ℤ
  pub kill_timeout : ℤ
  pub skip_essential : Bool
  pub exclude_pids : List ℤ

pub record TerminateResult : Type 0 where
  pub terminated : ℕ
  pub killed : ℕ
  pub stubborn_pid : List ℤ

-- The waits are in nanoseconds.
pub data Action : Type 0 where
  send_term : ℤ → Action
  poll : ℤ → Action
  send_kill : ℤ → Action
  sleep : ℤ → Action

-- The own and the parent's process id, and what runs after the grace period and after the kills.
pub record Machine : Type 0 where
  pub self : ℤ
  pub parent : ℤ
  pub survives_term : ℤ → Bool
  pub survives_kill : ℤ → Bool

unfoldable pub with_defaults : TerminateOptions → TerminateOptions
with_defaults opts = record opts {
  graceful_timeout =
      if is_positive opts.graceful_timeout then opts.graceful_timeout else pos 5_000_000_000;
  kill_timeout = if is_positive opts.kill_timeout then opts.kill_timeout else pos 2_000_000_000;
}

module _ (m : Machine) (opts : TerminateOptions) where
  unfoldable pub excluded : Info → Bool
  excluded p =
      (eq_int p.pid m.self || eq_int p.pid m.parent)
      || (any (λ pid. eq_int p.pid pid) opts.exclude_pids
          || ((opts.skip_essential && is_essential m.self p) || is_kernel_thread p))

  unfoldable pub targets_of : List Info → List ℤ
  targets_of [] = []
  targets_of (p ∷ procs) = let rest = targets_of procs in if excluded p then rest else p.pid ∷ rest

-- The loop after the grace period: who still runs, and how many do not.
unfoldable pub split_running : (ℤ → Bool) → List ℤ → List ℤ × ℕ
split_running runs [] = ([], 0)
split_running runs (pid ∷ pids) =
    let (still, gone) = split_running runs pids in
    if runs pid then (pid ∷ still, gone) else (still, gone + 1)

-- The SIGKILL phase and its result.
unfoldable pub kill_phase : Machine → TerminateOptions → List ℤ × ℕ → List Action × TerminateResult
unfolding split_running
kill_phase m opts ([], gone) = ([], record { terminated = gone; killed = 0; stubborn_pid = [] })
kill_phase m opts (pid ∷ still, gone) =
    let (stubborn, late) = split_running m.survives_kill (pid ∷ still) in
    (
      map send_kill (pid ∷ still) ++ (sleep opts.kill_timeout ∷ []),
      record { terminated = gone + late; killed = length (pid ∷ still); stubborn_pid = stubborn },
    )

-- The actions, the result, and whether an error comes with it; the scan is `none` if it fails.
unfoldable pub terminate :
    Machine → TerminateOptions → Option (List Info) → List Action × Option TerminateResult × Bool
unfolding with_defaults targets_of split_running kill_phase
terminate m given none = ([], none, true)
terminate m given (some procs) =
    let opts = with_defaults given in
    let targets = targets_of m opts procs in
    let (kills, result) = kill_phase m opts (split_running m.survives_term targets) in
    (
      map send_term targets ++ (poll opts.graceful_timeout ∷ kills),
      some result,
      not (length result.stubborn_pid == 0),
    )
