-- ===== src/Postpivot/Supervise.antt =====
-- internal/postpivot/supervise.go: `Supervise`, `ServeUntilSignal`, `exitStatusFrom` and
-- `rebootSystem`, over the signals and the end of the child in the order in which they come. Streams
-- of the child and the reaping of each orphan are left out.
pub mod Exit
use xmorph.Base.{
  ℕ, Bool, true, false, Option, none, some, List, [], ◌∷◌, ◌++◌, if◌then◌else◌, ◌+◌, ◌==◌, any,
}
use xmorph.Base.Bytes.{Bytes}

-- How the process state says that the child ended: with a code, by a signal, or otherwise.
pub data ProcessState : Type 0 where
  exited : ℕ → ProcessState
  signaled : ℕ → ProcessState
  neither : ProcessState

-- What happens to the supervisor: a signal arrives that does not end the process, or the
-- child ends, with its state and whether Wait returned an error.
pub data Wake : Type 0 where
  signal : ℕ → Wake
  child_done : Option ProcessState → Bool → Wake

pub data Effect : Type 0 where
  start_child : Bytes → List Bytes → Effect
  notify_signals : List ℕ → Effect
  forward : ℕ → Effect
  stop_signals : Effect
  reap_orphans : Effect
  pause : ℕ → Effect
  reboot : Bytes → Effect

pub record SuperviseOptions : Type 0 where
  pub reboot_on_exit : Bool
  pub old_root_path : Bytes

-- The exit code, and whether an error comes with it.
pub data Outcome : Type 0 where
  exit_code : ℕ → Outcome
  failed : ℕ → Outcome
  waiting : Outcome

unfoldable pub exit_status_from : Option ProcessState → Bool → ℕ
exit_status_from (some (exited code)) wait_err = code
exit_status_from (some (signaled number)) wait_err = 128 + number
exit_status_from (some neither) wait_err = if wait_err then 1 else 0
exit_status_from none wait_err = if wait_err then 1 else 0

-- SIGTERM, SIGINT, SIGHUP, SIGUSR1 and SIGUSR2, as Linux numbers them.
abbrev pub watched : List ℕ
watched = 15 ∷ 2 ∷ 1 ∷ 10 ∷ 12 ∷ []

-- With five seconds for the log.
abbrev pub reboot_system : Bytes → List Effect
reboot_system old_root = pause 5 ∷ reboot old_root ∷ []

-- The loop, which waits for more when the wakes run out. Only the signals that were registered come
-- by the channel.
unfoldable pub supervise_loop : SuperviseOptions → List Wake → List Effect × Outcome
unfolding exit_status_from
supervise_loop opts [] = ([], waiting)
supervise_loop opts (signal number ∷ wakes) =
    let (effects, outcome) = supervise_loop opts wakes in
    (if any (λ n. n == number) watched then forward number ∷ effects else effects, outcome)
supervise_loop opts (child_done state wait_err ∷ wakes) = (
  stop_signals
      ∷ reap_orphans
      ∷ (if opts.reboot_on_exit then reboot_system opts.old_root_path else []),
  exit_code (exit_status_from state wait_err),
)

-- With the argument vector and whether the child could be started. The deferred Stop of the signals
-- comes a second time at the end and changes nothing.
unfoldable pub supervise : SuperviseOptions → List Bytes → Bool → List Wake → List Effect × Outcome
unfolding supervise_loop
supervise opts [] starts wakes = ([], failed 1)
supervise opts (program ∷ args) starts wakes =
    let (effects, outcome) = supervise_loop opts wakes in
    if starts
    then (start_child program args ∷ notify_signals watched ∷ effects, outcome)
    else (start_child program args ∷ [], failed 127)

-- `ServeUntilSignal`: SIGTERM and SIGINT are `true`, a SIGCHLD is `false`.
unfoldable pub serve_until_signal : List Bool → List Effect × Option ℕ
serve_until_signal [] = ([], none)
serve_until_signal (true ∷ wakes) = (reap_orphans ∷ [], some 0)
serve_until_signal (false ∷ wakes) =
    let (effects, code) = serve_until_signal wakes in (reap_orphans ∷ effects, code)
