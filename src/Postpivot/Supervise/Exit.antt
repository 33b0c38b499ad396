-- ===== src/Postpivot/Supervise/Exit.antt =====
-- What the supervisor does over any sequence of signals and the end of its child.
use xmorph.Base.{
  ℕ, Bool, true, false, Option, none, some, List, [], ◌∷◌, ◌&&◌, ◌||◌, ◌+◌, leb, if◌then◌else◌, any,
  ◌==◌, ◌≡◌, refl, arith,
}
use xmorph.Base.Bytes.{Bytes, equal, equal_refl}
use xmorph.Config.Types.{is_some}
use xmorph.Postpivot.Supervise.{
  ProcessState, exited, signaled, neither, Wake, signal, child_done, Effect, start_child,
  notify_signals, forward, stop_signals, reap_orphans, pause, reboot, SuperviseOptions, Outcome,
  exit_code, failed, waiting, exit_status_from, supervise_loop, supervise,
}

-- SIGTERM, SIGINT, SIGHUP, SIGUSR1 and SIGUSR2.
abbrev pub is_forwarded : ℕ → Bool
is_forwarded n = n == 1 || (n == 2 || (n == 10 || (n == 12 || n == 15)))

-- The signals among the effects that went to the child.
abbrev pub sent : List Effect → List ℕ
sent [] = []
sent (forward n ∷ es) = n ∷ sent es
sent (start_child p args ∷ es) = sent es
sent (notify_signals ns ∷ es) = sent es
sent (stop_signals ∷ es) = sent es
sent (reap_orphans ∷ es) = sent es
sent (pause n ∷ es) = sent es
sent (reboot path ∷ es) = sent es

-- The places of the effects in a life of the supervisor.
abbrev pub place : Effect → ℕ
place (start_child p args) = 0
place (notify_signals ns) = 1
place (forward n) = 2
place stop_signals = 3
place reap_orphans = 4
place (pause n) = 5
place (reboot path) = 6

-- The places never fall, from `at` on.
abbrev pub in_order : ℕ → List Effect → Bool
in_order at [] = true
in_order at (e ∷ es) = leb at (place e) && in_order (place e) es

abbrev pub is_reap : Effect → Bool
is_reap e = place e == 4

-- A reboot out of the old root at that path.
abbrev pub is_reboot : Bytes → Effect → Bool
is_reboot old_root (reboot path) = equal path old_root
is_reboot old_root (start_child p args) = false
is_reboot old_root (notify_signals ns) = false
is_reboot old_root (forward n) = false
is_reboot old_root stop_signals = false
is_reboot old_root reap_orphans = false
is_reboot old_root (pause n) = false

-- The seconds that are slept.
abbrev pub slept : List Effect → ℕ
slept [] = 0
slept (pause n ∷ es) = n + slept es
slept (start_child p args ∷ es) = slept es
slept (notify_signals ns ∷ es) = slept es
slept (forward n ∷ es) = slept es
slept (stop_signals ∷ es) = slept es
slept (reap_orphans ∷ es) = slept es
slept (reboot path ∷ es) = slept es

-- The forwarded ones of the signals that come before the child ends.
abbrev pub sent_before_end : List Wake → List ℕ
sent_before_end [] = []
sent_before_end (signal n ∷ ws) =
    if is_forwarded n then n ∷ sent_before_end ws else sent_before_end ws
sent_before_end (child_done state wait_err ∷ ws) = []

-- How the child ends, if it does: the state and whether Wait failed.
abbrev pub ending : List Wake → Option (Option ProcessState × Bool)
ending [] = none
ending (signal n ∷ ws) = ending ws
ending (child_done state wait_err ∷ ws) = some (state, wait_err)

-- The status of a shell: the code, 128 and the number of the signal, or whether Wait failed.
abbrev pub shell_status : Option ProcessState × Bool → ℕ
shell_status (some (exited code), e) = code
shell_status (some (signaled n), e) = 128 + n
shell_status (some neither, true) = 1
shell_status (some neither, false) = 0
shell_status (none, true) = 1
shell_status (none, false) = 0

abbrev pub outcome_of : Option (Option ProcessState × Bool) → Outcome
outcome_of none = waiting
outcome_of (some e) = exit_code (shell_status e)

-- What the effects and the outcome are of a supervisor whose child is started, or not.
pub record IsLife (opts : SuperviseOptions) (starts : Bool) (wakes : List Wake)
    (life : List Effect × Outcome) : Type 0 where
  pub forwards : sent life.0 ≡ (if starts then sent_before_end wakes else [])
  pub reaps : any is_reap life.0 ≡ (starts && is_some (ending wakes))
  pub reboots :
      any (is_reboot opts.old_root_path) life.0
      ≡ (starts && (is_some (ending wakes) && opts.reboot_on_exit))
  pub waits : slept life.0 ≡ (if any (is_reboot opts.old_root_path) life.0 then 5 else 0)
  pub ordered : in_order 0 life.0 ≡ true
  pub ends : life.1 ≡ (if starts then outcome_of (ending wakes) else failed 127)

loop_forwards :
    (opts : SuperviseOptions) (wakes : List Wake)
    → sent (supervise_loop opts wakes).0 ≡ sent_before_end wakes
unfolding supervise_loop
loop_forwards opts [] = refl
loop_forwards opts (signal n ∷ ws) = ground (arith, loop_forwards opts ws)
loop_forwards opts (child_done state e ∷ ws) = ground arith

loop_reaps :
    (opts : SuperviseOptions) (wakes : List Wake)
    → any is_reap (supervise_loop opts wakes).0 ≡ is_some (ending wakes)
unfolding supervise_loop
loop_reaps opts [] = refl
loop_reaps opts (signal n ∷ ws) = ground (arith, loop_reaps opts ws)
loop_reaps opts (child_done state e ∷ ws) = ground arith

loop_reboots :
    (opts : SuperviseOptions) (wakes : List Wake)
    → any (is_reboot opts.old_root_path) (supervise_loop opts wakes).0
      ≡ (is_some (ending wakes) && opts.reboot_on_exit)
unfolding supervise_loop
loop_reboots opts [] = refl
loop_reboots opts (signal n ∷ ws) = ground (arith, loop_reboots opts ws)
loop_reboots opts (child_done state e ∷ ws) = ground (arith, equal_refl opts.old_root_path)

loop_waits :
    (opts : SuperviseOptions) (wakes : List Wake)
    → slept (supervise_loop opts wakes).0
      ≡ (if is_some (ending wakes) && opts.reboot_on_exit then 5 else 0)
unfolding supervise_loop
loop_waits opts [] = refl
loop_waits opts (signal n ∷ ws) = ground (arith, loop_waits opts ws)
loop_waits opts (child_done state e ∷ ws) = ground arith

loop_ordered :
    (opts : SuperviseOptions) (wakes : List Wake) (at : ℕ)
    → leb at 2 ≡ true
    → in_order at (supervise_loop opts wakes).0 ≡ true
unfolding supervise_loop
loop_ordered opts [] at h = refl
loop_ordered opts (signal n ∷ ws) at h =
    ground (arith, h, loop_ordered opts ws 2 refl, loop_ordered opts ws at h)
loop_ordered opts (child_done state e ∷ ws) at h = ground (arith, h)

loop_ends :
    (opts : SuperviseOptions) (wakes : List Wake)
    → (supervise_loop opts wakes).1 ≡ outcome_of (ending wakes)
unfolding supervise_loop exit_status_from
loop_ends opts [] = refl
loop_ends opts (signal n ∷ ws) = loop_ends opts ws
loop_ends opts (child_done (some (exited c)) e ∷ ws) = refl
loop_ends opts (child_done (some (signaled n)) e ∷ ws) = refl
loop_ends opts (child_done (some neither) e ∷ ws) = ground arith
loop_ends opts (child_done none e ∷ ws) = ground arith

-- Over any signals, and whenever the child ends: if the entrypoint starts, the child gets exactly
-- those of SIGTERM, SIGINT, SIGHUP, SIGUSR1 and SIGUSR2 that come before it ends, in their order;
-- when it ends, orphans are reaped and the supervisor returns its status as a shell has it; the
-- machine reboots exactly if the child ended and that was asked for, whatever the status, out of
-- the given old root and after five seconds. If the entrypoint cannot be started nothing is forwarded, reaped or rebooted, and the
-- status is 127. Starting, registering, forwarding, unregistering, reaping, the wait and the reboot
-- come in this order.
pub supervise-IsLife :
    (opts : SuperviseOptions) (program : Bytes) (args : List Bytes) (starts : Bool)
    (wakes : List Wake)
    → IsLife opts starts wakes (supervise opts (program ∷ args) starts wakes)
unfolding supervise
supervise-IsLife opts program args true wakes = record {
  forwards = loop_forwards opts wakes;
  reaps = loop_reaps opts wakes;
  reboots = loop_reboots opts wakes;
  waits = rw (loop_reboots opts wakes) (loop_waits opts wakes);
  ordered = loop_ordered opts wakes 1 refl;
  ends = loop_ends opts wakes;
}
supervise-IsLife opts program args false wakes = record {
  forwards = refl;
  reaps = refl;
  reboots = refl;
  waits = refl;
  ordered = refl;
  ends = refl;
}
