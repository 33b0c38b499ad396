-- ===== src/Initsys.antt =====
-- internal/initsys: detector.go, coordinator.go and scope.go. Which files there are, what they hold,
-- the environment, the process's id, and what systemd answers on the bus, are answers from outside.
pub mod Waits
use xmorph.Base.{
  ℕ, zero, suc, Bool, true, false, Option, none, some, List, [], ◌∷◌, ◌++◌, ◌&&◌, ◌||◌, not,
  if◌then◌else◌, ◌+◌, ◌*◌, ◌==◌, ltb, any,
}
use xmorph.Base.Bytes.{Bytes, codes, equal, is_empty, has_prefix, trim_space}
use xmorph.Base.Result.{Result, ok, err}
use xmorph.Base.Trace.{Traced, ◌and_do◌, attempt, give}

pub data Kind : Type 0 where
  unknown systemd openrc sysvinit runit s6 upstart : Kind

-- `String`
unfoldable pub kind_name : Kind → Bytes
kind_name unknown = codes "unknown"
kind_name systemd = codes "systemd"
kind_name openrc = codes "OpenRC"
kind_name sysvinit = codes "SysV init"
kind_name runit = codes "runit"
kind_name s6 = codes "s6"
kind_name upstart = codes "Upstart"

-- bytes.TrimRight(data, "\x00\n")
unfoldable pub trim_nul : Bytes → Bytes
trim_nul [] = []
trim_nul (c ∷ s) = elim (trim_nul s) [
  | [] ↦ if c == 0 || c == b'\n' then [] else c ∷ []
  | d ∷ t ↦ c ∷ d ∷ t
]

abbrev is_one_of : Bytes → Bytes → Bytes → Bool
is_one_of s a b = equal s a || equal s b

unfoldable pub kind_of_comm : Bytes → Option Kind
kind_of_comm comm =
    if equal comm (codes "systemd")
    then some systemd
    else if is_one_of comm (codes "openrc") (codes "openrc-init")
    then some openrc
    else if equal comm (codes "init")
    then some sysvinit
    else if is_one_of comm (codes "runit") (codes "runsvdir")
    then some runit
    else if equal comm (codes "s6-svscan")
    then some s6
    else none

-- `detectViaPID1Comm`, with the text of /proc/1/comm if it can be read
unfoldable pub detect_via_pid1_comm : Option Bytes → Option Kind
unfolding kind_of_comm trim_nul
detect_via_pid1_comm none = none
detect_via_pid1_comm (some text) = kind_of_comm (trim_space (trim_nul text))

-- `Detect` where the command of process 1 says nothing
unfoldable pub detect_markers : (Bytes → Bool) → Kind
detect_markers exists =
    if exists (codes "/run/systemd/system")
    then systemd
    else if exists (codes "/run/openrc/softlevel") || exists (codes "/etc/init.d/openrc")
    then openrc
    else if exists (codes "/etc/service")
    then runit
    else if exists (codes "/service") || exists (codes "/etc/s6")
    then s6
    else if exists (codes "/etc/init") && exists (codes "/sbin/initctl")
    then upstart
    else if exists (codes "/etc/inittab")
    then sysvinit
    else unknown

unfoldable pub detect : Option Bytes → (Bytes → Bool) → Kind
unfolding detect_via_pid1_comm detect_markers
detect comm exists = elim (detect_via_pid1_comm comm) [ none ↦ detect_markers exists | some k ↦ k ]

-- What systemd does: whether the bus connects, whether StartUnit and StartTransientUnit succeed, the
-- number of jobs at each poll, and how long a poll takes beyond its sleep.
pub record Bus : Type 0 where
  pub connects : Bool
  pub starts_unit : Bool
  pub starts_scope : Bool
  pub job_count : ℕ → Option ℕ
  pub took : ℕ → ℕ

pub data Call : Type 0 where
  connect close : Call
  start_unit : Bytes → Bytes → Call
  start_scope : Bytes → Call

pub data CoordError : Type 0 where
  no_bus unit_failed services_timeout : CoordError

module _ (b : Bus) where
  -- `systemdStartUnit`: the connection is closed on every path.
  unfoldable pub systemd_start_unit : Bytes → Bytes → Traced Call CoordError (Unit {0})
  systemd_start_unit name mode = if not b.connects then (connect ∷ [], err no_bus) else (
    connect ∷ start_unit name mode ∷ close ∷ [],
    if b.starts_unit then ok tt else err unit_failed,
  )

  unfoldable pub transition_to_rescue : Kind → Traced Call CoordError (Unit {0})
  unfolding systemd_start_unit
  transition_to_rescue systemd = systemd_start_unit (codes "basic.target") (codes "isolate")
  transition_to_rescue unknown = give tt
  transition_to_rescue openrc = give tt
  transition_to_rescue sysvinit = give tt
  transition_to_rescue runit = give tt
  transition_to_rescue s6 = give tt
  transition_to_rescue upstart = give tt

  -- `RelocateToTransientScope`, with the scope's name
  unfoldable pub relocate_to_transient_scope : Bytes → Traced Call CoordError Bytes
  relocate_to_transient_scope pid =
      let name = codes "xmorph-" ++ pid ++ codes ".scope" in
      if not b.connects then (connect ∷ [], err no_bus) else (
        connect ∷ start_scope name ∷ close ∷ [],
        if b.starts_scope then ok name else err unit_failed,
      )

-- Half a second, in nanoseconds.
abbrev pub poll_period : ℕ
poll_period = 500_000_000

-- How the wait ends: no jobs, or a poll that cannot be answered; or the timeout.
pub data Waited : Type 0 where
  settled timed_out : Waited

-- A poll that ends the loop.
abbrev pub is_done : Option ℕ → Bool
is_done none = true
is_done (some n) = n == 0

module _ (b : Bus) (timeout : ℕ) where
  -- The loop of `WaitForServicesToStop`, from its i-th poll, at a time since its start: how it ends,
  -- and the number of the poll or test of the deadline at which it does. `none` is out of fuel.
  unfoldable pub poll : ℕ → ℕ → ℕ → Option (Waited × ℕ)
  poll zero i now = none
  poll (suc fuel) i now =
      let later = poll fuel (suc i) (now + (b.took i + poll_period)) in
      if ltb now timeout
      then (if is_done (b.job_count i) then some (settled, i) else later)
      else some (timed_out, i)

abbrev pub is_systemd : Kind → Bool
is_systemd unknown = false
is_systemd systemd = true
is_systemd openrc = false
is_systemd sysvinit = false
is_systemd runit = false
is_systemd s6 = false
is_systemd upstart = false

abbrev waited : Option (Waited × ℕ) → Option (Result CoordError (Unit {0}))
waited none = none
waited (some (settled, i)) = some (ok tt)
waited (some (timed_out, i)) = some (err services_timeout)

-- `WaitForServicesToStop`; an init without jobs is given at most two seconds and no error.
unfoldable pub wait_for_services_to_stop :
    ℕ → Kind → Bus → ℕ → Option (Result CoordError (Unit {0}))
wait_for_services_to_stop fuel k b timeout =
    if not (is_systemd k)
    then some (ok tt)
    else if not b.connects
    then some (ok tt)
    else waited (poll b timeout fuel 0 0)

-- `bytes.Contains`
unfoldable pub contains : Bytes → Bytes → Bool
contains part [] = is_empty part
contains part (c ∷ s) = has_prefix part (c ∷ s) || contains part s

-- `ShouldSkipCoordination`, with whether /.dockerenv is there and the text of /proc/1/cgroup
unfoldable pub should_skip_coordination : Bool → Option Bytes → Bool
unfolding contains
should_skip_coordination true cgroup = true
should_skip_coordination false none = false
should_skip_coordination false (some text) =
    any (λ marker. contains marker text) (codes "docker" ∷ codes "lxc" ∷ codes "kubepods" ∷ [])

-- `RunningOverSSH`, with the environment
unfoldable pub running_over_ssh : (Bytes → Bytes) → Bool
running_over_ssh getenv =
    not (is_empty (getenv (codes "SSH_CONNECTION")))
    || not (is_empty (getenv (codes "SSH_CLIENT")))
    || not (is_empty (getenv (codes "SSH_TTY")))
