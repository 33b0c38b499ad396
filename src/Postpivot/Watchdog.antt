-- ===== src/Postpivot/Watchdog.antt =====
-- internal/postpivot/watchdog_linux.go: opening, arming, adopting and probing the watchdog, as the
-- sequences of the calls that they make. Which calls succeed is an answer of the kernel. The
-- goroutine that pets it, and Close, are in Watchdog.Petting.
pub mod Petting
pub mod Device
pub mod Seconds
use xmorph.Base.{
  ℕ, Bool, true, false, Option, none, some, List, [], ◌∷◌, ◌++◌, ◌&&◌, ◌||◌, not, if◌then◌else◌,
  ltb, ◌/◌,
}
use xmorph.Base.Bytes.{Bytes, codes, equal, has_prefix}
use xmorph.Base.Int.{ℤ, pos, negsuc, is_positive}
use xmorph.Base.Result.{Result, ok, err}
use xmorph.Base.Trace.{Traced, ◌then_do◌, ◌and_do◌, give, stop, attempt, tolerate}
use xmorph.Path.{base}

pub data Call : Type 0 where
  open_device load_module clear_cloexec : Call
  write_magic write_pet close_device start_petting : Call
  set_timeout : ℕ → Call

pub data WatchdogError : Type 0 where
  open_failed module_failed still_missing cloexec_failed : WatchdogError

-- How os.OpenFile of the device ends.
pub data Opened : Type 0 where
  opened not_exist refused : Opened

-- The answers: the first open, loading softdog, the open after that, and clearing FD_CLOEXEC. The
-- ioctl that sets the timeout may fail, which is passed over.
pub record Answers : Type 0 where
  pub first_open : Opened
  pub loads_module : Bool
  pub opens_again : Bool
  pub clears_cloexec : Bool

-- The first module file below the directory of the release, by its name, that the walk meets.
unfoldable pub find_module : Bytes → List (Bytes × Bytes) → Option Bytes
find_module name [] = none
find_module name ((path, file) ∷ files) =
    let rest = find_module name files in
    if equal file (mathlib.Core.List.◌++◌ name (codes ".ko"))
      || has_prefix (mathlib.Core.List.◌++◌ name (codes ".ko.")) file
    then some path
    else rest

-- How finit_module ends.
pub data Inserted : Type 0 where
  inserted already_loaded insert_failed : Inserted

-- `loadKernelModule`: with whether uname works, the files of the walk, whether the file opens, and
-- how its insertion ends.
unfoldable pub load_kernel_module :
    Bytes → Bool → List (Bytes × Bytes) → (Bytes → Bool) → (Bytes → Inserted) → Bool
unfolding find_module
load_kernel_module name false files opens insert = false
load_kernel_module name true files opens insert = elim (find_module name files) [
  | none ↦ false
  | some path ↦
      opens path
      && (elim (insert path) [ inserted ↦ true | already_loaded ↦ true | insert_failed ↦ false ])
]

-- Whole seconds, at least one.
unfoldable pub whole_seconds : ℕ → ℕ
whole_seconds timeout = let secs = timeout / 1_000_000_000 in if ltb secs 1 then 1 else secs

module _ (a : Answers) where
  abbrev pub open_missing : Opened → Traced Call WatchdogError (Unit {0})
  open_missing opened = (open_device ∷ [], ok tt)
  open_missing refused = ([], err open_failed)
  open_missing not_exist =
      attempt load_module module_failed a.loads_module and_do (elim a.opens_again [
        | true ↦ (open_device ∷ [], ok tt)
        | false ↦ ([], err still_missing)
      ])

  -- `open_device` stands for an open that succeeded.
  unfoldable pub open_watchdog : Traced Call WatchdogError (Unit {0})
  open_watchdog = open_missing a.first_open

  unfoldable pub ensure_watchdog_available : Traced Call WatchdogError (Unit {0})
  unfolding open_watchdog
  ensure_watchdog_available = open_watchdog and_do tolerate write_magic and_do tolerate close_device

  -- The result says whether a watchdog was armed.
  unfoldable pub start_watchdog : ℤ → Traced Call WatchdogError Bool
  unfolding open_watchdog whole_seconds
  start_watchdog (negsuc n) = give false
  start_watchdog (pos timeout) =
      if not (is_positive (pos timeout))
      then give false
      else open_watchdog
        and_do tolerate (set_timeout (whole_seconds timeout))
        and_do tolerate start_petting
        and_do give true

  unfoldable pub arm_watchdog_pre_pivot : ℤ → Traced Call WatchdogError Bool
  unfolding open_watchdog whole_seconds
  arm_watchdog_pre_pivot (negsuc n) = give false
  arm_watchdog_pre_pivot (pos timeout) =
      if not (is_positive (pos timeout))
      then give false
      else open_watchdog
        and_do tolerate (set_timeout (whole_seconds timeout))
        and_do (if a.clears_cloexec
            then (clear_cloexec ∷ [], ok true)
            else (clear_cloexec ∷ write_magic ∷ close_device ∷ [], err cloexec_failed))
