-- ===== src/Postpivot/Watchdog/Seconds.antt =====
-- The seconds that the device gets before the pivot and the period of the petting after it.
use xmorph.Base.{ℕ, true, ◌*◌, ◌/◌, ◌≤◌, arith, ◌≡◌, List}
use xmorph.Base.Bytes.{Bytes}
use xmorph.Base.Int.{pos, is_positive}
use xmorph.Base.Result.{ok}
use xmorph.Config.Types.{Config, second}
use xmorph.Config.Validate.{validate}
use xmorph.Cli.Entrypoint.{build_postpivot_config}
use xmorph.Postpivot.Watchdog.{whole_seconds}

-- `w.timeout / 3`, for the timeout that Run makes of the seconds in the file.
abbrev pub pet_period : ℕ → ℕ
pet_period seconds = seconds * second / 3

-- If a configuration with a positive timeout passes validation, the seconds in the file are those
-- that the device was armed with, at least one, and three pets fit into them.
pub validate-whole_seconds :
    (c : Config) (timeout : ℕ) (entrypoint : Bytes) (args : List Bytes)
    → c.watchdog_timeout ≡ pos timeout
    → is_positive (pos timeout) ≡ true
    → (validate c).1 ≡ ok tt
    → ((build_postpivot_config c entrypoint args).watchdog_timeout_seconds
        ≡ pos (whole_seconds timeout))
      × (1 ≤ whole_seconds timeout)
      × (1 ≤ pet_period (whole_seconds timeout))
      × (pet_period (whole_seconds timeout) * 3 ≤ whole_seconds timeout * second)
unfolding validate build_postpivot_config whole_seconds
validate-whole_seconds c timeout entrypoint args t p v = ground arith
