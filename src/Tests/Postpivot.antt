-- ===== src/Tests/Postpivot.antt =====
-- Runs of the watchdog.
use xmorph.Base.{not, ◌||◌, true, false, List, [], ◌∷◌, ◌≡◌, refl, ◌≤◌, ◌*◌}
use xmorph.Base.Bytes.{codes}
use xmorph.Base.Int.{pos}
use xmorph.Base.Result.{ok}
use xmorph.Config.Types.{Config, new, second}
use xmorph.Config.Validate.{validate}
use xmorph.Cli.Entrypoint.{build_postpivot_config}
use xmorph.Postpivot.Watchdog.{
  Answers, not_exist, arm_watchdog_pre_pivot, ensure_watchdog_available, whole_seconds,
}
use xmorph.Postpivot.Watchdog.Device.{react_all, idle, is_true, arm_watchdog_pre_pivot-ticks}
use xmorph.Postpivot.Watchdog.Seconds.{pet_period, validate-whole_seconds}
use xmorph.Postpivot.Watchdog.Petting.{
  Turn, tick, see_done, pet_write, close_done, close_magic, close_fd, started, take_turn,
  take_turns,
}
use xmorph.Postpivot.Watchdog.Petting.Close.{has_late, is_finished, take_turns-ticks}

-- softdog is loaded, and clearing the flag fails.
abbrev softdog : Answers
softdog = record {
  first_open = not_exist;
  loads_module = true;
  opens_again = true;
  clears_cloexec = false;
}

arm_watchdog_pre_pivot-ticks_example :
    ((react_all (arm_watchdog_pre_pivot softdog (pos 5)).0 idle).ticks
      ≡ is_true (arm_watchdog_pre_pivot softdog (pos 5)).1)
    × ((react_all (arm_watchdog_pre_pivot softdog (pos 5)).0 idle).is_open
        ≡ is_true (arm_watchdog_pre_pivot softdog (pos 5)).1)
    × ((react_all (ensure_watchdog_available softdog).0 idle).ticks ≡ false)
    × ((react_all (ensure_watchdog_available softdog).0 idle).is_open ≡ false)
arm_watchdog_pre_pivot-ticks_example = arm_watchdog_pre_pivot-ticks softdog (pos 5)

abbrev half_minute : Config
half_minute = record new { watchdog_timeout = pos 30_500_000_000 }

half_minute_valid : (validate half_minute).1 ≡ ok tt
unfolding validate
half_minute_valid = refl

validate-whole_seconds_example :
    ((build_postpivot_config half_minute (codes "/bin/top") []).watchdog_timeout_seconds
      ≡ pos (whole_seconds 30_500_000_000))
    × (1 ≤ whole_seconds 30_500_000_000)
    × (1 ≤ pet_period (whole_seconds 30_500_000_000))
    × (pet_period (whole_seconds 30_500_000_000) * 3 ≤ whole_seconds 30_500_000_000 * second)
validate-whole_seconds_example =
    validate-whole_seconds half_minute 30_500_000_000 (codes "/bin/top") [] refl refl
      half_minute_valid

-- The goroutine has taken a tick when Close begins, and writes before its last step.
abbrev race : List Turn
race = tick ∷ close_done ∷ close_magic ∷ pet_write ∷ see_done ∷ close_fd ∷ []

race_ticks : (take_turns race started).device.ticks ≡ true
unfolding take_turns take_turn
race_ticks = refl

take_turns-ticks_example :
    ((take_turns race started).device.is_open ≡ not (is_finished (take_turns race started).closer))
    × ((take_turns race started).device.ticks
        ≡ (not (is_finished (take_turns race started).closer) || has_late race started))
take_turns-ticks_example = take_turns-ticks race
