-- ===== src/Postpivot/Watchdog/Device.antt =====
-- The watchdog device under the calls: it ticks from its opening on, and a close stops it only
-- directly after the magic byte.
use xmorph.Base.{Bool, true, false, List, [], ◌∷◌, not, arith, ◌≡◌, ◌&&◌}
use xmorph.Base.Int.{ℤ, pos, negsuc}
use xmorph.Base.Result.{Result, ok, err}
use xmorph.Postpivot.Watchdog.{
  Call, open_device, write_magic, write_pet, close_device, WatchdogError, Answers, open_watchdog,
  ensure_watchdog_available, arm_watchdog_pre_pivot,
}

pub record Device : Type 0 where
  pub is_open : Bool
  pub ticks : Bool
  pub expects_close : Bool

abbrev pub idle : Device
idle = record { is_open = false; ticks = false; expects_close = false }

abbrev pub react : Call → Device → Device
react open_device d = record { is_open = true; ticks = true; expects_close = false }
react write_magic d = record d { expects_close = true }
react write_pet d = record d { expects_close = false }
react close_device d = record {
  is_open = false;
  ticks = d.ticks && not d.expects_close;
  expects_close = false;
}
react _ d = d

unfoldable pub react_all : List Call → Device → Device
react_all [] d = d
react_all (c ∷ cs) d = react_all cs (react c d)

-- What a result means for the device.
abbrev pub is_true : Result WatchdogError Bool → Bool
is_true (ok b) = b
is_true (err e) = false

-- After arming, the device is open and ticks exactly if arming returned a watchdog: an error, and a
-- timeout that is not positive, leave it closed and at rest. So do a probe before the pivot, whether
-- or not it succeeds.
pub arm_watchdog_pre_pivot-ticks :
    (a : Answers) (timeout : ℤ)
    → let armed = arm_watchdog_pre_pivot a timeout in
      ((react_all armed.0 idle).ticks ≡ is_true armed.1)
      × ((react_all armed.0 idle).is_open ≡ is_true armed.1)
      × ((react_all (ensure_watchdog_available a).0 idle).ticks ≡ false)
      × ((react_all (ensure_watchdog_available a).0 idle).is_open ≡ false)
unfolding arm_watchdog_pre_pivot ensure_watchdog_available open_watchdog react_all
arm_watchdog_pre_pivot-ticks a (negsuc n) = ground arith
arm_watchdog_pre_pivot-ticks a (pos timeout) = ground arith
