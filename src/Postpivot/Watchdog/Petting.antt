-- ===== src/Postpivot/Watchdog/Petting.antt =====
-- internal/postpivot/watchdog_linux.go: the goroutine `pet` and `Close`, step by step in any
-- interleaving. The select takes a tick also when the channel is closed, if both are ready.
pub mod Close
use xmorph.Base.{Bool, true, false, List, [], ◌∷◌}
use xmorph.Postpivot.Watchdog.{write_pet, write_magic, close_device}
use xmorph.Postpivot.Watchdog.Device.{Device, react}

-- Where the goroutine is: in the select, before its write, or returned.
pub data PetAt : Type 0 where
  selecting writing left : PetAt

-- Where Close is, within `once`.
pub data CloseAt : Type 0 where
  not_called closing_done before_close finished : CloseAt

pub record Watchdog : Type 0 where
  pub device : Device
  pub pet : PetAt
  pub closer : CloseAt
  pub done_closed : Bool

-- After StartWatchdog or AdoptWatchdog.
abbrev pub started : Watchdog
started = record {
  device = record { is_open = true; ticks = true; expects_close = false };
  pet = selecting;
  closer = not_called;
  done_closed = false;
}

-- A write to a closed file fails, which is logged and passed over.
abbrev pub write_if_open : Device → Device
write_if_open d = elim d.is_open [ true ↦ react write_pet d | false ↦ d ]

-- Whose turn it is.
pub data Turn : Type 0 where
  tick see_done pet_write close_done close_magic close_fd : Turn

-- The step of a turn; a turn that is not possible leaves all as it is.
unfoldable pub take_turn : Turn → Watchdog → Watchdog
take_turn tick w = elim w.pet [ selecting ↦ record w { pet = writing } | writing ↦ w | left ↦ w ]
take_turn see_done w = elim w.pet [
  | selecting ↦ elim w.done_closed [ true ↦ record w { pet = left } | false ↦ w ]
  | writing ↦ w
  | left ↦ w
]
take_turn pet_write w = elim w.pet [
  | selecting ↦ w
  | writing ↦ record w { pet = selecting; device = write_if_open w.device }
  | left ↦ w
]
take_turn close_done w = elim w.closer [
  | not_called ↦ record w { closer = closing_done; done_closed = true }
  | closing_done ↦ w
  | before_close ↦ w
  | finished ↦ w
]
take_turn close_magic w = elim w.closer [
  | not_called ↦ w
  | closing_done ↦ record w { closer = before_close; device = react write_magic w.device }
  | before_close ↦ w
  | finished ↦ w
]
take_turn close_fd w = elim w.closer [
  | not_called ↦ w
  | closing_done ↦ w
  | before_close ↦ record w { closer = finished; device = react close_device w.device }
  | finished ↦ w
]

-- Any interleaving, from a start.
unfoldable pub take_turns : List Turn → Watchdog → Watchdog
unfolding take_turn
take_turns [] w = w
take_turns (t ∷ ts) w = take_turns ts (take_turn t w)
