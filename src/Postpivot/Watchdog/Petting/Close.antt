-- ===== src/Postpivot/Watchdog/Petting/Close.antt =====
-- When the watchdog is at rest after Close: not if a pet comes between its last two steps.
use mathlib.Core.Path.{subst}
use xmorph.Base.{Bool, true, false, List, [], ◌∷◌, ◌≡◌, refl, not, ◌&&◌, ◌||◌, arith}
use xmorph.Postpivot.Watchdog.Petting.{
  PetAt, selecting, writing, left, CloseAt, not_called, closing_done, before_close, finished,
  Watchdog, started, Turn, tick, see_done, pet_write, close_done, close_magic, close_fd, take_turn,
  take_turns,
}

abbrev is_writing : PetAt → Bool
is_writing selecting = false
is_writing writing = true
is_writing left = false

abbrev is_before_close : CloseAt → Bool
is_before_close not_called = false
is_before_close closing_done = false
is_before_close before_close = true
is_before_close finished = false

-- This turn writes a pet after the magic byte and before the close.
unfoldable pub is_late : Turn → Watchdog → Bool
is_late pet_write w = is_writing w.pet && is_before_close w.closer
is_late tick w = false
is_late see_done w = false
is_late close_done w = false
is_late close_magic w = false
is_late close_fd w = false

-- Some turn of the run does.
unfoldable pub has_late : List Turn → Watchdog → Bool
unfolding is_late take_turn
has_late [] w = false
has_late (t ∷ ts) w = is_late t w || has_late ts (take_turn t w)

-- With whether a late pet was written so far.
pub record Inv (w : Watchdog) (late : Bool) : Type 0 where
  pub on_time : is_before_close w.closer ≡ false → (w.closer ≡ finished → ⊥) → late ≡ false
  pub ticks_before : (w.closer ≡ finished → ⊥) → (w.device.ticks ≡ true) × (w.device.is_open ≡ true)
  pub magic : w.closer ≡ before_close → w.device.expects_close ≡ not late
  pub closed_after : w.closer ≡ finished → (w.device.is_open ≡ false) × (w.device.ticks ≡ late)
  pub left_after : w.pet ≡ left → w.done_closed ≡ true

take_turn-Inv :
    (t : Turn) (w : Watchdog) (late : Bool) → Inv w late → Inv (take_turn t w) (late || is_late t w)
unfolding take_turn is_late
take_turn-Inv t w late h = ground arith

or_false : (a : Bool) → a ≡ (a || false)
or_false a = ground arith

or_assoc : (a b c : Bool) → ((a || b) || c) ≡ (a || (b || c))
or_assoc a b c = ground arith

take_turns-Inv :
    (ts : List Turn) (w : Watchdog) (late : Bool)
    → Inv w late
    → Inv (take_turns ts w) (late || has_late ts w)
unfolding take_turns has_late
take_turns-Inv [] w late h = subst (Inv w) (or_false late) h
take_turns-Inv (t ∷ ts) w late h =
    subst (Inv (take_turns ts (take_turn t w)))
      (or_assoc late (is_late t w) (has_late ts (take_turn t w)))
      (take_turns-Inv ts (take_turn t w) (late || is_late t w) (take_turn-Inv t w late h))

started-Inv : Inv started false
started-Inv = ground arith

abbrev pub is_finished : CloseAt → Bool
is_finished not_called = false
is_finished closing_done = false
is_finished before_close = false
is_finished finished = true

at_rest :
    (c : CloseAt) (ticks is_open late : Bool)
    → ((c ≡ finished → ⊥) → (ticks ≡ true) × (is_open ≡ true))
    → (c ≡ finished → (is_open ≡ false) × (ticks ≡ late))
    → (is_open ≡ not (is_finished c)) × (ticks ≡ (not (is_finished c) || late))
at_rest not_called ticks is_open late before after = let (t, o) = before (λ e. cc) in (o, t)
at_rest closing_done ticks is_open late before after = let (t, o) = before (λ e. cc) in (o, t)
at_rest before_close ticks is_open late before after = let (t, o) = before (λ e. cc) in (o, t)
at_rest finished ticks is_open late before after = let (o, t) = after refl in (o, t)

-- In every interleaving of the petting goroutine and Close, the device stays open and ticks until
-- Close is through. From then on it is closed, and it ticks on, towards a reset that nothing stops,
-- exactly if the goroutine wrote a pet between the magic byte and the close.
pub take_turns-ticks :
    (turns : List Turn)
    → let w = take_turns turns started in
      (w.device.is_open ≡ not (is_finished w.closer))
      × (w.device.ticks ≡ (not (is_finished w.closer) || has_late turns started))
take_turns-ticks turns =
    let i = take_turns-Inv turns started false started-Inv in
    at_rest (take_turns turns started).closer (take_turns turns started).device.ticks
      (take_turns turns started).device.is_open (has_late turns started) i.ticks_before
      i.closed_after
