-- ===== src/Base/Polling.antt =====
-- A loop that polls, waits a period and polls again, until a poll is the last or a deadline passes.
use Prim.Native.Nat.{ℕ, zero, suc, ◌+◌, ◌*◌, ◌/◌, ◌≤◌, ◌<◌}
use xmorph.Base.Tests.{ltb, Bool-cases, if◌then◌else◌}
use mathlib.Core.Path.{◌≡◌, refl}
use mathlib.Core.Logic.{inl, inr}
use mathlib.Core.Bool.{Bool, true, false, ◌&&◌, ◌||◌, not}
use mathlib.Core.Option.{Option, none, some}
use native.Mathlib.Nat.{lt-mul-div-succ, mul_comm}
use native.Mathlib.Omega.{arith}

-- How long each poll takes, and whether it ends the loop.
module _ (period timeout : ℕ) (took : ℕ → ℕ) (is_done : ℕ → Bool) where
  -- From the i-th poll, at a time since the start: whether a poll ended the loop, and the number of
  -- the poll, or of the test of the deadline, at which it ended. `none` is out of fuel.
  unfoldable pub poll_until : ℕ → ℕ → ℕ → Option (Bool × ℕ)
  poll_until zero i now = none
  poll_until (suc fuel) i now =
      let later = poll_until fuel (suc i) (now + (took i + period)) in
      if ltb now timeout then (if is_done i then some (true, i) else later) else some (false, i)

  -- When the i-th poll begins.
  abbrev pub time : ℕ → ℕ
  time zero = 0
  time (suc i) = time i + (took i + period)

  -- The deadline has passed, or the poll ends the loop.
  abbrev pub is_last : ℕ → Bool
  is_last i = not (ltb (time i) timeout) || is_done i

  -- None of the n polls from i on is the last.
  abbrev pub none_last : ℕ → ℕ → Bool
  none_last zero i = true
  none_last (suc n) i = not (is_last i) && none_last n (suc i)

  Ends : ℕ → ℕ → Type 0
  Ends fuel i =
      (n m : ℕ) × (m ≡ i + n)
      × (poll_until (suc fuel) i (time i) ≡ some (ltb (time m) timeout, m))
      × (is_last m ≡ true)
      × (none_last n i ≡ true)
      × (n ≤ fuel)

  Ends-here : (fuel i : ℕ) → is_last i ≡ true → Ends fuel i
  unfolding Ends poll_until
  Ends-here fuel i e = (0, i, omega arith, ground (arith, e), e, refl, omega arith)

  Ends-later : (fuel i : ℕ) → is_last i ≡ false → Ends fuel (suc i) → Ends (suc fuel) i
  unfolding Ends poll_until
  Ends-later fuel i e (n, m, at, ends, last, before, b) =
      (suc n, m, omega arith, ground (arith, e, ends), last, ground (arith, e, before), omega arith)

  poll_until-Ends : (fuel i : ℕ) → timeout ≤ time i + fuel * period → Ends fuel i
  poll_until-Ends zero i h = Ends-here zero i (ground arith)
  poll_until-Ends (suc fuel) i h = elim (Bool-cases (is_last i)) [
    | inl e ↦ Ends-here (suc fuel) i e
    | inr e ↦ Ends-later fuel i e (poll_until-Ends fuel (suc i) (omega arith))
  ]

  -- Enough for polls a period apart.
  abbrev pub enough : ℕ
  enough = suc (timeout / period + 1)

  -- Within that fuel the loop ends, at the first poll that is the last.
  pub poll_until_ends :
      0 < period
      → (m : ℕ) × (poll_until enough 0 0 ≡ some (ltb (time m) timeout, m))
        × (is_last m ≡ true)
        × (none_last m 0 ≡ true)
        × (m ≤ timeout / period + 1)
  unfolding Ends
  poll_until_ends h =
      let fits : timeout ≤ time 0 + (timeout / period + 1) * period =
        omega (arith, lt-mul-div-succ timeout h, mul_comm (timeout / period + 1) period) in
      let (n, m, at, ends, last, before, bound) = poll_until-Ends (timeout / period + 1) 0 fits in
      let same : m ≡ n = omega (arith, at) in
      (m, ends, last, rw same before, omega (arith, at, bound))
