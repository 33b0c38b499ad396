-- ===== src/Cli/Run/Trace.antt =====
-- How a property of every event, a test for some event, and success pass through a sequence.
use xmorph.Base.{Bool, false, List, ◌||◌, any, any-append, ◌≡◌, arith}
use xmorph.Base.Result.{Result, ok, err}
use xmorph.Cli.Run.{Event, Failure, Run, continue, ◌>>=◌}

-- A test on what was returned; an error fails it.
abbrev pub test {ℓ} : {A : Type ℓ} → (A → Bool) → Result Failure A → Bool
test p (ok a) = p a
test p (err e) = false

module _ {ℓ κ} {A : Type ℓ} {B : Type κ} where
  any-continue :
      (p : Event → Bool) (t : List Event) (r : Result Failure A) (f : A → Run B)
      → any p (continue t r f).0 ≡ (any p t || test (λ a. any p (f a).0) r)
  any-continue p t (ok a) f = any-append p t (f a).0
  any-continue p t (err e) f = ground arith

  -- An event occurs in a sequence in its first part, or in the rest, which is reached.
  pub any-bind :
      (p : Event → Bool) (m : Run A) (f : A → Run B)
      → any p (m >>= f).0 ≡ (any p m.0 || test (λ a. any p (f a).0) m.1)
  unfolding ◌>>=◌
  any-bind p m f = any-continue p m.0 m.1 f
