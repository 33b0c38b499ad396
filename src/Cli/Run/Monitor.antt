-- ===== src/Cli/Run/Monitor.antt =====
-- A state of the machine that events turn on and off, followed along a trace.
use xmorph.Base.{Bool, true, false, List, [], ◌∷◌, ◌++◌, ◌&&◌, ◌≡◌, refl, ◌∙◌}
use xmorph.Base.Result.{Result, ok, err}
use xmorph.Cli.Run.{
  Event, mount_tmpfs, unmount_tmpfs, arm_watchdog, disarm_watchdog, Failure, Run, Exit, returned,
  replaced, continue, ◌>>=◌, check,
}

-- Whether our tmpfs was mounted and its unmount is still to be called.
abbrev pub awaits_unmount : Bool → Event → Bool
awaits_unmount b (mount_tmpfs size) = true
awaits_unmount b unmount_tmpfs = false
awaits_unmount b _ = b

-- Whether the watchdog is armed.
abbrev pub armed : Bool → Event → Bool
armed b (arm_watchdog timeout) = true
armed b disarm_watchdog = false
armed b _ = b

abbrev pub after : (Bool → Event → Bool) → Bool → List Event → Bool
after step b [] = b
after step b (e ∷ es) = after step (step b e) es

-- Whether the process was replaced by the supervisor.
abbrev pub did_exec : Result Failure Exit → Bool
did_exec (ok replaced) = true
did_exec (ok returned) = false
did_exec (err f) = false

pub after-append :
    (step : Bool → Event → Bool) (b : Bool) (t u : List Event)
    → after step b (t ++ u) ≡ after step (after step b t) u
after-append step b [] u = refl
after-append step b (e ∷ t) u = after-append step (step b e) t u

pub after-check :
    (step : Bool → Event → Bool) (b : Bool) (f : Failure) → after step false (check b f).0 ≡ false
after-check step true f = refl
after-check step false f = refl

module _ (step : Bool → Event → Bool) (own : Bool) where
  -- At the end the state is on exactly if the process was replaced and it is one to keep.
  abbrev pub Releases : Run Exit → Type 0
  Releases m = after step false m.0 ≡ (did_exec m.1 && own)

  Releases-continue {ℓ} :
      {A : Type ℓ} (t : List Event) (r : Result Failure A) (f : A → Run Exit)
      → after step false t ≡ false
      → ((a : A) → r ≡ ok a → Releases (f a))
      → Releases (continue t r f)
  Releases-continue t (ok a) f h k = after-append step false t (f a).0 ∙ rw h (k a refl)
  Releases-continue t (err e) f h k = h

  -- A part that leaves the state off may stand in front.
  pub Releases-bind {ℓ} :
      {A : Type ℓ} (m : Run A) (f : A → Run Exit)
      → after step false m.0 ≡ false
      → ((a : A) → m.1 ≡ ok a → Releases (f a))
      → Releases (m >>= f)
  unfolding ◌>>=◌
  Releases-bind m f h k = Releases-continue m.0 m.1 f h k
