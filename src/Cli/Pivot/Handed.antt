-- ===== src/Cli/Pivot/Handed.antt =====
-- What a trace of the pivot leaves for the supervisor, and how that passes through a sequence.
use xmorph.Base.{
  Bool, true, Option, none, some, List, [], ◌∷◌, ◌++◌, ◌≡◌, refl, append-nil, ◌∙◌, arith,
}
use xmorph.Base.Bytes.{Bytes, codes}
use xmorph.Base.Int.{is_positive}
use xmorph.Base.Result.{Result, ok, err}
use xmorph.Config.Types.{Config, ssh_enabled, tailscale_enabled}
use xmorph.Postpivot.InitConfig.{InitConfig, binary_path}
use xmorph.Cli.Entrypoint.{ensure_ssh_usable, Launch, build_postpivot_config}
use xmorph.Cli.Run.{
  Event, write_config, exec_supervisor, Failure, Run, Exit, replaced, returned, ◌>>=◌, deferring,
  continue,
}
use xmorph.Cli.Run.Monitor.{did_exec}

-- The last configuration that was written, and the last program that was executed, with whether it
-- got the watchdog's descriptor.
abbrev pub config_event : Event → Option InitConfig
config_event (write_config w) = some w
config_event _ = none

abbrev pub exec_event : Event → Option (List Bytes × Bool)
exec_event (exec_supervisor argv fd) = some (argv, fd)
exec_event _ = none

module _ {ℓ} {A : Type ℓ} (p : Event → Option A) where
  abbrev or_first : Option A → Option A → Option A
  or_first none o = o
  or_first (some a) o = some a

  abbrev pub last_of : List Event → Option A
  last_of [] = none
  last_of (e ∷ es) = or_first (last_of es) (p e)

  pub last_of-append : (t u : List Event) (a : A) → last_of u ≡ some a → last_of (t ++ u) ≡ some a
  last_of-append [] u a h = h
  last_of-append (e ∷ t) u a h = rw (last_of-append t u a h) refl

  pub last_of-append_none : (t u : List Event) → last_of u ≡ none → last_of (t ++ u) ≡ last_of t
  last_of-append_none [] u h = h
  last_of-append_none (e ∷ t) u h = rw (last_of-append_none t u h) refl

-- What the pivot leaves for the supervisor: the configuration that it reads, and how it is started.
pub record Handed (passphrase : Option Bytes) (c : Config) (t : List Event) : Type 0 where
  pub usable : Config
  pub announced : Bytes
  pub entrypoint : Bytes
  pub args : List Bytes
  pub made : ensure_ssh_usable passphrase c ≡ some (usable, announced)
  pub same_ssh : ssh_enabled usable ≡ ssh_enabled c
  pub same_tailscale : tailscale_enabled usable ≡ tailscale_enabled c
  pub same_firewall : usable.keep_firewall ≡ c.keep_firewall
  pub same_old_root : usable.keep_old_root ≡ c.keep_old_root
  pub written : last_of config_event t ≡ some (build_postpivot_config usable entrypoint args)
  pub executed :
      last_of exec_event t
      ≡ some (binary_path ∷ codes "--init" ∷ entrypoint ∷ args, is_positive c.watchdog_timeout)

pub Handed-append :
    (pw : Option Bytes) (c : Config) (t u : List Event) → Handed pw c u → Handed pw c (t ++ u)
Handed-append pw c t u h = record {
  usable = h.usable;
  announced = h.announced;
  made = h.made;
  entrypoint = h.entrypoint;
  args = h.args;
  same_ssh = h.same_ssh;
  same_tailscale = h.same_tailscale;
  same_firewall = h.same_firewall;
  same_old_root = h.same_old_root;
  written = last_of-append config_event t u _ h.written;
  executed = last_of-append exec_event t u _ h.executed;
}

Handed-continue {ℓ} :
    {A : Type ℓ} (pw : Option Bytes) (c : Config) (t : List Event) (r : Result Failure A)
    (f : A → Run Exit)
    → ((a : A) → r ≡ ok a → did_exec (f a).1 ≡ true → Handed pw c (f a).0)
    → did_exec (continue t r f).1 ≡ true
    → Handed pw c (continue t r f).0
Handed-continue pw c t (ok a) f k h = Handed-append pw c t (f a).0 (k a refl h)
Handed-continue pw c t (err e) f k h = cc

-- A sequence hands over if its rest does, whatever comes first.
pub Handed-bind {ℓ} :
    {A : Type ℓ} (pw : Option Bytes) (c : Config) (m : Run A) (f : A → Run Exit)
    → ((a : A) → m.1 ≡ ok a → did_exec (f a).1 ≡ true → Handed pw c (f a).0)
    → did_exec (m >>= f).1 ≡ true
    → Handed pw c (m >>= f).0
unfolding ◌>>=◌
Handed-bind pw c m f k h = Handed-continue pw c m.0 m.1 f k h

-- A function that hands over runs none of its deferred calls.
pub deferring-exec :
    (held : Bool) (e : Event) (m : Run Exit) → did_exec m.1 ≡ true → (deferring held e m).0 ≡ m.0
deferring-exec held e (t, ok replaced) h = ground (arith, append-nil t)
deferring-exec held e (t, ok returned) h = cc
deferring-exec held e (t, err f) h = cc

-- Only the execution of the supervisor is left.
pub record Launched (c : Config) (launch : Launch) (t : List Event) : Type 0 where
  pub unwritten : last_of config_event t ≡ none
  pub launched :
      last_of exec_event t
      ≡ some (
        binary_path ∷ codes "--init" ∷ launch.entrypoint ∷ launch.args,
        is_positive c.watchdog_timeout,
      )

Launched-continue {ℓ} :
    {A : Type ℓ} (c : Config) (launch : Launch) (t : List Event) (r : Result Failure A)
    (f : A → Run Exit)
    → last_of config_event t ≡ none
    → ((a : A) → did_exec (f a).1 ≡ true → Launched c launch (f a).0)
    → did_exec (continue t r f).1 ≡ true
    → Launched c launch (continue t r f).0
Launched-continue c launch t (ok a) f n k h =
    let rest = k a h in
    record {
      unwritten = last_of-append_none config_event t (f a).0 rest.unwritten ∙ n;
      launched = last_of-append exec_event t (f a).0 _ rest.launched;
    }
Launched-continue c launch t (err e) f n k h = cc

pub Launched-bind {ℓ} :
    {A : Type ℓ} (c : Config) (launch : Launch) (m : Run A) (f : A → Run Exit)
    → last_of config_event m.0 ≡ none
    → ((a : A) → did_exec (f a).1 ≡ true → Launched c launch (f a).0)
    → did_exec (m >>= f).1 ≡ true
    → Launched c launch (m >>= f).0
unfolding ◌>>=◌
Launched-bind c launch m f n k h = Launched-continue c launch m.0 m.1 f n k h
