-- ===== src/Cli/Pivot/Staged.antt =====
-- What each stage of the pivot leaves for the supervisor.
use xmorph.Base.{
  Bool, true, false, Option, none, some, List, [], ◌∷◌, ◌++◌, if◌then◌else◌, ◌≡◌, refl, ◌∙◌, arith,
  Option-cases, inl, inr,
}
use xmorph.Base.Bytes.{Bytes}
use xmorph.Base.Int.{is_positive}
use xmorph.Base.Result.{Result, ok, err}
use xmorph.Config.Types.{Config, ssh_enabled, tailscale_enabled}
use xmorph.Cli.Entrypoint.{Launch, ensure_ssh_usable, build_postpivot_config}
use xmorph.Cli.Host.{Host}
use xmorph.Cli.Run.{
  print_plan, Event, unmount_tmpfs, needs_root, needs_force, Failure, Run, Exit, returned, ◌>>=◌,
  deferring, continue, check, when, acquire, arm_watchdog, disarm_watchdog, arm_failed,
}
use xmorph.Cli.Run.Monitor.{did_exec}
use xmorph.Cli.Pivot.{
  start, storage, stage, precheck, stop_services, swap_roots, exec_new, finish, commit,
  after_storage, run_contain, pivot_host, run_pivot,
}
use xmorph.Cli.Pivot.Handed.{
  config_event, exec_event, last_of, last_of-append, last_of-append_none, Handed, Handed-bind,
  deferring-exec, Launched, Launched-bind,
}

module _ (h : Host) (c : Config) (launch : Launch) where
  exec_new-Launched :
      did_exec (exec_new h c launch).1 ≡ true → Launched c launch (exec_new h c launch).0
  unfolding exec_new
  exec_new-Launched e = record { unwritten = refl; launched = refl }

  swap_roots-last : last_of config_event (swap_roots h c).0 ≡ none
  unfolding swap_roots ◌>>=◌
  swap_roots-last = ground arith

  finish-Launched : did_exec (finish h c launch).1 ≡ true → Launched c launch (finish h c launch).0
  unfolding finish
  finish-Launched e =
      Launched-bind c launch (swap_roots h c) _ swap_roots-last (λ u. exec_new-Launched) e

  deferred-Launched :
      did_exec (finish h c launch).1 ≡ true
      → Launched c launch
          (deferring (is_positive c.watchdog_timeout) disarm_watchdog (finish h c launch)).0
  deferred-Launched e =
      rw (deferring-exec (is_positive c.watchdog_timeout) disarm_watchdog (finish h c launch) e)
        (finish-Launched e)

  stop_services-last : last_of config_event (stop_services h c).0 ≡ none
  unfolding stop_services ◌>>=◌
  stop_services-last = ground arith

  armed-last :
      (armed : Bool)
      → last_of config_event
          (when armed (acquire (arm_watchdog c.watchdog_timeout) h.arms_watchdog arm_failed)).0
        ≡ none
  armed-last armed = ground arith

  commit-Launched : did_exec (commit h c launch).1 ≡ true → Launched c launch (commit h c launch).0
  unfolding commit
  commit-Launched e =
      Launched-bind c launch (stop_services h c) _ stop_services-last
        (λ u.
          Launched-bind c launch
            (when (is_positive c.watchdog_timeout)
              (acquire (arm_watchdog c.watchdog_timeout) h.arms_watchdog arm_failed))
            _ (armed-last (is_positive c.watchdog_timeout)) (λ v. deferred-Launched))
        e

  precheck-last : last_of config_event (precheck h c).0 ≡ none
  unfolding precheck ◌>>=◌
  precheck-last = ground arith

  rest-Launched :
      did_exec (precheck h c >>= (λ u. commit h c launch)).1 ≡ true
      → Launched c launch (precheck h c >>= (λ u. commit h c launch)).0
  rest-Launched e = Launched-bind c launch (precheck h c) _ precheck-last (λ u. commit-Launched) e

-- What staging writes, and what it keeps of the configuration.
record Staged (passphrase : Option Bytes) (c : Config) (launch : Launch) (t : List Event)
    : Type 0 where
  usable : Config
  announced : Bytes
  made : ensure_ssh_usable passphrase c ≡ some (usable, announced)
  same_ssh : ssh_enabled usable ≡ ssh_enabled c
  same_tailscale : tailscale_enabled usable ≡ tailscale_enabled c
  same_firewall : usable.keep_firewall ≡ c.keep_firewall
  same_old_root : usable.keep_old_root ≡ c.keep_old_root
  staged :
      last_of config_event t ≡ some (build_postpivot_config usable launch.entrypoint launch.args)

-- What ensureSSHUsable keeps.
ensure_ssh_usable_keeps :
    (passphrase : Option Bytes) (c : Config) (usable : Config × Bytes)
    → ensure_ssh_usable passphrase c ≡ some usable
    → (ssh_enabled usable.0 ≡ ssh_enabled c)
      × (tailscale_enabled usable.0 ≡ tailscale_enabled c)
      × (usable.0.keep_firewall ≡ c.keep_firewall)
      × (usable.0.keep_old_root ≡ c.keep_old_root)
unfolding ensure_ssh_usable ssh_enabled tailscale_enabled
ensure_ssh_usable_keeps none c usable e = ground arith
ensure_ssh_usable_keeps (some pw) c usable e = ground arith

module _ (h : Host) (c : Config) where
  stage-usable :
      (launch : Launch)
      → (stage h c).1 ≡ ok launch
      → (usable : Config × Bytes) × (ensure_ssh_usable h.passphrase c ≡ some usable)
  unfolding stage ◌>>=◌
  stage-usable launch e = elim (Option-cases (ensure_ssh_usable h.passphrase c)) [
    | inl u ↦ absurd (ground (arith, u, e))
    | inr (usable, u) ↦ (usable, u)
  ]

  stage-last :
      (launch : Launch) (usable : Config × Bytes)
      → (stage h c).1 ≡ ok launch
      → ensure_ssh_usable h.passphrase c ≡ some usable
      → last_of config_event (stage h c).0
        ≡ some (build_postpivot_config usable.0 launch.entrypoint launch.args)
  unfolding stage ◌>>=◌
  stage-last launch usable e u = ground (arith, u, e)

  stage-Staged :
      (launch : Launch) → (stage h c).1 ≡ ok launch → Staged h.passphrase c launch (stage h c).0
  stage-Staged launch e =
      let (usable, u) = stage-usable launch e in
      let (ssh, ts, firewall, old_root) = ensure_ssh_usable_keeps h.passphrase c usable u in
      record {
        usable = usable.0;
        announced = usable.1;
        made = u;
        same_ssh = ssh;
        same_tailscale = ts;
        same_firewall = firewall;
        same_old_root = old_root;
        staged = stage-last launch usable e u;
      }

  Staged-Launched :
      (launch : Launch) (t u : List Event)
      → Staged h.passphrase c launch t
      → Launched c launch u
      → Handed h.passphrase c (t ++ u)
  Staged-Launched launch t u s l = record {
    usable = s.usable;
    announced = s.announced;
    made = s.made;
    entrypoint = launch.entrypoint;
    args = launch.args;
    same_ssh = s.same_ssh;
    same_tailscale = s.same_tailscale;
    same_firewall = s.same_firewall;
    same_old_root = s.same_old_root;
    written = last_of-append_none config_event t u l.unwritten ∙ s.staged;
    executed = last_of-append exec_event t u _ l.launched;
  }

  stages-Handed :
      (t : List Event) (r : Result Failure Launch)
      → ((launch : Launch) → r ≡ ok launch → Staged h.passphrase c launch t)
      → did_exec (continue t r (λ launch. precheck h c >>= (λ u. commit h c launch))).1 ≡ true
      → Handed h.passphrase c (continue t r (λ launch. precheck h c >>= (λ u. commit h c launch))).0
  stages-Handed t (ok launch) s e =
      Staged-Launched launch t _ (s launch refl) (rest-Launched h c launch e)
  stages-Handed t (err f) s e = cc

  after_storage-Handed :
      did_exec (after_storage h c).1 ≡ true → Handed h.passphrase c (after_storage h c).0
  unfolding after_storage ◌>>=◌
  after_storage-Handed e = stages-Handed (stage h c).0 (stage h c).1 stage-Staged e

  deferred-Handed :
      (held : Bool)
      → did_exec (after_storage h c).1 ≡ true
      → Handed h.passphrase c (deferring held unmount_tmpfs (after_storage h c)).0
  deferred-Handed held e =
      rw (deferring-exec held unmount_tmpfs (after_storage h c) e) (after_storage-Handed e)

  pivot_host-Handed : did_exec (pivot_host h c).1 ≡ true → Handed h.passphrase c (pivot_host h c).0
  unfolding pivot_host
  pivot_host-Handed e =
      Handed-bind h.passphrase c (check h.is_root needs_root) _
        (λ a p. Handed-bind h.passphrase c (check c.force needs_force) _ (λ b q.
          Handed-bind h.passphrase c (start h c) _
            (λ d r. Handed-bind h.passphrase c (storage h c) _ (λ held s. deferred-Handed held))))
        e

  run_contain-exec : did_exec (run_contain h c).1 ≡ false
  unfolding run_contain ◌>>=◌
  run_contain-exec = ground arith

  Handed-if :
      (b : Bool) (m n : Run Exit)
      → (did_exec m.1 ≡ true → Handed h.passphrase c m.0)
      → (did_exec n.1 ≡ true → Handed h.passphrase c n.0)
      → did_exec (if b then m else n).1 ≡ true
      → Handed h.passphrase c (if b then m else n).0
  Handed-if true m n f g e = f e
  Handed-if false m n f g e = g e

  pub run_pivot-Handed : did_exec (run_pivot h c).1 ≡ true → Handed h.passphrase c (run_pivot h c).0
  unfolding run_pivot
  run_pivot-Handed e =
      Handed-if c.dry_run (print_plan ∷ [], ok returned) _ (λ d. absurd (ground (arith, d)))
        (Handed-if c.contain (run_contain h c) (pivot_host h c)
          (λ d. absurd (ground (arith, d, run_contain-exec))) pivot_host-Handed)
        e
