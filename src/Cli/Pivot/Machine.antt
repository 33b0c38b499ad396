-- ===== src/Cli/Pivot/Machine.antt =====
-- The pivot on a machine whose answers come from the models of what it calls: the mounts, the
-- watchdog, the resolver's file and the generated password.
use xmorph.Base.{
  ℕ, Bool, true, false, Option, some, List, [], ◌&&◌, ◌||◌, not, All, ◌≡◌, ◌≢◌, refl, ◌∙◌, arith,
}
use xmorph.Base.Bytes.{Bytes}
use xmorph.Base.Bytes.Words.{IsWord}
use xmorph.Base.Int.{ℤ, pos, negsuc, is_positive}
use xmorph.Base.Result.{Result, ok, err}
use xmorph.Config.Types.{Config, ssh_enabled}
use xmorph.Passphrase.{parse_wordlist, generate, default_words}
use xmorph.Pivot.Mounts
use xmorph.Pivot.Mounts.{Kernel, prepare}
use xmorph.Pivot.Mounts.Visible.{visible, essentials_seen, prepare-visible}
use xmorph.Postpivot.InitConfig.{InitConfig}
use xmorph.Postpivot.ResolvConf
use xmorph.Postpivot.ResolvConf.{
  Net, fallback_nameservers, ensure_resolv_conf, read_nameservers, all_loopback,
}
use xmorph.Postpivot.ResolvConf.Usable.{ensure_resolv_conf-read_nameservers}
use xmorph.Postpivot.Sshd
use xmorph.Postpivot.Sshd.{Outside, start_ssh_server}
use xmorph.Postpivot.Sshd.Starts.{is_ok, binds, all_keys}
use xmorph.Postpivot.Sshd.Staged.{operator_keys, has_some, ensure_ssh_usable-start_ssh_server}
use xmorph.Postpivot.Watchdog
use xmorph.Postpivot.Watchdog.{
  Answers, open_watchdog, arm_watchdog_pre_pivot, ensure_watchdog_available,
}
use xmorph.Postpivot.Watchdog.Device.{react_all, idle, is_true, arm_watchdog_pre_pivot-ticks}
use xmorph.Cli.Host.{Host}
use xmorph.Cli.Pivot.{run_pivot}
use xmorph.Cli.Pivot.Handed.{config_event, last_of}
use xmorph.Cli.Pivot.Ready.{is_ready, has_stage}
use xmorph.Cli.Pivot.Staged.{run_pivot-Handed}
use xmorph.Cli.Pivot.Success.{run_pivot-did_exec}
use xmorph.Cli.Run.Monitor.{did_exec}

-- What is beneath the pivot: the kernel's mounts and watchdog, the disk of the new root with its
-- resolver's file and that of the host, the word list, and the numbers at random.
pub record Machine : Type 0 where
  pub mounts : Kernel
  pub watchdog : Answers
  pub net : Net
  pub disk : ResolvConf.Disk
  pub resolv_before : Option Bytes
  pub resolv_host : Option Bytes
  pub wordlist : Bytes
  pub draws : List (Option ℕ)

abbrev succeeds {ℓ κ} : {E : Type ℓ} {A : Type κ} → Result E A → Bool
succeeds (ok a) = true
succeeds (err e) = false

module _ (m : Machine) (c : Config) where
  -- The options that runPivot gives.
  abbrev pub prepared : List Mounts.Call × Result Mounts.MountError (Unit {0})
  prepared = prepare m.mounts c.work_dir true true

  abbrev pub armed_device : List Watchdog.Call × Result Watchdog.WatchdogError Bool
  armed_device = arm_watchdog_pre_pivot m.watchdog c.watchdog_timeout

  abbrev pub resolved : Option Bytes × Result ResolvConf.ResolvError (Unit {0})
  resolved = ensure_resolv_conf m.net m.disk m.resolv_before m.resolv_host

  abbrev pub new_phrase : Option Bytes
  new_phrase = generate (parse_wordlist m.wordlist) m.draws default_words

  -- The machine as the pivot sees it; what it does not model is as it was.
  abbrev pub host_on : Host → Host
  host_on h = record h {
    prepares = succeeds prepared.1;
    arms_watchdog = succeeds armed_device.1;
    has_watchdog = succeeds (ensure_watchdog_available m.watchdog).1;
    writes_resolv_conf = succeeds resolved.1;
    passphrase = new_phrase;
  }

module _ (h : Host) (c : Config) where
  exec_needs :
      did_exec (run_pivot h c).1 ≡ true
      → (h.prepares ≡ true)
        × ((not (is_positive c.watchdog_timeout) || h.arms_watchdog) ≡ true)
        × (h.writes_resolv_conf ≡ true)
  unfolding is_ready has_stage
  exec_needs e = ground (arith, run_pivot-did_exec h c)

succeeds-ok : (r : Result Mounts.MountError (Unit {0})) → succeeds r ≡ true → r ≡ ok tt
succeeds-ok (ok tt) h = refl
succeeds-ok (err e) h = cc

resolved-ok :
    (r : Option Bytes × Result ResolvConf.ResolvError (Unit {0}))
    → succeeds r.1 ≡ true
    → r ≡ (r.0, ok tt)
resolved-ok (after, ok tt) h = refl
resolved-ok (after, err e) h = cc

-- A watchdog that did not fail is there exactly if it was asked for.
arm-is_positive :
    (a : Answers) (timeout : ℤ)
    → (not (is_positive timeout) || succeeds (arm_watchdog_pre_pivot a timeout).1) ≡ true
    → is_true (arm_watchdog_pre_pivot a timeout).1 ≡ is_positive timeout
unfolding arm_watchdog_pre_pivot open_watchdog
arm-is_positive a (negsuc n) h = ground arith
arm-is_positive a (pos timeout) h = ground (arith, h)

-- If the pivot hands over to the supervisor, on a machine whose mounts, watchdog, resolver's file and
-- generated password are as the models of these say, then: the essential mounts beneath the new root
-- are there and nothing hides them; the watchdog ticks exactly if one was asked for; the new root's
-- resolver has a server that is no loopback address; and the SSH server of the configuration that was
-- written, in the supervisor's network, starts exactly if SSH is enabled, a port can be bound, a
-- host key is made, every line of the operator's keys that is neither blank nor a comment is a key,
-- and there is a password, or such a line, or no text of keys at all. Of the parser of addresses
-- it is asked that the text of an address is parsed to the address, is not empty and has no spaces,
-- and that the fallback servers are parsed to themselves and are not loopback.
pub run_pivot-host_on :
    (m : Machine) (c : Config) (h : Host) (o : Outside)
    → ((s ip : Bytes)
        → m.net.parse_ip s ≡ some ip
        → (m.net.parse_ip ip ≡ some ip) × (ip ≢ []) × IsWord ip)
    → All (λ s. (m.net.parse_ip s ≡ some s) × (m.net.is_loopback s ≡ false)) fallback_nameservers
    → did_exec (run_pivot (host_on m c h) c).1 ≡ true
    → (w : InitConfig) × (last_of config_event (run_pivot (host_on m c h) c).0 ≡ some w)
      × (visible m.mounts c.work_dir (prepared m c).0 [] ≡ essentials_seen m.mounts c.work_dir)
      × ((react_all (armed_device m c).0 idle).ticks ≡ is_positive c.watchdog_timeout)
      × (all_loopback m.net (read_nameservers m.net (resolved m c).0) ≡ false)
      × (is_ok (start_ssh_server o w.ssh).1 ≡ (
          ssh_enabled c
          && (binds o Sshd.kernel || binds o Sshd.tailnet)
          && (o.generates_host_key && all_keys o (operator_keys c) && has_some c)))
run_pivot-host_on m c h o shown fallback e =
    let (prepares, arms, resolves) = exec_needs (host_on m c h) c e in
    let handed = run_pivot-Handed (host_on m c h) c e in
    let (ticks, is_open, probed, closed) =
      arm_watchdog_pre_pivot-ticks m.watchdog c.watchdog_timeout in
    let (back, routable, again) =
      ensure_resolv_conf-read_nameservers m.net shown fallback m.disk m.resolv_before m.resolv_host
        (resolved m c).0 (resolved-ok (resolved m c) resolves) in
    let (starts, announced, same) =
      ensure_ssh_usable-start_ssh_server o m.wordlist m.draws c (handed.usable, handed.announced)
        handed.entrypoint handed.args handed.made in
    (
      _,
      handed.written,
      prepare-visible m.mounts c.work_dir true true (succeeds-ok (prepared m c).1 prepares),
      ticks ∙ arm-is_positive m.watchdog c.watchdog_timeout arms,
      routable,
      starts,
    )
