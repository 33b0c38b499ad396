-- ===== src/Postpivot/Run.antt =====
-- internal/postpivot/run.go: `Run`, the supervisor's main, over the answers of what it calls. Log
-- messages are left out. Deferred closes, which come when it returns, are left out too.
pub mod Handover
use xmorph.Base.{
  ℕ, Bool, true, false, Option, none, some, List, [], ◌∷◌, ◌++◌, ◌&&◌, ◌||◌, not, if◌then◌else◌,
  ◌==◌,
}
use xmorph.Base.Bytes.{Bytes, codes, equal, is_empty}
use xmorph.Base.Int.{ℤ, is_positive}
use xmorph.Postpivot.InitConfig.{InitConfig, SshConfig, TsConfig, binary_path}

pub data Setup : Type 0 where
  ensure_device_nodes load_config remove_config flush_firewall : Setup
  open_logs : Bytes → Setup
  adopt_watchdog : ℕ → ℤ → Setup
  start_tsnet : Bytes → Setup
  announce_password : Bytes → ℕ → Setup
  start_ssh : SshConfig → Bool → Setup

-- What comes last: no entrypoint, waiting for a signal, or the supervised entrypoint with its
-- arguments, whether its exit reboots, and the old root.
pub data Final : Type 0 where
  no_entrypoint : Final
  serve : Final
  supervised : List Bytes → Bool → Bytes → Final

-- Whether the log directory can be made, the inherited
-- descriptor of the watchdog, and whether Tailscale comes up.
pub record Inherited : Type 0 where
  pub makes_log_dir : Bool
  pub watchdog_fd : Option ℕ
  pub tsnet_starts : Bool

abbrev pub only_if : Bool → List Setup → List Setup
only_if true es = es
only_if false es = []

-- Config-supplied entrypoint and command beat argv.
abbrev pub chosen : Option InitConfig → List Bytes → List Bytes
chosen none argv = argv
chosen (some c) argv = elim c.entrypoint [ [] ↦ argv | e ∷ es ↦ (e ∷ es) ++ c.command ]

abbrev pub is_idle : List Bytes → Bool
is_idle [] = false
is_idle (program ∷ []) = false
is_idle (program ∷ arg ∷ []) = equal program binary_path && equal arg (codes "idle")
is_idle (program ∷ arg ∷ more ∷ args) = false

abbrev pub finally : Option InitConfig → List Bytes → Final
finally c [] = no_entrypoint
finally c (program ∷ args) = if is_idle (program ∷ args) then serve else elim c [
  | none ↦ supervised (program ∷ args) true []
  | some s ↦ supervised (program ∷ args) s.reboot_on_exit s.keep_old_root
]

module _ (host : Inherited) where
  unfoldable pub watchdog_setup : InitConfig → List Setup
  watchdog_setup c =
      if is_positive c.watchdog_timeout_seconds
      then (elim host.watchdog_fd [
        | none ↦ []
        | some fd ↦ adopt_watchdog fd c.watchdog_timeout_seconds ∷ []
      ])
      else []

  unfoldable pub tsnet_setup : InitConfig → List Setup
  tsnet_setup c = elim c.tailscale [ none ↦ [] | some ts ↦ start_tsnet ts.args ∷ [] ]

  -- sshd listens on the tailnet too if Tailscale came up.
  unfoldable pub ssh_setup : InitConfig → List Setup
  ssh_setup c = elim c.ssh [
    | none ↦ []
    | some s ↦
        only_if (s.password_generated && not (is_empty s.password))
          (announce_password s.password s.port ∷ [])
        ++ (start_ssh s (elim c.tailscale [ none ↦ false | some ts ↦ host.tsnet_starts ]) ∷ [])
  ]

  unfoldable pub services : InitConfig → List Setup
  unfolding watchdog_setup tsnet_setup ssh_setup
  services c =
      only_if c.flush_firewall (flush_firewall ∷ [])
      ++ (only_if (not (is_empty c.log_persist_dir) && host.makes_log_dir)
            (open_logs c.log_persist_dir ∷ [])
          ++ (watchdog_setup c ++ (tsnet_setup c ++ ssh_setup c)))

  abbrev pub setup : Option InitConfig → List Setup
  setup none = []
  setup (some c) = services c

  -- With the configuration that was loaded, if one was.
  unfoldable pub run : Option InitConfig → List Bytes → List Setup × Final
  unfolding services
  run loaded argv = (
    ensure_device_nodes ∷ load_config ∷ remove_config ∷ setup loaded,
    finally loaded (chosen loaded argv),
  )
