-- ===== src/Cli/Entrypoint.antt =====
-- internal/cli/pivot.go: the decisions of the pivot that need no system call.
use xmorph.Base.{
  ℕ, Bool, true, Option, none, some, List, [], ◌∷◌, ◌++◌, ◌&&◌, ◌||◌, not, if◌then◌else◌, any,
}
use xmorph.Base.Bytes.{Bytes, codes, equal, is_empty}
use xmorph.Base.Int.{quot_pos}
use xmorph.Path.{base, join_all}
use xmorph.Config.Types.{Config, ssh_enabled, tailscale_enabled, second}
use xmorph.Oci.ImageConfig.{ImageConfig, elements}
use xmorph.Postpivot.InitConfig.{InitConfig}

-- What is run in the new root.
pub record Launch : Type 0 where
  pub entrypoint : Bytes
  pub args : List Bytes
  pub env : Option (List Bytes)

abbrev from_config : Config → Option (List Bytes) → Launch
from_config c env = record { entrypoint = c.entrypoint; args = c.command; env = env }

unfoldable pub resolve_image : Config → List Bytes → List Bytes → Option (List Bytes) → Launch
resolve_image c (e ∷ es) cmd env = record { entrypoint = e; args = es ++ cmd; env = env }
resolve_image c [] (e ∷ cmd) env = record { entrypoint = e; args = cmd; env = env }
resolve_image c [] [] env = from_config c env

unfoldable pub resolve_entrypoint : Config → Option ImageConfig → Launch
unfolding resolve_image
resolve_entrypoint c none = from_config c none
resolve_entrypoint c (some ic) =
    if c.entrypoint_explicit
    then from_config c ic.env
    else resolve_image c (elements ic.entrypoint) (elements ic.cmd) ic.env

-- `shellEntrypoints`
abbrev shells : List Bytes
shells = codes "sh" ∷ codes "bash" ∷ codes "ash" ∷ codes "dash" ∷ codes "zsh" ∷ codes "busybox" ∷ []

-- `checkEntrypointSurvivesDetach` returns no error.
unfoldable pub survives_detach : Bool → Config → Bytes → Bool
unfolding base
survives_detach stdin_is_terminal c entrypoint =
    c.contain || (not (any (equal (base entrypoint)) shells) || stdin_is_terminal)

abbrev pub ssh_port : Config → ℕ
ssh_port c = elim c.ssh_port [ none ↦ 22 | some p ↦ p ]

-- `ensureSSHUsable`: the configuration that it leaves, with the password that it generated. `none`
-- if a password is needed and none can be generated.
unfoldable pub ensure_ssh_usable : Option Bytes → Config → Option (Config × Bytes)
ensure_ssh_usable passphrase c =
    if not (ssh_enabled c)
    then some (c, [])
    else if not (is_empty c.ssh_password) || not (is_empty c.ssh_authorized_keys)
    then some (c, [])
    else elim passphrase [
      | none ↦ none
      | some pw ↦ some (record c { ssh_password = pw; ssh_password_generated = true }, pw)
    ]

unfoldable pub build_postpivot_config : Config → Bytes → List Bytes → InitConfig
unfolding join_all
build_postpivot_config c entrypoint args = record {
  flush_firewall = not c.keep_firewall;
  reboot_on_exit = true;
  watchdog_timeout_seconds = quot_pos c.watchdog_timeout second;
  keep_old_root = c.keep_old_root;
  log_persist_dir =
      if not (is_empty c.log_persist_path) && not (is_empty c.keep_old_root)
      then join_all (c.keep_old_root ∷ c.log_persist_device ∷ c.log_persist_path ∷ [])
      else [];
  ssh =
      if ssh_enabled c
      then some (record {
        port = ssh_port c;
        password = c.ssh_password;
        password_generated = c.ssh_password_generated;
        authorized_keys = c.ssh_authorized_keys;
      })
      else none;
  tailscale =
      if tailscale_enabled c
      then some (record { auth_key = c.tailscale_authkey; args = c.tailscale_args })
      else none;
  entrypoint = entrypoint ∷ args;
  command = [];
}
