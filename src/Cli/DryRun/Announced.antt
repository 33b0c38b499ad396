-- ===== src/Cli/DryRun/Announced.antt =====
-- The SSH server that a dry run announces is the one that the pivot stages.
use xmorph.Base.{
  ℕ, false, Option, none, some, List, [], ◌∷◌, ◌++◌, if◌then◌else◌, ◌+◌, ◌≡◌, ◌≢◌, refl, sym, arith,
  ◌∙◌, Bool-cases, inl, inr,
}
use xmorph.Base.Bytes.{Bytes, is_empty, trim_space}
use xmorph.Config.Types.{Config, Layer, ssh_enabled, tailscale_enabled}
use xmorph.Initsys.{Kind}
use xmorph.Cli.Entrypoint.{ensure_ssh_usable, build_postpivot_config}
use xmorph.Postpivot.InitConfig.{SshConfig}
use xmorph.Cli.DryRun.{
  Auth, public_key, password_given, password_generated, PlanStep, build_from, merge_layer,
  verify_structure, terminate_processes, execute_pivot_root, tailscale_script, start_ssh,
  coordinate, execute, Plan, key_count, auth_lines, plan_port, merges, later_steps, number_from,
  plan_of, print_dry_run,
}

-- The first step that starts an SSH server, with its port and its ways to log in.
abbrev pub announced : List (ℕ × PlanStep) → Option (ℕ × List Auth)
announced [] = none
announced ((n, build_from l k) ∷ ss) = announced ss
announced ((n, merge_layer l k) ∷ ss) = announced ss
announced ((n, verify_structure) ∷ ss) = announced ss
announced ((n, terminate_processes) ∷ ss) = announced ss
announced ((n, execute_pivot_root) ∷ ss) = announced ss
announced ((n, tailscale_script k a) ∷ ss) = announced ss
announced ((n, start_ssh port auths) ∷ ss) = some (port, auths)
announced ((n, coordinate k) ∷ ss) = announced ss
announced ((n, execute e) ∷ ss) = announced ss

abbrev pub announced_by : Option Plan → Option (ℕ × List Auth)
announced_by none = none
announced_by (some p) = announced p.steps

-- The ways to log in to a staged server.
abbrev pub staged_auth : SshConfig → List Auth
staged_auth s =
    (if is_empty s.authorized_keys
      then []
      else public_key (key_count (trim_space s.authorized_keys)) ∷ [])
    ++ (if is_empty s.password
        then []
        else (if s.password_generated then password_generated ∷ [] else password_given ∷ []))

abbrev pub staged : Option SshConfig → Option (ℕ × List Auth)
staged none = none
staged (some s) = some (s.port, staged_auth s)

announced-merges :
    (n : ℕ) (ls : List Layer) (ss : List PlanStep) (o : Option (ℕ × List Auth))
    → ((m : ℕ) → announced (number_from m ss) ≡ o)
    → announced (number_from n (merges ls ++ ss)) ≡ o
unfolding number_from
announced-merges n [] ss o h = h n
announced-merges n (l ∷ ls) ss o h = announced-merges (n + 1) ls ss o h

announced-later_steps :
    (host : Option Bytes) (kind : Kind) (c : Config) (n : ℕ)
    → announced (number_from n (later_steps host kind c))
      ≡ (if ssh_enabled c then some (plan_port c.ssh_port, auth_lines c) else none)
unfolding number_from
announced-later_steps host kind c n = elim (Bool-cases (tailscale_enabled c)) [
  | inl t ↦ elim (Bool-cases (ssh_enabled c)) [
    | inl s ↦ rw (t, s) refl
    | inr s ↦ elim (Bool-cases c.no_init_coord) [
      | inl k ↦ rw (t, s, k) refl
      | inr k ↦ rw (t, s, k) refl
    ]
  ]
  | inr t ↦ elim (Bool-cases (ssh_enabled c)) [
    | inl s ↦ rw (t, s) refl
    | inr s ↦ elim (Bool-cases c.no_init_coord) [
      | inl k ↦ rw (t, s, k) refl
      | inr k ↦ rw (t, s, k) refl
    ]
  ]
]

staged-usable :
    (pw : Bytes) (c : Config) (usable : Config × Bytes) (entrypoint : Bytes) (args : List Bytes)
    → is_empty pw ≡ false
    → c.ssh_password_generated ≡ false
    → ensure_ssh_usable (some pw) c ≡ some usable
    → staged (build_postpivot_config usable.0 entrypoint args).ssh
      ≡ (if ssh_enabled c then some (plan_port c.ssh_port, auth_lines c) else none)
unfolding ensure_ssh_usable build_postpivot_config ssh_enabled
staged-usable pw c usable entrypoint args n g e = ground arith

plan_of-announced :
    (host : Option Bytes) (kind : Kind) (c : Config) (layers : List Layer)
    → layers ≢ []
    → announced_by (plan_of host kind c layers)
      ≡ (if ssh_enabled c then some (plan_port c.ssh_port, auth_lines c) else none)
unfolding plan_of number_from
plan_of-announced host kind c [] n = absurd (n refl)
plan_of-announced host kind c (l ∷ ls) n =
    announced-merges (1 + 1) ls (later_steps host kind c) _ (announced-later_steps host kind c)

-- If the passphrase that may be generated is not empty, the operator's configuration does not call
-- its password a generated one, and there is a layer, then the dry run announces an SSH server exactly
-- if the pivot stages one, with the same port, with a password that is generated, given or neither
-- as it is there, and with keys if there are any.
pub print_dry_run-staged :
    (host : Option Bytes) (kind : Kind) (pw : Bytes) (c : Config) (usable : Config × Bytes)
    (entrypoint : Bytes) (args : List Bytes)
    → is_empty pw ≡ false
    → c.ssh_password_generated ≡ false
    → c.layers ≢ []
    → ensure_ssh_usable (some pw) c ≡ some usable
    → announced_by (print_dry_run host kind c)
      ≡ staged (build_postpivot_config usable.0 entrypoint args).ssh
unfolding print_dry_run
print_dry_run-staged host kind pw c usable entrypoint args n g l e =
    plan_of-announced host kind c c.layers l ∙ sym (staged-usable pw c usable entrypoint args n g e)
