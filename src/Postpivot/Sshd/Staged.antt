-- ===== src/Postpivot/Sshd/Staged.antt =====
-- The SSH server of the configuration that the pivot stages.
use xmorph.Base.{
  false, ℕ, Option, Bool, true, some, List, [], ◌&&◌, ◌||◌, not, ◌≡◌, refl, arith, ◌∙◌, Bool-cases,
  inl, inr, none,
}
use xmorph.Base.Bytes.{Bytes, is_empty, equal, equal_refl}
use xmorph.Base.Bytes.Lines.{split}
use xmorph.Config.Types.{Config, ssh_enabled}
use xmorph.Cli.Entrypoint.{ensure_ssh_usable, build_postpivot_config, ssh_port}
use xmorph.Passphrase.{parse_wordlist, generate, default_words}
use xmorph.Passphrase.Words.{generate-ne-nil}
use xmorph.Postpivot.InitConfig.{SshConfig}
use xmorph.Postpivot.Sshd.{Outside, kernel, tailnet, start_ssh_server}
use xmorph.Postpivot.Sshd.Starts.{
  is_ok, binds, key_lines, all_keys, no_keys, start_ssh_server-has_auth,
}

-- The lines of the operator's keys.
abbrev pub operator_keys : Config → List Bytes
operator_keys c = key_lines (split b'\n' c.ssh_authorized_keys)

-- A password is given, or one is invented, or a line of the keys is not blank and no comment.
abbrev pub has_some : Config → Bool
has_some c =
    not (is_empty c.ssh_password)
    || is_empty c.ssh_authorized_keys
    || not (no_keys (operator_keys c))

-- The section that is staged if SSH is enabled.
abbrev ssh_section : Config → SshConfig
ssh_section c = record {
  port = ssh_port c;
  password = c.ssh_password;
  password_generated = c.ssh_password_generated;
  authorized_keys = c.ssh_authorized_keys;
}

abbrev IsUsable : Config → Config → Type 0
IsUsable c after =
    (ssh_enabled after ≡ ssh_enabled c)
    × (after.ssh_authorized_keys ≡ c.ssh_authorized_keys)
    × (ssh_enabled c ≡ true
        → not (is_empty after.ssh_password)
          ≡ (not (is_empty c.ssh_password) || is_empty c.ssh_authorized_keys))

-- What ensureSSHUsable leaves as it was, and when there is a password after it.
IsUsable-ssh :
    (passphrase : Option Bytes) (c : Config) (usable : Config × Bytes)
    → ((pw : Bytes) → passphrase ≡ some pw → is_empty pw ≡ false)
    → ensure_ssh_usable passphrase c ≡ some usable
    → IsUsable c usable.0
unfolding ensure_ssh_usable ssh_enabled
IsUsable-ssh none c usable n e = (ground arith, ground arith, λ on. ground arith)
IsUsable-ssh (some pw) c usable n e =
    let word = n pw refl in (ground (arith, word), ground (arith, word), λ on. ground (arith, word))

-- What is announced, and that it is the password.
announced-password :
    (passphrase : Option Bytes) (c : Config) (usable : Config × Bytes)
    → ((pw : Bytes) → passphrase ≡ some pw → is_empty pw ≡ false)
    → ensure_ssh_usable passphrase c ≡ some usable
    → (not (is_empty usable.1)
        ≡ (ssh_enabled c && (is_empty c.ssh_password && is_empty c.ssh_authorized_keys)))
      × ((is_empty usable.1 || equal usable.1 usable.0.ssh_password) ≡ true)
unfolding ensure_ssh_usable ssh_enabled
announced-password none c usable n e = (ground arith, ground arith)
announced-password (some pw) c usable n e =
    let word = n pw refl in (ground (arith, word), ground (arith, word, equal_refl pw))

staged-start_ssh_server :
    (o : Outside) (wordlist : Bytes) (draws : List (Option ℕ)) (c : Config)
    (usable : Config × Bytes) (entrypoint : Bytes) (args : List Bytes)
    → ensure_ssh_usable (generate (parse_wordlist wordlist) draws default_words) c ≡ some usable
    → is_ok (start_ssh_server o (build_postpivot_config usable.0 entrypoint args).ssh).1 ≡ (
        ssh_enabled c
        && (binds o kernel || binds o tailnet)
        && (o.generates_host_key && all_keys o (operator_keys c) && has_some c))
unfolding build_postpivot_config start_ssh_server
staged-start_ssh_server o wordlist draws c usable entrypoint args e =
    let phrase = generate (parse_wordlist wordlist) draws default_words in
    let (same, keys, password) =
      IsUsable-ssh phrase c usable (generate-ne-nil wordlist draws default_words) e in
    elim (Bool-cases (ssh_enabled c)) [
      | inl on ↦
          rw (same, on)
            ((start_ssh_server-has_auth o (ssh_section usable.0) kernel [] []).0
              ∙ rw keys (ground (arith, password on)))
      | inr off ↦ rw (same, off) refl
    ]

-- The passphrase is generated from a word list and numbers at random, which may fail. The SSH server
-- of the configuration that is staged, if one is, starts exactly if SSH is enabled, a port can be
-- bound, a host key is made, every line of the operator's keys that is neither blank nor a comment is
-- a key, and there is a password, or such a line, or no text of keys at all. So keys that are only
-- blank lines and comments, without a password, leave no SSH server. A password is announced exactly
-- if SSH is enabled with neither a password nor a text of keys, and it is the one that is staged.
pub ensure_ssh_usable-start_ssh_server :
    (o : Outside) (wordlist : Bytes) (draws : List (Option ℕ)) (c : Config)
    (usable : Config × Bytes) (entrypoint : Bytes) (args : List Bytes)
    → ensure_ssh_usable (generate (parse_wordlist wordlist) draws default_words) c ≡ some usable
    → (is_ok (start_ssh_server o (build_postpivot_config usable.0 entrypoint args).ssh).1 ≡ (
        ssh_enabled c
        && (binds o kernel || binds o tailnet)
        && (o.generates_host_key && all_keys o (operator_keys c) && has_some c)))
      × (not (is_empty usable.1)
          ≡ (ssh_enabled c && (is_empty c.ssh_password && is_empty c.ssh_authorized_keys)))
      × ((is_empty usable.1 || equal usable.1 usable.0.ssh_password) ≡ true)
ensure_ssh_usable-start_ssh_server o wordlist draws c usable entrypoint args e =
    let phrase = generate (parse_wordlist wordlist) draws default_words in
    let (announced, same) =
      announced-password phrase c usable (generate-ne-nil wordlist draws default_words) e in
    (staged-start_ssh_server o wordlist draws c usable entrypoint args e, announced, same)
