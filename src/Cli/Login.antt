-- ===== src/Cli/Login.antt =====
-- A pivot that asks for SSH stages a configuration that someone can log in with.
use xmorph.Base.{
  Bool, false, Option, none, some, [], ◌&&◌, ◌||◌, not, if◌then◌else◌, arith, ◌≡◌, ◌≢◌, List,
}
use xmorph.Base.Bytes.{Bytes, is_empty}
use xmorph.Config.Types.{Config, ssh_enabled}
use xmorph.Cli.Entrypoint.{ensure_ssh_usable, build_postpivot_config}
use xmorph.Postpivot.InitConfig.{SshConfig}

-- The section of the staged configuration lets somebody in.
abbrev pub has_credentials : Option SshConfig → Bool
has_credentials none = false
has_credentials (some s) = not (is_empty s.password) || not (is_empty s.authorized_keys)

-- The password of the staged configuration, if xmorph invented it.
abbrev pub invented_password : Option SshConfig → Bytes
invented_password none = []
invented_password (some s) = if s.password_generated then s.password else []

-- If the passphrase that may be generated is not empty, and the operator's configuration does not
-- call its password a generated one, then a staged configuration has an SSH section exactly if SSH
-- is enabled, and that section has a password or keys. What is announced is the password that was
-- invented, and nothing if the operator gave a password or keys.
pub ensure_ssh_usable-has_credentials :
    (pw : Bytes) (c : Config) (usable : Config × Bytes) (entrypoint : Bytes) (args : List Bytes)
    → pw ≢ []
    → c.ssh_password_generated ≡ false
    → ensure_ssh_usable (some pw) c ≡ some usable
    → (has_credentials (build_postpivot_config usable.0 entrypoint args).ssh ≡ ssh_enabled c)
      × (invented_password (build_postpivot_config usable.0 entrypoint args).ssh ≡ usable.1)
      × (not (is_empty usable.1)
          ≡ (ssh_enabled c && (is_empty c.ssh_password && is_empty c.ssh_authorized_keys)))
unfolding ensure_ssh_usable build_postpivot_config ssh_enabled
ensure_ssh_usable-has_credentials pw c usable entrypoint args n g e = ground arith
