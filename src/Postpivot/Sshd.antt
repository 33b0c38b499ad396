-- ===== src/Postpivot/Sshd.antt =====
-- internal/postpivot/sshd_linux.go: which listeners the SSH server opens, who it lets in, and when it
-- refuses to start. ssh.ParseAuthorizedKey with the key's Marshal, the generation of the host key,
-- and whether a port can be bound are answers from outside. Sessions are in Sshd.Session.
pub mod Accept
pub mod Session
pub mod Starts
pub mod Staged
use xmorph.Base.{
  ℕ, Bool, true, false, Option, none, some, List, [], ◌∷◌, ◌++◌, ◌&&◌, ◌||◌, not, if◌then◌else◌,
  ◌+◌, ◌==◌, any, map,
}
use xmorph.Base.Bytes.{Bytes, codes, equal, is_empty, has_prefix, trim_space}
use xmorph.Base.Bytes.Lines.{split}
use xmorph.Base.Result.{Result, ok, err, ◌>>=◌}
use xmorph.Base.Trace.{Traced}
use xmorph.Postpivot.InitConfig.{SshConfig}

pub data SshdError : Type 0 where
  nil_config no_listener no_auth_method no_host_key : SshdError
  bad_key_line : ℕ → SshdError

pub data Network : Type 0 where
  kernel tailnet : Network

pub data Call : Type 0 where
  listen close serve : Network → ℕ → Call

-- The callbacks of ssh.ServerConfig: the keys, marshalled, and the password that they compare with.
pub record ServerConfig : Type 0 where
  pub public_keys : Option (List Bytes)
  pub password : Option Bytes

-- What is outside: the marshalled key of a line, and whether a host key is generated, and whether a
-- network's port is bound; the tailnet may be nil.
pub record Outside : Type 0 where
  pub parse_authorized_key : Bytes → Option Bytes
  pub generates_host_key : Bool
  pub kernel_binds : Bool
  pub tailnet_binds : Option Bool

-- A line that is skipped.
unfoldable pub is_skipped : Bytes → Bool
is_skipped line = is_empty line || has_prefix (codes "#") line

module _ (o : Outside) where
  -- The loop of `parseAuthorizedKeys`, with the number of lines before.
  unfoldable pub parse_lines : List Bytes → ℕ → Result SshdError (List Bytes)
  unfolding is_skipped
  parse_lines [] i = ok []
  parse_lines (l ∷ ls) i =
      let line = trim_space l in
      let rest = parse_lines ls (i + 1) in
      if is_skipped line then rest else elim (o.parse_authorized_key line) [
        | none ↦ err (bad_key_line (i + 1))
        | some k ↦ rest >>= (λ ks. ok (k ∷ ks))
      ]

  unfoldable pub parse_authorized_keys : Bytes → Result SshdError (List Bytes)
  unfolding parse_lines split
  parse_authorized_keys s = parse_lines (split b'\n' s) 0

  abbrev pub key_callback : List Bytes → Option (List Bytes)
  key_callback [] = none
  key_callback (k ∷ ks) = some (k ∷ ks)

  abbrev pub password_callback : Bytes → Option Bytes
  password_callback pw = if is_empty pw then none else some pw

  abbrev pub with_auth : Option (List Bytes) → Option Bytes → Result SshdError ServerConfig
  with_auth none none = err no_auth_method
  with_auth (some ks) pw =
      if o.generates_host_key
      then ok (record { public_keys = some ks; password = pw })
      else err no_host_key
  with_auth none (some pw) =
      if o.generates_host_key
      then ok (record { public_keys = none; password = some pw })
      else err no_host_key

  unfoldable pub build_server_config : SshConfig → Result SshdError ServerConfig
  unfolding parse_authorized_keys
  build_server_config cfg =
      parse_authorized_keys cfg.authorized_keys
      >>= (λ keys. with_auth (key_callback keys) (password_callback cfg.password))

  -- Port 0 stands for 22.
  abbrev pub effective_port : SshConfig → ℕ
  effective_port cfg = if cfg.port == 0 then 22 else cfg.port

  -- The listeners that could be bound.
  abbrev pub bound : List Network
  bound =
      (if o.kernel_binds then kernel ∷ [] else [])
      ++ (elim o.tailnet_binds [ none ↦ [] | some false ↦ [] | some true ↦ tailnet ∷ [] ])

  abbrev pub on_all : (Network → ℕ → Call) → ℕ → List Network → List Call
  on_all call port = map (λ n. call n port)

  abbrev pub serve_built :
      List Network → ℕ → Result SshdError ServerConfig → Traced Call SshdError ServerConfig
  serve_built listeners port (err e) = (on_all close port listeners, err e)
  serve_built listeners port (ok sc) = (on_all serve port listeners, ok sc)

  -- `serveSSH`, up to the accept loops
  unfoldable pub serve_ssh : List Network → ℕ → SshConfig → Traced Call SshdError ServerConfig
  unfolding build_server_config
  serve_ssh listeners port cfg = serve_built listeners port (build_server_config cfg)

  abbrev pub after_listen :
      ℕ → List Network → Traced Call SshdError ServerConfig → Traced Call SshdError ServerConfig
  after_listen port [] served = ([], err no_listener)
  after_listen port (l ∷ ls) served = (on_all listen port (l ∷ ls) ++ served.0, served.1)

  -- `StartSSHServer`; a `listen` stands for one that succeeded.
  unfoldable pub start_ssh_server : Option SshConfig → Traced Call SshdError ServerConfig
  unfolding serve_ssh
  start_ssh_server none = ([], err nil_config)
  start_ssh_server (some cfg) =
      after_listen (effective_port cfg) bound (serve_ssh bound (effective_port cfg) cfg)

-- The callbacks: a nil one lets nobody in.
unfoldable pub accepts_key : ServerConfig → Bytes → Bool
accepts_key sc got = elim sc.public_keys [
  | none ↦ false
  | some ks ↦ any (λ want. equal got want) ks
]

unfoldable pub accepts_password : ServerConfig → Bytes → Bool
accepts_password sc got = elim sc.password [ none ↦ false | some pw ↦ equal pw got ]
