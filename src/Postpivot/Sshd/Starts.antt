-- ===== src/Postpivot/Sshd/Starts.antt =====
-- When the SSH server starts, what it leaves behind when it does not, and who it lets in.
use xmorph.Base.{
  ℕ, Bool, true, false, none, some, List, [], ◌∷◌, ◌&&◌, ◌||◌, not, if◌then◌else◌, ◌+◌, ◌==◌, any,
  ◌≡◌, refl, arith, Bool-cases, Option-cases, inl, inr, ◌∙◌,
}
use xmorph.Base.Bytes.{Bytes, equal, is_empty, trim_space}
use xmorph.Base.Bytes.Lines.{split}
use xmorph.Base.Result.{Result, ok, err, ◌>>=◌}
use xmorph.Postpivot.InitConfig.{SshConfig}
use xmorph.Postpivot.Sshd.{
  SshdError, Network, kernel, tailnet, Call, listen, close, serve, ServerConfig, Outside,
  is_skipped, parse_lines, parse_authorized_keys, key_callback, password_callback,
  build_server_config, with_auth, effective_port, bound, after_listen, serve_built, serve_ssh,
  start_ssh_server, accepts_key, accepts_password,
}

-- The lines that are not blank and no comments.
unfoldable pub key_lines : List Bytes → List Bytes
key_lines [] = []
key_lines (l ∷ ls) =
    let rest = key_lines ls in if is_skipped (trim_space l) then rest else trim_space l ∷ rest

abbrev pub keys_in : SshConfig → List Bytes
keys_in cfg = key_lines (split b'\n' cfg.authorized_keys)

abbrev pub no_keys : List Bytes → Bool
no_keys [] = true
no_keys (k ∷ ks) = false

abbrev pub is_ok : Result SshdError ServerConfig → Bool
is_ok (ok sc) = true
is_ok (err e) = false

-- Who gets in, which is nobody if the server did not start.
abbrev pub admits_key : Result SshdError ServerConfig → Bytes → Bool
admits_key (ok sc) got = accepts_key sc got
admits_key (err e) got = false

abbrev pub admits_password : Result SshdError ServerConfig → Bytes → Bool
admits_password (ok sc) got = accepts_password sc got
admits_password (err e) got = false

abbrev same_network : Network → Network → Bool
same_network kernel kernel = true
same_network kernel tailnet = false
same_network tailnet kernel = false
same_network tailnet tailnet = true

-- The listener is open, or was handed to an accept loop.
abbrev pub is_held : Network → ℕ → List Call → Bool → Bool
is_held n port [] held = held
is_held n port (listen m p ∷ calls) held =
    is_held n port calls (if same_network n m && p == port then true else held)
is_held n port (close m p ∷ calls) held =
    is_held n port calls (if same_network n m && p == port then false else held)
is_held n port (serve m p ∷ calls) held = is_held n port calls held

abbrev pub is_served : Network → ℕ → List Call → Bool
is_served n port [] = false
is_served n port (listen m p ∷ calls) = is_served n port calls
is_served n port (close m p ∷ calls) = is_served n port calls
is_served n port (serve m p ∷ calls) = same_network n m && p == port || is_served n port calls

module _ (o : Outside) where
  abbrev pub is_key : Bytes → Bool
  is_key line = elim (o.parse_authorized_key line) [ none ↦ false | some k ↦ true ]

  -- The line is the key `got`.
  abbrev pub is_line_of : Bytes → Bytes → Bool
  is_line_of got line = elim (o.parse_authorized_key line) [ none ↦ false | some k ↦ equal got k ]

  abbrev pub all_keys : List Bytes → Bool
  all_keys lines = not (any (λ line. not (is_key line)) lines)

  abbrev pub binds : Network → Bool
  binds kernel = o.kernel_binds
  binds tailnet = elim o.tailnet_binds [ none ↦ false | some b ↦ b ]

  -- Some credential is given, no key line is wrong, and a host key is made.
  abbrev pub has_auth : SshConfig → Bool
  has_auth cfg =
      all_keys (keys_in cfg)
      && (not (is_empty cfg.password) || not (no_keys (keys_in cfg)))
      && o.generates_host_key

  -- What the parsed keys are to the lines.
  Parsed : List Bytes → Result SshdError (List Bytes) → Type 0
  Parsed lines (err e) = all_keys lines ≡ false
  Parsed lines (ok ks) =
      (all_keys lines ≡ true)
      × (no_keys lines ≡ no_keys ks)
      × ((got : Bytes) → any (is_line_of got) lines ≡ any (λ want. equal got want) ks)

  Parsed-cons :
      (line k : Bytes) (lines : List Bytes) (r : Result SshdError (List Bytes))
      → o.parse_authorized_key line ≡ some k
      → Parsed lines r
      → Parsed (line ∷ lines) (r >>= (λ ks. ok (k ∷ ks)))
  unfolding Parsed
  Parsed-cons line k lines (err f) e h = ground arith
  Parsed-cons line k lines (ok ks) e (good, same, admits) =
      (ground arith, refl, λ got. ground (arith, admits got))

  parse_lines-Parsed : (ls : List Bytes) (i : ℕ) → Parsed (key_lines ls) (parse_lines o ls i)
  unfolding parse_lines key_lines Parsed
  parse_lines-Parsed [] i = (refl, refl, λ got. refl)
  parse_lines-Parsed (l ∷ ls) i =
      let line = trim_space l in
      let later = parse_lines-Parsed ls (i + 1) in
      elim (Bool-cases (is_skipped line)) [
        | inl s ↦ rw s later
        | inr s ↦ elim (Option-cases (o.parse_authorized_key line)) [
          | inl e ↦ rw s (ground arith)
          | inr (k, e) ↦
              rw (s, e) (Parsed-cons line k (key_lines ls) (parse_lines o ls (i + 1)) e later)
        ]
      ]

  -- What the server's configuration is for a list of lines and the result of parsing them.
  Configured : SshConfig → Result SshdError ServerConfig → Type 0
  Configured cfg r =
      (is_ok r ≡ has_auth cfg)
      × ((got : Bytes) → admits_key r got ≡ (has_auth cfg && any (is_line_of got) (keys_in cfg)))
      × ((got : Bytes)
          → admits_password r got
            ≡ (has_auth cfg && (not (is_empty cfg.password) && equal cfg.password got)))

  Configured-with_auth :
      (cfg : SshConfig) (r : Result SshdError (List Bytes))
      → Parsed (keys_in cfg) r
      → Configured cfg
          (r >>= (λ keys. with_auth o (key_callback o keys) (password_callback o cfg.password)))
  unfolding Parsed Configured accepts_key accepts_password
  Configured-with_auth cfg (err f) bad = (ground arith, λ got. ground arith, λ got. ground arith)
  Configured-with_auth cfg (ok []) (good, same, admits) =
      (ground arith, λ got. ground (arith, admits got), λ got. ground arith)
  Configured-with_auth cfg (ok (k ∷ ks)) (good, same, admits) =
      (ground arith, λ got. ground (arith, admits got), λ got. ground arith)

  build_server_config-Configured : (cfg : SshConfig) → Configured cfg (build_server_config o cfg)
  unfolding build_server_config parse_authorized_keys
  build_server_config-Configured cfg =
      let lines = split b'\n' cfg.authorized_keys in
      Configured-with_auth cfg (parse_lines o lines 0) (parse_lines-Parsed lines 0)

  -- A result of the configuration, with the ports that could be bound.
  Started : SshConfig → ℕ → Network → Result SshdError ServerConfig → Type 0
  Started cfg port n r =
      let all = after_listen o port (bound o) (serve_built o (bound o) port r) in
      let any_bound = binds kernel || binds tailnet in
      (is_ok all.1 ≡ (is_ok r && any_bound))
      × (is_held n port all.0 false ≡ (is_ok r && any_bound && binds n))
      × (is_served n port all.0 ≡ (is_ok r && any_bound && binds n))
      × ((got : Bytes) → admits_key all.1 got ≡ (admits_key r got && any_bound))
      × ((got : Bytes) → admits_password all.1 got ≡ (admits_password r got && any_bound))

  built-Started :
      (cfg : SshConfig) (port : ℕ) (n : Network) (r : Result SshdError ServerConfig)
      → Started cfg port n r
  unfolding Started
  built-Started cfg port kernel (ok sc) =
      (ground arith, ground arith, ground arith, λ got. ground arith, λ got. ground arith)
  built-Started cfg port tailnet (ok sc) =
      (ground arith, ground arith, ground arith, λ got. ground arith, λ got. ground arith)
  built-Started cfg port kernel (err f) =
      (ground arith, ground arith, ground arith, λ got. ground arith, λ got. ground arith)
  built-Started cfg port tailnet (err f) =
      (ground arith, ground arith, ground arith, λ got. ground arith, λ got. ground arith)

-- With a configuration and a host that binds a port, the server starts exactly if every line that is
-- neither blank nor a comment is a key, there is such a line or a password, and a host key is made.
-- It then serves on each network whose port could be bound, and lets in the keys of those lines
-- and the password, and nothing else. Otherwise nobody gets in and every listener is closed.
pub start_ssh_server-has_auth :
    (o : Outside) (cfg : SshConfig) (n : Network) (key password : Bytes)
    → let r = start_ssh_server o (some cfg) in
      let starts = has_auth o cfg && (binds o kernel || binds o tailnet) in
      (is_ok r.1 ≡ starts)
      × (is_held n (effective_port o cfg) r.0 false ≡ (starts && binds o n))
      × (is_served n (effective_port o cfg) r.0 ≡ (starts && binds o n))
      × (admits_key r.1 key ≡ (starts && any (is_line_of o key) (keys_in cfg)))
      × (admits_password r.1 password
          ≡ (starts && (not (is_empty cfg.password) && equal cfg.password password)))
unfolding start_ssh_server serve_ssh Configured Started
start_ssh_server-has_auth o cfg n key password =
    let r = build_server_config o cfg in
    let (good, admits, admits_word) = build_server_config-Configured o cfg in
    let (started, held, served, lets_in, lets_in_word) =
      built-Started o cfg (effective_port o cfg) n r in
    (
      started ∙ ground (arith, good),
      held ∙ ground (arith, good),
      served ∙ ground (arith, good),
      lets_in key ∙ ground (arith, admits key),
      lets_in_word password ∙ ground (arith, admits_word password),
    )
