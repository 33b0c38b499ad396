-- ===== src/Postpivot/Sshd/Accept/Authorized.antt =====
-- For whom a connection starts sessions.
use xmorph.Base.{
  Bool, true, false, some, List, [], ◌∷◌, ◌&&◌, not, any, any-append, ◌≡◌, refl, arith, Bool-cases,
  inl, inr,
}
use xmorph.Base.Bytes.{Bytes, codes, equal, is_empty}
use xmorph.Base.Result.{ok}
use xmorph.Postpivot.InitConfig.{SshConfig}
use xmorph.Postpivot.Sshd.{
  ServerConfig, Outside, kernel, start_ssh_server, accepts_key, accepts_password,
}
use xmorph.Postpivot.Sshd.Accept.{
  NewChannel, ConnCall, discard_requests, reject, serve_session, close_server_conn, close_conn,
  handle_channels, handle_conn,
}
use xmorph.Postpivot.Sshd.Starts.{is_line_of, keys_in, start_ssh_server-has_auth}

-- What a client offers.
pub data Credential : Type 0 where
  key password : Bytes → Credential

abbrev pub accepts : ServerConfig → Credential → Bool
accepts sc (key k) = accepts_key sc k
accepts sc (password pw) = accepts_password sc pw

-- A line of the keys, or the password, of the configuration.
abbrev pub is_authorized : Outside → SshConfig → Credential → Bool
is_authorized o cfg (key k) = any (is_line_of o k) (keys_in cfg)
is_authorized o cfg (password pw) = not (is_empty cfg.password) && equal cfg.password pw

-- ssh.NewServerConn: a client gets through the handshake only with a credential that a callback of
-- the configuration accepts.
pub record Handshake : Type 0 where
  pub succeeds : ServerConfig → List Credential → Bool
  pub only_accepted :
      (sc : ServerConfig) (offered : List Credential)
      → succeeds sc offered ≡ true
      → any (accepts sc) offered ≡ true

abbrev pub starts_session : ConnCall → Bool
starts_session discard_requests = false
starts_session reject = false
starts_session serve_session = true
starts_session close_server_conn = false
starts_session close_conn = false

abbrev pub is_session : NewChannel → Bool
is_session c = equal c.channel_type (codes "session") && c.opens

handle_channels-sessions :
    (cs : List NewChannel) → any starts_session (handle_channels cs) ≡ any is_session cs
unfolding handle_channels
handle_channels-sessions [] = refl
handle_channels-sessions (c ∷ cs) = ground (arith, handle_channels-sessions cs)

handle_conn-sessions :
    (succeeds : Bool) (cs : List NewChannel)
    → any starts_session (handle_conn succeeds cs) ≡ (succeeds && any is_session cs)
unfolding handle_conn
handle_conn-sessions false cs = refl
handle_conn-sessions true cs =
    rw (any-append starts_session (handle_channels cs) (close_server_conn ∷ close_conn ∷ []))
      (ground (arith, handle_channels-sessions cs))

module _ (o : Outside) (cfg : SshConfig) (sc : ServerConfig) where
  accepts-is_authorized :
      (c : Credential)
      → (start_ssh_server o (some cfg)).1 ≡ ok sc
      → accepts sc c ≡ true
      → is_authorized o cfg c ≡ true
  accepts-is_authorized (key k) e h =
      let (a, b, d, admits, word) = start_ssh_server-has_auth o cfg kernel k [] in
      ground (arith, rw e at admits)
  accepts-is_authorized (password pw) e h =
      let (a, b, d, admits, word) = start_ssh_server-has_auth o cfg kernel [] pw in
      ground (arith, rw e at word)

  any-is_authorized :
      (offered : List Credential)
      → (start_ssh_server o (some cfg)).1 ≡ ok sc
      → any (accepts sc) offered ≡ true
      → any (is_authorized o cfg) offered ≡ true
  any-is_authorized [] e h = cc
  any-is_authorized (c ∷ cs) e h = elim (Bool-cases (accepts sc c)) [
    | inl a ↦ ground (arith, accepts-is_authorized c e a)
    | inr a ↦ ground (arith, a, any-is_authorized cs e)
  ]

-- If the SSH server started and a connection starts a session, then its client got through the
-- handshake, opened a channel of type "session", and offered a key of a line of the authorized keys or
-- the password of the configuration, which is then not empty.
pub handle_conn-is_authorized :
    (o : Outside) (cfg : SshConfig) (sc : ServerConfig) (ssh : Handshake)
    (offered : List Credential) (channels : List NewChannel)
    → (start_ssh_server o (some cfg)).1 ≡ ok sc
    → any starts_session (handle_conn (ssh.succeeds sc offered) channels) ≡ true
    → (ssh.succeeds sc offered ≡ true)
      × (any is_session channels ≡ true)
      × (any (is_authorized o cfg) offered ≡ true)
handle_conn-is_authorized o cfg sc ssh offered channels e h =
    let both = rw (handle_conn-sessions (ssh.succeeds sc offered) channels) at h in
    let through : ssh.succeeds sc offered ≡ true = ground (arith, both) in
    (
      through,
      ground (arith, both),
      any-is_authorized o cfg sc offered e (ssh.only_accepted sc offered through),
    )
