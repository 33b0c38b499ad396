-- ===== src/Tests/Accept.antt =====
-- Runs of the accept loops and of a connection of the SSH server.
use xmorph.Base.{true, false, none, some, List, [], ◌∷◌, any, ◌≡◌, refl}
use xmorph.Base.Bytes.{codes, equal, has_prefix, trim_space}
use xmorph.Base.Bytes.Lines.{split}
use xmorph.Base.Result.{ok}
use xmorph.Postpivot.InitConfig.{SshConfig}
use xmorph.Postpivot.Sshd.{ServerConfig, Outside, start_ssh_server, accepts_key, accepts_password}
use xmorph.Postpivot.Sshd.Accept.{
  SshServer, Reach, listening, later, move, return, fails, checks, ends, NewChannel, handle_conn,
  handle_channels, ended,
}
use xmorph.Postpivot.Sshd.Accept.Authorized.{
  Credential, password, accepts, is_authorized, Handshake, starts_session, is_session,
  handle_conn-is_authorized,
}
use xmorph.Postpivot.Sshd.Accept.Returns.{Served, Reach-Served}

-- The only listener fails although nobody stopped the server.
abbrev given_up : SshServer
given_up = record {
  cancelled = false;
  loops = record { is_open = true; phase = ended true; conns = 0 } ∷ [];
  sent = true ∷ [];
  returned = some true;
}

given_up-Reach : Reach 1 given_up
given_up-Reach =
    later
      (later (later (later listening (move 0 refl (fails refl))) (move 0 refl (checks refl)))
        (move 0 refl (ends refl refl)))
      (return refl refl)

Reach-Served_example : Served given_up (some true)
Reach-Served_example = Reach-Served (λ h. cc) given_up-Reach

abbrev outside : Outside
outside = record {
  parse_authorized_key = λ line. some line;
  generates_host_key = true;
  kernel_binds = true;
  tailnet_binds = none;
}

abbrev section : SshConfig
section = record {
  port = 0;
  password = codes "pw";
  password_generated = false;
  authorized_keys = [];
}

abbrev server : ServerConfig
server = record { public_keys = none; password = some (codes "pw") }

section_starts : (start_ssh_server outside (some section)).1 ≡ ok server
unfolding start_ssh_server xmorph.Postpivot.Sshd.serve_ssh xmorph.Postpivot.Sshd.build_server_config
    xmorph.Postpivot.Sshd.parse_authorized_keys xmorph.Postpivot.Sshd.parse_lines
    xmorph.Postpivot.Sshd.is_skipped trim_space has_prefix split
section_starts = refl

-- A handshake that tries what is offered.
abbrev tries : Handshake
tries = record {
  succeeds = λ sc offered. any (accepts sc) offered;
  only_accepted = λ sc offered h. h;
}

abbrev guesses : List Credential
guesses = password (codes "root") ∷ password (codes "pw") ∷ []

abbrev channels : List NewChannel
channels =
    record { channel_type = codes "direct-tcpip"; opens = true }
    ∷ record { channel_type = codes "session"; opens = true }
    ∷ []

pw_starts : any starts_session (handle_conn (tries.succeeds server guesses) channels) ≡ true
unfolding handle_conn handle_channels accepts_password equal
pw_starts = refl

handle_conn-is_authorized_example :
    (tries.succeeds server guesses ≡ true)
    × (any is_session channels ≡ true)
    × (any (is_authorized outside section) guesses ≡ true)
handle_conn-is_authorized_example =
    handle_conn-is_authorized outside section server tries guesses channels section_starts pw_starts
