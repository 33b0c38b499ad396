-- ===== src/Postpivot/Sshd/Session.antt =====
-- internal/postpivot/sshd_linux.go: the requests of one session channel, and the command that it
-- runs. ssh.Unmarshal of a payload, and how the command starts and ends, are answers from outside.
pub mod Requests
pub mod Command
use xmorph.Base.{
  ℕ, Bool, true, false, Option, none, some, List, [], ◌∷◌, ◌++◌, ◌&&◌, not, if◌then◌else◌, ◌-◌, ◌%◌,
  ◌^◌, ◌+◌,
}
use xmorph.Base.Bytes.{Bytes, codes, equal, is_empty}
use xmorph.Base.Int.{ℤ, pos, negsuc}

-- `ptyReqMsg` without Modes, which nothing reads, and `winChMsg`
pub record PtyReq : Type 0 where
  pub term : Bytes
  pub cols : ℕ
  pub rows : ℕ
  pub width : ℕ
  pub height : ℕ

pub record Winsize : Type 0 where
  pub rows : ℕ
  pub cols : ℕ
  pub x : ℕ
  pub y : ℕ

abbrev pub uint16 : ℕ → ℕ
uint16 n = n % 2 ^ 16

-- The conversions to uint16 keep the low bits.
abbrev pub winsize : PtyReq → Winsize
winsize m = record {
  rows = uint16 m.rows;
  cols = uint16 m.cols;
  x = uint16 m.width;
  y = uint16 m.height;
}

pub record Request : Type 0 where
  pub kind : Bytes
  pub payload : Bytes

-- ssh.Unmarshal at the types of the messages.
pub record Decoders : Type 0 where
  pub pty_req : Bytes → Option PtyReq
  pub env_var : Bytes → Option (Bytes × Bytes)
  pub exec_command : Bytes → Option Bytes
  pub window_change : Bytes → Option PtyReq

-- The variables of `handleSession`.
pub record Session : Type 0 where
  pub term : Bytes
  pub env : List Bytes
  pub want_pty : Bool
  pub ws : Winsize

abbrev pub new_session : Session
new_session = record {
  term = [];
  env = [];
  want_pty = false;
  ws = record { rows = 0; cols = 0; x = 0; y = 0 };
}

abbrev pub shell_argv : List Bytes
shell_argv = codes "/bin/sh" ∷ codes "-l" ∷ []

abbrev pub command_argv : Bytes → List Bytes
command_argv command = codes "/bin/sh" ∷ codes "-c" ∷ command ∷ []

-- What a request makes the loop do: go on with a reply, or reply true and run a command.
pub data Reaction : Type 0 where
  go_on : Bool → Session → Reaction
  launch : List Bytes → Reaction

-- The cases of the switch on req.Type.
pub data Kind : Type 0 where
  pty_kind env_kind shell_kind exec_kind other_kind : Kind

unfoldable pub kind_of : Bytes → Kind
kind_of s =
    if equal s (codes "pty-req")
    then pty_kind
    else if equal s (codes "env")
    then env_kind
    else if equal s (codes "shell")
    then shell_kind
    else if equal s (codes "exec")
    then exec_kind
    else other_kind

module _ (d : Decoders) where
  abbrev on_pty : Option PtyReq → Session → Reaction
  on_pty none s = go_on false s
  on_pty (some m) s = go_on true (record s { term = m.term; want_pty = true; ws = winsize m })

  -- An unreadable variable is replied to like a good one.
  abbrev on_env : Option (Bytes × Bytes) → Session → Reaction
  on_env none s = go_on true s
  on_env (some (name, value)) s =
      go_on true (record s { env = s.env ++ (name ++ codes "=" ++ value) ∷ [] })

  abbrev on_exec : Option Bytes → Session → Reaction
  on_exec none s = go_on false s
  on_exec (some command) s = launch (command_argv command)

  abbrev on_kind : Kind → Bytes → Session → Reaction
  on_kind pty_kind payload s = on_pty (d.pty_req payload) s
  on_kind env_kind payload s = on_env (d.env_var payload) s
  on_kind shell_kind payload s = launch shell_argv
  on_kind exec_kind payload s = on_exec (d.exec_command payload) s
  on_kind other_kind payload s = go_on false s

  -- One turn of the loop of `handleSession`.
  unfoldable pub on_request : Request → Session → Reaction
  unfolding kind_of
  on_request req s = on_kind (kind_of req.kind) req.payload s

  -- The size that a request sets, while a command runs on a terminal.
  abbrev pub resized : Bool → Request → Winsize → Winsize
  resized on_terminal req ws =
      if on_terminal && equal req.kind (codes "window-change")
      then (elim (d.window_change req.payload) [ none ↦ ws | some m ↦ winsize m ])
      else ws

  -- `handleWinCh`: the replies, and the size of the terminal at the end.
  unfoldable pub handle_win_ch : Bool → List Request → Winsize → List Bool × Winsize
  handle_win_ch on_terminal [] ws = ([], ws)
  handle_win_ch on_terminal (req ∷ reqs) ws =
      let (replies, last) = handle_win_ch on_terminal reqs (resized on_terminal req ws) in
      (false ∷ replies, last)

-- How a command ends: it does not start, it exits with a code, -1 for a signal, or Wait fails.
pub data Ended : Type 0 where
  not_started wait_failed : Ended
  exited : ℤ → Ended

abbrev pub uint32 : ℤ → ℕ
uint32 (pos n) = n % 2 ^ 32
uint32 (negsuc n) = (2 ^ 32 - 1) - n % 2 ^ 32

unfoldable pub exit_status : Ended → ℕ
exit_status not_started = 127
exit_status wait_failed = 1
exit_status (exited code) = uint32 code

-- What a session comes to: the replies in their order, the command with its environment after that
-- of the supervisor, the terminal's size at the end, and the status that is sent.
pub record SessionEnd : Type 0 where
  pub replies : List Bool
  pub argv : Option (List Bytes)
  pub environ : List Bytes
  pub on_terminal : Bool
  pub size : Winsize
  pub status : Option ℕ

abbrev pub with_term : Session → List Bytes
with_term s = if is_empty s.term then s.env else s.env ++ (codes "TERM=" ++ s.term) ∷ []

module _ (d : Decoders) (ends : List Bytes → Ended) where
  abbrev pub did_start : Ended → Bool
  did_start not_started = false
  did_start wait_failed = true
  did_start (exited code) = true

  -- `runSession`, where the requests that come while the command runs are `reqs`
  unfoldable pub run_session : List Bytes → Session → List Request → SessionEnd
  unfolding handle_win_ch exit_status
  run_session argv s reqs =
      let during =
        if did_start (ends argv) then handle_win_ch d s.want_pty reqs s.ws else ([], s.ws) in
      record {
        replies = during.0;
        argv = some argv;
        environ = with_term s;
        on_terminal = s.want_pty;
        size = during.1;
        status = some (exit_status (ends argv));
      }

  abbrev pub replied : Bool → SessionEnd → SessionEnd
  replied reply o = record o { replies = reply ∷ o.replies }

  unfoldable pub handle_session : List Request → Session → SessionEnd
  unfolding run_session
  handle_session [] s = record {
    replies = [];
    argv = none;
    environ = [];
    on_terminal = false;
    size = s.ws;
    status = none;
  }
  handle_session (req ∷ reqs) s = elim (on_request d req s) [
    | go_on reply t ↦ replied reply (handle_session reqs t)
    | launch argv ↦ replied true (run_session argv s reqs)
  ]
