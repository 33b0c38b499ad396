-- ===== src/Postpivot/Sshd/Accept.antt =====
-- internal/postpivot/sshd_linux.go: `serveSSH` once its configuration is built, `acceptLoop` and the
-- goroutine that closes the listeners, as threads that take their steps in any order; and
-- `handleConn`, where the handshake and which channels come are answers from outside.
pub mod Invariant
pub mod Progress
pub mod Returns
pub mod Authorized
use xmorph.Base.{
  ℕ, zero, suc, Bool, true, false, Option, none, some, List, [], ◌∷◌, ◌++◌, ◌&&◌, not,
  if◌then◌else◌, ◌+◌, any, ◌≡◌, get_elem?, set_elem,
}
use xmorph.Base.Bytes.{Bytes, codes, equal}

-- Where `acceptLoop` is: in Accept, behind one that failed, waiting for its connections with the
-- result that it will have, or returned. The result is whether there is an error.
pub data Phase : Type 0 where
  accepting failed : Phase
  draining ended : Bool → Phase

-- A listener, its loop, and the connections that the loop has still to wait for.
pub record Loop : Type 0 where
  pub is_open : Bool
  pub phase : Phase
  pub conns : ℕ

-- `returned` is whether `serveSSH` returned an error, once it has returned; `sent` is errCh.
pub record SshServer : Type 0 where
  pub cancelled : Bool
  pub loops : List Loop
  pub sent : List Bool
  pub returned : Option Bool

-- What one loop, its connections or the closing goroutine do, and what is sent to errCh then. A
-- loop tests ctx.Err() after its Accept failed.
pub data Move (cancelled : Bool) (l : Loop) : Loop → List Bool → Type 0 where
  closes : cancelled ≡ true → Move cancelled l (record l { is_open = false }) []
  accepts :
      l.is_open ≡ true
      → l.phase ≡ accepting
      → Move cancelled l (record l { conns = l.conns + 1 }) []
  fails : l.phase ≡ accepting → Move cancelled l (record l { phase = failed }) []
  checks : l.phase ≡ failed → Move cancelled l (record l { phase = draining (not cancelled) }) []
  finishes : {n : ℕ} → l.conns ≡ suc n → Move cancelled l (record l { conns = n }) []
  ends :
      {e : Bool}
      → l.phase ≡ draining e
      → l.conns ≡ 0
      → Move cancelled l (record l { phase = ended e }) (e ∷ [])

abbrev pub is_ended : Phase → Bool
is_ended accepting = false
is_ended failed = false
is_ended (draining e) = false
is_ended (ended e) = true

abbrev pub all_ended : List Loop → Bool
all_ended [] = true
all_ended (l ∷ ls) = is_ended l.phase && all_ended ls

abbrev pub has_error : List Bool → Bool
has_error es = any (λ e. e) es

-- The context may be done at any time; `serveSSH` returns behind all its loops.
pub data ServeStep (s : SshServer) : SshServer → Type 0 where
  cancel : ServeStep s (record s { cancelled = true })
  move :
      (i : ℕ) {l m : Loop} {es : List Bool}
      → get_elem? i s.loops ≡ some l
      → Move s.cancelled l m es
      → ServeStep s (record s { loops = set_elem i m s.loops; sent = s.sent ++ es })
  return :
      all_ended s.loops ≡ true
      → s.returned ≡ none
      → ServeStep s (record s { returned = some (has_error s.sent) })

abbrev pub fresh_loops : ℕ → List Loop
fresh_loops zero = []
fresh_loops (suc n) = record { is_open = true; phase = accepting; conns = 0 } ∷ fresh_loops n

-- With n listeners.
abbrev pub serving : ℕ → SshServer
serving n = record { cancelled = false; loops = fresh_loops n; sent = []; returned = none }

pub data Reach (n : ℕ) : SshServer → Type 0 where
  listening : Reach n (serving n)
  later : {s t : SshServer} → Reach n s → ServeStep s t → Reach n t

-- ssh.NewChannel, with whether its Accept succeeds.
pub record NewChannel : Type 0 where
  pub channel_type : Bytes
  pub opens : Bool

pub data ConnCall : Type 0 where
  discard_requests reject serve_session close_server_conn close_conn : ConnCall

unfoldable pub handle_channels : List NewChannel → List ConnCall
handle_channels [] = []
handle_channels (c ∷ cs) =
    let rest = handle_channels cs in
    if not (equal c.channel_type (codes "session"))
    then reject ∷ rest
    else if c.opens
    then serve_session ∷ rest
    else rest

-- `handleConn`, with whether ssh.NewServerConn succeeds; its deferred calls come last.
unfoldable pub handle_conn : Bool → List NewChannel → List ConnCall
handle_conn false channels = close_conn ∷ []
handle_conn true channels =
    (discard_requests ∷ handle_channels channels) ++ close_server_conn ∷ close_conn ∷ []
