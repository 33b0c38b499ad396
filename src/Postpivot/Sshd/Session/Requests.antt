-- ===== src/Postpivot/Sshd/Session/Requests.antt =====
-- What the requests of a session say, and the session that they lead to.
use xmorph.Base.{
  Bool, true, false, Option, none, some, List, [], ◌∷◌, ◌++◌, ◌||◌, ◌≡◌, ap, arith, append_assoc,
  append-nil, Option-cases, inl, inr,
}
use xmorph.Base.Bytes.{Bytes, codes}
use xmorph.Postpivot.Sshd.Session.{
  PtyReq, winsize, Request, Decoders, Session, Kind, pty_kind, env_kind, shell_kind, exec_kind,
  other_kind, kind_of, shell_argv, command_argv, go_on, launch, on_request,
}

abbrev or_else {ℓ} : {A : Type ℓ} → Option A → Option A → Option A
or_else none b = b
or_else (some a) b = some a

-- The last value that f makes of an element.
abbrev pub last_some {ℓ κ} : {A : Type ℓ} {B : Type κ} → (A → Option B) → List A → Option B
last_some f [] = none
last_some f (x ∷ xs) = or_else (last_some f xs) (f x)

abbrev cons_some {ℓ} : {A : Type ℓ} → Option A → List A → List A
cons_some none xs = xs
cons_some (some x) xs = x ∷ xs

abbrev pub filter_map {ℓ κ} : {A : Type ℓ} {B : Type κ} → (A → Option B) → List A → List B
filter_map f [] = []
filter_map f (x ∷ xs) = cons_some (f x) (filter_map f xs)

abbrev setting : Option (Bytes × Bytes) → Option Bytes
setting none = none
setting (some (name, value)) = some (name ++ codes "=" ++ value)

abbrev pub is_some {ℓ} : {A : Type ℓ} → Option A → Bool
is_some none = false
is_some (some a) = true

abbrev map_command : Option Bytes → Option (List Bytes)
map_command none = none
map_command (some command) = some (command_argv command)

module _ (d : Decoders) where
  -- What a request says, if it is of the kind: a terminal, a variable, or a command.
  abbrev pub terminal_of : Request → Option PtyReq
  terminal_of req = elim (kind_of req.kind) [
    | pty_kind ↦ d.pty_req req.payload
    | env_kind ↦ none
    | shell_kind ↦ none
    | exec_kind ↦ none
    | other_kind ↦ none
  ]

  abbrev pub variable_of : Request → Option Bytes
  variable_of req = elim (kind_of req.kind) [
    | pty_kind ↦ none
    | env_kind ↦ setting (d.env_var req.payload)
    | shell_kind ↦ none
    | exec_kind ↦ none
    | other_kind ↦ none
  ]

  abbrev pub command_of : Request → Option (List Bytes)
  command_of req = elim (kind_of req.kind) [
    | pty_kind ↦ none
    | env_kind ↦ none
    | shell_kind ↦ some shell_argv
    | exec_kind ↦ map_command (d.exec_command req.payload)
    | other_kind ↦ none
  ]

  abbrev is_env : Kind → Bool
  is_env pty_kind = false
  is_env env_kind = true
  is_env shell_kind = false
  is_env exec_kind = false
  is_env other_kind = false

  -- The reply to a request before the command: only terminals and variables are agreed to.
  abbrev pub is_agreed : Request → Bool
  is_agreed req = is_some (terminal_of req) || is_env (kind_of req.kind)

  -- The session that requests lead to.
  abbrev pub settled : List Request → Session → Session
  settled reqs s = record {
    term = elim (last_some terminal_of reqs) [ none ↦ s.term | some m ↦ m.term ];
    env = s.env ++ filter_map variable_of reqs;
    want_pty = s.want_pty || is_some (last_some terminal_of reqs);
    ws = elim (last_some terminal_of reqs) [ none ↦ s.ws | some m ↦ winsize m ];
  }

  pub on_request-settled :
      (req : Request) (s : Session)
      → command_of req ≡ none
      → on_request d req s ≡ go_on (is_agreed req) (settled (req ∷ []) s)
  unfolding on_request
  on_request-settled req s quiet = ground (arith, append-nil s.env)

  pub on_request-launch :
      (req : Request) (s : Session) (argv : List Bytes)
      → command_of req ≡ some argv
      → on_request d req s ≡ launch argv
  unfolding on_request
  on_request-launch req s argv found = ground arith

  pub settled_none : (s : Session) → settled [] s ≡ s
  settled_none s = rw (append-nil s.env) (ground arith)

  append-cons_some :
      (xs ys : List Bytes) (o : Option Bytes) → (xs ++ cons_some o []) ++ ys ≡ xs ++ cons_some o ys
  append-cons_some xs ys none = ap (λ zs. zs ++ ys) (append-nil xs)
  append-cons_some xs ys (some x) = append_assoc xs (x ∷ []) ys

  pub settled_cons :
      (req : Request) (reqs : List Request) (s : Session)
      → settled reqs (settled (req ∷ []) s) ≡ settled (req ∷ reqs) s
  settled_cons req reqs s =
      let env = append-cons_some s.env (filter_map variable_of reqs) (variable_of req) in
      elim (Option-cases (last_some terminal_of reqs)) [
        | inl e ↦ rw (env, e) (ground arith)
        | inr (m, e) ↦ rw (env, e) (ground arith)
      ]
