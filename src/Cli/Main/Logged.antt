-- ===== src/Cli/Main/Logged.antt =====
-- What the log of a command holds, and where.
use xmorph.Base.{
  ℕ, Bool, true, false, Option, none, some, List, [], ◌∷◌, ◌++◌, ◌&&◌, not, if◌then◌else◌, map,
  append-nil, append_assoc, ◌≡◌, refl, ap, sym, ◌∙◌, arith, Bool-cases, inl, inr,
}
use xmorph.Base.Bytes.{Bytes, is_empty}
use xmorph.Log.{
  Record, Handler, Streams, Loggers, LogStep, log, enabled, plain_line, stderr_line, handle,
  take_steps,
}
use xmorph.Cli.Main.{
  Startup, journald_present, attach_system_log_sink, install_logger, level_info, level_debug,
  persistent_pre_run, attach_log_file,
}

-- The records that a handler lets through, as text.
abbrev pub text_of : (Handler → Record → Bytes) → Handler → List Record → Bytes
text_of line h [] = []
text_of line h (r ∷ rs) = (if enabled h r.at_level then line h r else []) ++ text_of line h rs

abbrev pub log_all : List Record → List (ℕ × LogStep)
log_all rs = map (λ r. (0, log r)) rs

abbrev pub with_handler : Handler → Streams → Loggers
with_handler h s = record { handlers = h ∷ []; streams = s }

abbrev pub add_text : Handler → List Record → Streams → Streams
add_text h rs s = record {
  stderr = s.stderr ++ text_of stderr_line h rs;
  buf = s.buf ++ text_of plain_line h rs;
  sinks = map (λ w. w ++ text_of plain_line h rs) s.sinks;
}

map-append_nil : (ws : List Bytes) → map (λ w. w ++ []) ws ≡ ws
map-append_nil [] = refl
map-append_nil (w ∷ ws) = rw (append-nil w, map-append_nil ws) refl

map-append-append :
    (ws : List Bytes) (a b : Bytes)
    → map (λ w. w ++ b) (map (λ w. w ++ a) ws) ≡ map (λ w. w ++ (a ++ b)) ws
map-append-append [] a b = refl
map-append-append (w ∷ ws) a b = rw (append_assoc w a b, map-append-append ws a b) refl

-- What the handler does with one record comes before what it does with the rest.
add_text-handle :
    (h : Handler) (r : Record) (rs : List Record) (s : Streams)
    → add_text h rs (handle h r s) ≡ record {
      stderr = s.stderr ++ (stderr_line h r ++ text_of stderr_line h rs);
      buf = s.buf ++ (plain_line h r ++ text_of plain_line h rs);
      sinks = map (λ w. w ++ (plain_line h r ++ text_of plain_line h rs)) s.sinks;
    }
unfolding handle
add_text-handle h r rs s =
    rw
      (
        append_assoc s.stderr (stderr_line h r) (text_of stderr_line h rs),
        append_assoc s.buf (plain_line h r) (text_of plain_line h rs),
        map-append-append s.sinks (plain_line h r) (text_of plain_line h rs),
      )
      refl

take_steps-cons :
    (h : Handler) (r : Record) (rs : List Record) (s : Streams)
    → take_steps (log_all (r ∷ rs)) (with_handler h s)
      ≡ take_steps (log_all rs) (with_handler h (if enabled h r.at_level then handle h r s else s))
unfolding take_steps
take_steps-cons h r rs s = refl

take_steps-log_all :
    (h : Handler) (rs : List Record) (s : Streams)
    → take_steps (log_all rs) (with_handler h s) ≡ with_handler h (add_text h rs s)
unfolding take_steps
take_steps-log_all h [] s = rw (append-nil s.stderr, append-nil s.buf, map-append_nil s.sinks) refl
take_steps-log_all h (r ∷ rs) s = elim (Bool-cases (enabled h r.at_level)) [
  | inl e ↦
      take_steps-cons h r rs s
      ∙ rw e
          (take_steps-log_all h rs (handle h r s) ∙ ap (with_handler h) (add_text-handle h r rs s))
  | inr e ↦ take_steps-cons h r rs s ∙ rw e (take_steps-log_all h rs s)
]

-- The handler of a command: Info, or Debug where --verbose is given.
abbrev pub handler_of : Startup → Option Bool → Handler
handler_of st verbose = record {
  level = elim verbose [ some true ↦ level_debug | some false ↦ level_info | none ↦ level_info ];
  colors = st.stderr_is_terminal;
  scope = [];
}

-- Whether the system's log is written to as a sink.
abbrev pub has_system_log : Startup → Bool
has_system_log st = not (journald_present st.exists) && st.dials_syslog

abbrev pub log_of : Startup → Option Bool → Loggers
log_of st verbose = persistent_pre_run verbose (install_logger st level_info st.stderr_is_terminal)

log_of-with_handler :
    (st : Startup) (verbose : Option Bool)
    → log_of st verbose
      ≡ with_handler
          (handler_of st verbose)
          (record { stderr = []; buf = []; sinks = if has_system_log st then [] ∷ [] else [] })
unfolding persistent_pre_run install_logger attach_system_log_sink
log_of-with_handler st (some true) = ground arith
log_of-with_handler st (some false) = ground arith
log_of-with_handler st none = ground arith

-- Whether the pivot adds its log file as a sink.
abbrev pub has_log_file : Bytes → Bool → Bool → Bool
has_log_file dir makes opens = not (is_empty dir) && (makes && opens)

-- What the streams hold of the records before and after the log file was opened.
abbrev pub logged_as : Bool → Bool → Handler → List Record → List Record → Streams
logged_as system file h before later =
    let text = text_of plain_line h (before ++ later) in
    record {
      stderr = text_of stderr_line h (before ++ later);
      buf = text;
      sinks =
          (if system then text ∷ [] else [])
          ++ (if file then text_of plain_line h later ∷ [] else []);
    }

text_of-append :
    (line : Handler → Record → Bytes) (h : Handler) (rs later : List Record)
    → text_of line h (rs ++ later) ≡ text_of line h rs ++ text_of line h later
text_of-append line h [] later = refl
text_of-append line h (r ∷ rs) later =
    rw (text_of-append line h rs later)
      (sym (append_assoc _ (text_of line h rs) (text_of line h later)))

attach_log_file-with_handler :
    (h : Handler) (dir : Bytes) (makes opens : Bool) (s : Streams)
    → attach_log_file dir makes opens (with_handler h s)
      ≡ with_handler h
          (record s { sinks = s.sinks ++ (if has_log_file dir makes opens then [] ∷ [] else []) })
unfolding attach_log_file
attach_log_file-with_handler h dir makes opens s = ground (arith, append-nil s.sinks)

add_text-twice :
    (system file : Bool) (h : Handler) (before later : List Record)
    → let s : Streams =
        add_text h before
          (record { stderr = []; buf = []; sinks = if system then [] ∷ [] else [] }) in
      add_text h later (record s { sinks = s.sinks ++ (if file then [] ∷ [] else []) })
      ≡ logged_as system file h before later
add_text-twice true true h before later =
    rw (text_of-append plain_line h before later, text_of-append stderr_line h before later) refl
add_text-twice true false h before later =
    rw (text_of-append plain_line h before later, text_of-append stderr_line h before later) refl
add_text-twice false true h before later =
    rw (text_of-append plain_line h before later, text_of-append stderr_line h before later) refl
add_text-twice false false h before later =
    rw (text_of-append plain_line h before later, text_of-append stderr_line h before later) refl

-- What a command logs by the handler that main installs, before and after the pivot's log file is
-- opened, or is not: stderr has the lines of those records that the level lets through, which is
-- Debug with --verbose and Info otherwise, coloured for a terminal; the buffer has their plain lines;
-- the system's log is a sink exactly if journald does not run and syslog answers, and has the same
-- text as the buffer; and the log file is a further sink exactly if --log-dir is not empty, the
-- directory can be made and the file opened, and has the plain lines of what was logged since.
pub take_steps-log_of :
    (st : Startup) (verbose : Option Bool) (before later : List Record) (dir : Bytes)
    (makes opens : Bool)
    → let h = handler_of st verbose in
      take_steps
        (log_all later)
        (attach_log_file dir makes opens (take_steps (log_all before) (log_of st verbose)))
      ≡ with_handler h (logged_as (has_system_log st) (has_log_file dir makes opens) h before later)
take_steps-log_of st verbose before later dir makes opens =
    let h = handler_of st verbose in
    ap
      (λ (w : Loggers).
        take_steps (log_all later)
          (attach_log_file dir makes opens (take_steps (log_all before) w)))
      (log_of-with_handler st verbose)
    ∙ ap (λ (w : Loggers). take_steps (log_all later) (attach_log_file dir makes opens w))
        (take_steps-log_all h before _)
    ∙ ap (take_steps (log_all later)) (attach_log_file-with_handler h dir makes opens _)
    ∙ take_steps-log_all h later _
    ∙ ap (with_handler h)
        (add_text-twice (has_system_log st) (has_log_file dir makes opens) h before later)
