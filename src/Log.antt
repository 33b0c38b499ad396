-- ===== src/Log.antt =====
-- internal/log/log.go: the slog handler that writes to stderr, to a buffer and to further sinks, which
-- its clones share. A sequence of operations on the handlers is a list of steps, each of which is
-- taken to be atomic. An attribute's value is the text that fmt makes of it. Write errors are passed
-- over, as in the code.
pub mod Journal
use xmorph.Base.{
  ℕ, zero, suc, Bool, true, false, Option, none, some, List, [], ◌∷◌, ◌++◌, map, not, if◌then◌else◌,
  get_elem?, set_elem,
}
use xmorph.Base.Bytes.{Bytes, codes, is_empty}
use xmorph.Base.Int.{ℤ, lt_pos, leb_int}

-- slog.Record: a level, a message and attributes.
pub record Record : Type 0 where
  pub at_level : ℤ
  pub message : Bytes
  pub attrs : List (Bytes × Bytes)

-- The fields of `Handler` that a clone has for itself.
pub record Handler : Type 0 where
  pub level : ℤ
  pub colors : Bool
  pub scope : Bytes

-- What the clones share: the text that each writer has had.
pub record Streams : Type 0 where
  pub stderr : Bytes
  pub buf : Bytes
  pub sinks : List Bytes

pub record Loggers : Type 0 where
  pub handlers : List Handler
  pub streams : Streams

abbrev pub new_handler : ℤ → Bool → Loggers
new_handler lvl on = record {
  handlers = record { level = lvl; colors = on; scope = [] } ∷ [];
  streams = record { stderr = []; buf = []; sinks = [] };
}

-- A nil writer is ignored.
abbrev pub add_sink : Bool → Streams → Streams
add_sink false s = s
add_sink true s = record s { sinks = s.sinks ++ [] ∷ [] }

abbrev pub enabled : Handler → ℤ → Bool
enabled h lvl = leb_int h.level lvl

abbrev pub set_level : ℤ → Handler → Handler
set_level lvl h = record h { level = lvl }

abbrev pub set_colors : Bool → Handler → Handler
set_colors on h = record h { colors = on }

unfoldable pub level_tag : ℤ → Bytes
level_tag lvl =
    if not (lt_pos lvl 8)
    then codes "ERROR"
    else if not (lt_pos lvl 4)
    then codes "WARN"
    else if not (lt_pos lvl 0)
    then codes "INFO"
    else codes "DEBUG"

unfoldable pub level_color : ℤ → Bytes
level_color lvl =
    if not (lt_pos lvl 8)
    then 27 ∷ codes "[31m"
    else if not (lt_pos lvl 4)
    then 27 ∷ codes "[33m"
    else if not (lt_pos lvl 0)
    then 27 ∷ codes "[32m"
    else 27 ∷ codes "[36m"

abbrev pub reset : Bytes
reset = 27 ∷ codes "[0m"

abbrev pub write_attrs : List (Bytes × Bytes) → Bytes
write_attrs [] = []
write_attrs ((key, value) ∷ attrs) = codes " " ++ key ++ codes "=" ++ value ++ write_attrs attrs

abbrev pub bracketed : Bytes → Bytes
bracketed s = codes "[" ++ s ++ codes "] "

abbrev pub scope_part : Bytes → Bytes
scope_part scope = if is_empty scope then [] else bracketed scope

-- `plainLine`
unfoldable pub plain_line : Handler → Record → Bytes
unfolding level_tag
plain_line h r =
    bracketed (level_tag r.at_level)
    ++ scope_part h.scope
    ++ r.message
    ++ write_attrs r.attrs
    ++ codes "\n"

-- The line that `Handle` writes to stderr.
unfoldable pub stderr_line : Handler → Record → Bytes
unfolding level_tag level_color
stderr_line h r =
    (if h.colors
      then level_color r.at_level
        ++ codes "["
        ++ level_tag r.at_level
        ++ codes "]"
        ++ reset
        ++ codes " "
      else bracketed (level_tag r.at_level))
    ++ scope_part h.scope
    ++ r.message
    ++ write_attrs r.attrs
    ++ codes "\n"

unfoldable pub handle : Handler → Record → Streams → Streams
unfolding plain_line stderr_line
handle h r s =
    let line = plain_line h r in
    record {
      stderr = s.stderr ++ stderr_line h r;
      buf = s.buf ++ line;
      sinks = map (λ w. w ++ line) s.sinks;
    }

-- `WithAttrs` is a clone, whatever the attributes are.
abbrev pub with_attrs : List (Bytes × Bytes) → Handler → Handler
with_attrs attrs h = h

abbrev pub with_group : Bytes → Handler → Handler
with_group name h = record h {
  scope = if is_empty h.scope then name else h.scope ++ codes "." ++ name;
}

-- What the program does with the handler of a number; `log` is what a slog.Logger does with a record.
pub data LogStep : Type 0 where
  register_sink : Bool → LogStep
  change_level : ℤ → LogStep
  change_colors : Bool → LogStep
  derive_attrs : List (Bytes × Bytes) → LogStep
  derive_group : Bytes → LogStep
  log : Record → LogStep

-- What a step makes of the handlers, when the one that it is on is h, the i-th.
abbrev pub step_handlers : LogStep → ℕ → Handler → List Handler → List Handler
step_handlers (register_sink given) i h hs = hs
step_handlers (change_level lvl) i h hs = set_elem i (set_level lvl h) hs
step_handlers (change_colors on) i h hs = set_elem i (set_colors on h) hs
step_handlers (derive_attrs attrs) i h hs = hs ++ with_attrs attrs h ∷ []
step_handlers (derive_group name) i h hs = hs ++ with_group name h ∷ []
step_handlers (log r) i h hs = hs

abbrev pub step_streams : LogStep → Handler → Streams → Streams
step_streams (register_sink given) h s = add_sink given s
step_streams (change_level lvl) h s = s
step_streams (change_colors on) h s = s
step_streams (derive_attrs attrs) h s = s
step_streams (derive_group name) h s = s
step_streams (log r) h s = if enabled h r.at_level then handle h r s else s

unfoldable pub take_step : ℕ × LogStep → Loggers → Loggers
unfolding handle
take_step (i, s) w = elim (get_elem? i w.handlers) [
  | none ↦ w
  | some h ↦ record {
    handlers = step_handlers s i h w.handlers;
    streams = step_streams s h w.streams;
  }
]

unfoldable pub take_steps : List (ℕ × LogStep) → Loggers → Loggers
unfolding take_step
take_steps [] w = w
take_steps (s ∷ ss) w = take_steps ss (take_step s w)

-- The file at `path` before and after: no file is written for an empty buffer, and none without its
-- directory.
abbrev pub flush_buffer_to : Bool → Bool → Streams → Option Bytes → Option Bytes
flush_buffer_to makes_dir writes s before =
    if is_empty s.buf
    then before
    else if not makes_dir
    then before
    else if writes
    then some s.buf
    else before
