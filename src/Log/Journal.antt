-- ===== src/Log/Journal.antt =====
-- What a log promises: a journal of the entries, and for each sink how many there were when it was
-- registered. The streams are texts of the journal.
pub mod Published
use xmorph.Base.{
  ℕ, Bool, true, false, Option, none, some, List, [], ◌∷◌, ◌++◌, map, if◌then◌else◌, get_elem?,
  drop, drop-append, drop-length, length, length-append, All, All-append, ◌≤◌, ◌≡◌, refl, sym, ap,
  ◌∙◌, append-nil, append_assoc, arith, Bool-cases, inl, inr,
}
use xmorph.Base.Bytes.{Bytes}
use xmorph.Base.Int.{ℤ}
use xmorph.Log.{
  Record, Handler, Streams, Loggers, LogStep, register_sink, change_level, change_colors,
  derive_attrs, derive_group, log, new_handler, enabled, plain_line, stderr_line, handle,
  step_handlers, step_streams, take_step, take_steps, add_sink,
}

-- An entry is a record with the handler that it was logged by.
pub record Journal : Type 0 where
  pub authors : List Handler
  pub entries : List (Handler × Record)
  pub marks : List ℕ

abbrev pub new_journal : ℤ → Bool → Journal
new_journal lvl on = record { authors = (new_handler lvl on).handlers; entries = []; marks = [] }

abbrev pub note : LogStep → Handler → Journal → Journal
note (register_sink false) h j = j
note (register_sink true) h j = record j { marks = j.marks ++ length j.entries ∷ [] }
note (change_level lvl) h j = j
note (change_colors on) h j = j
note (derive_attrs attrs) h j = j
note (derive_group name) h j = j
note (log r) h j =
    if enabled h r.at_level then record j { entries = j.entries ++ (h, r) ∷ [] } else j

unfoldable pub journal_step : ℕ × LogStep → Journal → Journal
journal_step (i, s) j = elim (get_elem? i j.authors) [
  | none ↦ j
  | some h ↦ record (note s h j) { authors = step_handlers s i h j.authors }
]

unfoldable pub journal_steps : List (ℕ × LogStep) → Journal → Journal
unfolding journal_step
journal_steps [] j = j
journal_steps (s ∷ ss) j = journal_steps ss (journal_step s j)

abbrev pub texts : (Handler → Record → Bytes) → List (Handler × Record) → Bytes
texts line [] = []
texts line ((h, r) ∷ es) = line h r ++ texts line es

abbrev pub since : List (Handler × Record) → ℕ → Bytes
since es mark = texts plain_line (drop mark es)

unfoldable pub published : Journal → Loggers
published j = record {
  handlers = j.authors;
  streams = record {
    stderr = texts stderr_line j.entries;
    buf = texts plain_line j.entries;
    sinks = map (since j.entries) j.marks;
  };
}

abbrev pub IsKept : Journal → Type 0
IsKept j = All (λ mark. mark ≤ length j.entries) j.marks
