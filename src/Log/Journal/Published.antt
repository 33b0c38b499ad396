-- ===== src/Log/Journal/Published.antt =====
-- The handlers and their streams are those of the journal, whatever is done with the log.
use xmorph.Base.{
  ℕ, Bool, true, false, List, [], ◌∷◌, ◌++◌, map, get_elem?, drop, drop-append, drop-length, length,
  length-append, All, All-append, ◌≤◌, ◌≡◌, refl, sym, ap, ◌∙◌, append-nil, append_assoc, arith,
  Bool-cases, Option-cases, inl, inr,
}
use xmorph.Base.Bytes.{Bytes}
use xmorph.Base.Int.{ℤ}
use xmorph.Log.{
  Record, Handler, LogStep, register_sink, change_level, change_colors, derive_attrs, derive_group,
  log, new_handler, enabled, plain_line, stderr_line, handle, step_handlers, step_streams,
  take_step, take_steps,
}
use xmorph.Log.Journal.{
  Journal, new_journal, note, journal_step, journal_steps, texts, since, published, IsKept,
}

texts-snoc :
    (line : Handler → Record → Bytes) (es : List (Handler × Record)) (h : Handler) (r : Record)
    → texts line (es ++ (h, r) ∷ []) ≡ texts line es ++ line h r
texts-snoc line [] h r = append-nil (line h r)
texts-snoc line ((g, q) ∷ es) h r =
    ap (λ s. line g q ++ s) (texts-snoc line es h r)
    ∙ sym (append_assoc (line g q) (texts line es) (line h r))

since-snoc :
    (es : List (Handler × Record)) (h : Handler) (r : Record) (marks : List ℕ)
    → All (λ mark. mark ≤ length es) marks
    → map (since (es ++ (h, r) ∷ [])) marks ≡ map (λ w. w ++ plain_line h r) (map (since es) marks)
since-snoc es h r [] kept = refl
since-snoc es h r (m ∷ ms) (k, kept) =
    rw
      (
        drop-append m es ((h, r) ∷ []) k,
        texts-snoc plain_line (drop m es) h r,
        since-snoc es h r ms kept,
      )
      refl

-- The sink that is registered last has had nothing.
since-mark :
    (es : List (Handler × Record)) (marks : List ℕ)
    → map (since es) (marks ++ length es ∷ []) ≡ map (since es) marks ++ [] ∷ []
since-mark es [] = rw (drop-length es) refl
since-mark es (m ∷ ms) = rw (since-mark es ms) refl

wider :
    (es fs : List (Handler × Record)) (marks : List ℕ)
    → All (λ mark. mark ≤ length es) marks
    → All (λ mark. mark ≤ length (es ++ fs)) marks
wider es fs [] kept = kept
wider es fs (m ∷ ms) (k, kept) = (omega (arith, length-append es fs), wider es fs ms kept)

handle-published :
    (j : Journal) (h : Handler) (r : Record)
    → IsKept j
    → handle h r (published j).streams
      ≡ (published (record j { entries = j.entries ++ (h, r) ∷ [] })).streams
unfolding handle published
handle-published j h r kept =
    rw
      (
        texts-snoc stderr_line j.entries h r,
        texts-snoc plain_line j.entries h r,
        since-snoc j.entries h r j.marks kept,
      )
      refl

step_streams-published :
    (s : LogStep) (j : Journal) (h : Handler)
    → IsKept j
    → (step_streams s h (published j).streams ≡ (published (note s h j)).streams)
      × IsKept (note s h j)
unfolding published
step_streams-published (register_sink false) j h kept = (refl, kept)
step_streams-published (register_sink true) j h kept = (
  rw (since-mark j.entries j.marks) refl,
  All-append (λ mark. mark ≤ length j.entries) j.marks (length j.entries ∷ []) kept
      (omega arith, tt),
)
step_streams-published (change_level lvl) j h kept = (refl, kept)
step_streams-published (change_colors on) j h kept = (refl, kept)
step_streams-published (derive_attrs attrs) j h kept = (refl, kept)
step_streams-published (derive_group name) j h kept = (refl, kept)
step_streams-published (log r) j h kept = elim (Bool-cases (enabled h r.at_level)) [
  | inl e ↦ rw e (handle-published j h r kept, wider j.entries ((h, r) ∷ []) j.marks kept)
  | inr e ↦ rw e (refl, kept)
]

take_step-published :
    (s : ℕ × LogStep) (j : Journal)
    → IsKept j
    → (take_step s (published j) ≡ published (journal_step s j)) × IsKept (journal_step s j)
unfolding take_step journal_step published
take_step-published (i, s) j kept = elim (Option-cases (get_elem? i j.authors)) [
  | inr (h, e) ↦
      let (same, still) = step_streams-published s j h kept in
      rw (journal_step, e)
        (ap (λ t. record { handlers = step_handlers s i h j.authors; streams = t }) same, still)
  | inl e ↦ rw (journal_step, e) (refl, kept)
]

run_published :
    (steps : List (ℕ × LogStep)) (j : Journal)
    → IsKept j
    → take_steps steps (published j) ≡ published (journal_steps steps j)
unfolding take_steps journal_steps
run_published [] j kept = refl
run_published (s ∷ ss) j kept =
    let (same, still) = take_step-published s j kept in
    rw same (run_published ss (journal_step s j) still)

-- Whatever is done with a new log and its clones, in any order: stderr holds the entries' coloured
-- lines, the buffer their plain lines, and each sink the plain lines of the entries since it was
-- registered, on whichever clone the entry and the registration were; an entry is a record that
-- the level of its handler lets through.
pub take_steps-published :
    (lvl : ℤ) (on : Bool) (steps : List (ℕ × LogStep))
    → take_steps steps (new_handler lvl on) ≡ published (journal_steps steps (new_journal lvl on))
unfolding published
take_steps-published lvl on steps = run_published steps (new_journal lvl on) tt
