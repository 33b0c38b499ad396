-- ===== src/Tests/Start.antt =====
-- The start of the program on a machine without journald.
use xmorph.Base.{true, false, some, List, [], ◌∷◌, ◌≡◌, refl}
use xmorph.Base.Bytes.{codes, equal}
use xmorph.Base.Int.{pos, negsuc}
use xmorph.Log.{Record, take_steps, plain_line, level_tag}
use xmorph.Cli.Main.{Startup, supervisor, command_line, entry_of, attach_log_file}
use xmorph.Cli.Main.Logged.{
  text_of, log_all, handler_of, with_handler, logged_as, log_of, take_steps-log_of,
}

abbrev plain_box : Startup
plain_box = record { exists = λ path. false; dials_syslog = true; stderr_is_terminal = false }

abbrev records : List Record
records =
    record { at_level = negsuc 3; message = codes "probe"; attrs = [] }
    ∷ record { at_level = pos 0; message = codes "pivot"; attrs = [] }
    ∷ []

take_steps-log_of_example :
    let h = handler_of plain_box (some false) in
    take_steps (log_all records) (
      attach_log_file
        (codes "/var/log")
        true
        true
        (take_steps (log_all records) (log_of plain_box (some false))))
    ≡ with_handler h (logged_as true true h records records)
unfolding xmorph.Cli.Main.journald_present
take_steps-log_of_example =
    take_steps-log_of plain_box (some false) records records (codes "/var/log") true true

-- The debug record is not there.
plain_box_text :
    text_of plain_line (handler_of plain_box (some false)) records ≡ codes "[INFO] pivot\n"
unfolding plain_line level_tag
plain_box_text = refl

entries :
    (entry_of (codes "xmorph" ∷ codes "--init" ∷ codes "/bin/top" ∷ [])
      ≡ supervisor (codes "/bin/top" ∷ []))
    × (entry_of (codes "xmorph" ∷ codes "pivot" ∷ codes "--init" ∷ [])
        ≡ command_line (codes "pivot" ∷ codes "--init" ∷ []))
unfolding entry_of equal
entries = (refl, refl)
