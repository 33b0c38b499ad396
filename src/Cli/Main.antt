-- ===== src/Cli/Main.antt =====
-- cmd/xmorph/main.go and internal/cli/root.go and idle.go: what the program is started as, and its
-- log. Cobra, which reads the command line, is a parameter; so are the checks of the machine.
pub mod Logged
use xmorph.Base.{ℕ, Bool, true, false, Option, none, some, List, [], ◌∷◌, any, if◌then◌else◌}
use xmorph.Base.Bytes.{Bytes, codes, equal, is_empty}
use xmorph.Base.Int.{ℤ, pos, negsuc}
use xmorph.Log.{Loggers, register_sink, change_level, new_handler, take_step}
use xmorph.Postpivot.Supervise.{Effect, serve_until_signal}

-- Whether a path is there, whether syslog answers, and whether stderr is a terminal.
pub record Startup : Type 0 where
  pub exists : Bytes → Bool
  pub dials_syslog : Bool
  pub stderr_is_terminal : Bool

unfoldable pub journald_present : (Bytes → Bool) → Bool
journald_present exists =
    any exists (codes "/run/systemd/journal/socket" ∷ codes "/run/systemd/journal/stdout" ∷ [])

-- The log handler that main installs has the number 0.
unfoldable pub attach_system_log_sink : Startup → Loggers → Loggers
unfolding take_step journald_present
attach_system_log_sink st w =
    if journald_present st.exists
    then w
    else if st.dials_syslog
    then take_step (0, register_sink true) w
    else w

unfoldable pub install_logger : Startup → ℤ → Bool → Loggers
unfolding attach_system_log_sink
install_logger st level colors = attach_system_log_sink st (new_handler level colors)

-- slog.LevelInfo and slog.LevelDebug
abbrev pub level_info : ℤ
level_info = pos 0

abbrev pub level_debug : ℤ
level_debug = negsuc 3

-- The root command's PersistentPreRun, with the value of the flag, if the command has it.
unfoldable pub persistent_pre_run : Option Bool → Loggers → Loggers
unfolding take_step
persistent_pre_run (some true) w = take_step (0, change_level level_debug) w
persistent_pre_run (some false) w = w
persistent_pre_run none w = w

-- The log file of the pivot in the directory of --log-dir, with whether that can be made and the file
-- opened.
unfoldable pub attach_log_file : Bytes → Bool → Bool → Loggers → Loggers
unfolding take_step
attach_log_file dir makes opens w =
    if is_empty dir
    then w
    else if makes
    then (if opens then take_step (0, register_sink true) w else w)
    else w

pub data Branch : Type 0 where
  supervisor : List Bytes → Branch
  command_line : List Bytes → Branch

-- The branch of `main` on os.Args.
unfoldable pub entry_of : List Bytes → Branch
entry_of [] = command_line []
entry_of (program ∷ []) = command_line []
entry_of (program ∷ arg ∷ args) =
    if equal arg (codes "--init") then supervisor args else command_line (arg ∷ args)

-- What cobra makes of a command line: the verbose flag of the command that it finds, and whether
-- that command, with the log as it then is, returns no error. `none` is a line that it refuses.
pub record Command : Type 0 where
  pub verbose : Option Bool
  pub succeeds : Loggers → Bool

module _ (st : Startup) (parse : List Bytes → Option Command) (run : List Bytes → ℤ) where
  -- The exit status of `main`, with that of the supervisor.
  unfoldable pub exit_status_of : List Bytes → ℤ
  unfolding entry_of install_logger persistent_pre_run
  exit_status_of args = elim (entry_of args) [
    | supervisor argv ↦ run argv
    | command_line line ↦
        let log = install_logger st level_info st.stderr_is_terminal in
        elim (parse line) [
          | none ↦ pos 1
          | some cmd ↦ if cmd.succeeds (persistent_pre_run cmd.verbose log) then pos 0 else pos 1
        ]
  ]

-- `xmorph idle`, with what wakes it up, returns no error.
abbrev pub run_idle : List Bool → List Effect
run_idle wakes = (serve_until_signal wakes).0
