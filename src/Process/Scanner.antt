-- ===== src/Process/Scanner.antt =====
-- internal/process/scanner.go: what is read of the processes under /proc. The answers of the reads
-- are a function of the path, since each file is read once in a scan.
pub mod Readback
use xmorph.Base.{
  Bool, true, false, Option, none, some, List, [], ◌∷◌, ◌++◌, ◌&&◌, not, if◌then◌else◌,
}
use xmorph.Base.Bytes.{Bytes, codes, cut, cut_prefix, trim_space, trim_right_byte}
use xmorph.Base.Bytes.Decimal.{atoi, itoa}
use xmorph.Base.Bytes.Lines.{split}
use xmorph.Base.Int.{ℤ, pos}
use xmorph.Path.{join}
use xmorph.Process.Essential.{Info}

-- os.DirEntry
pub record DirEntry : Type 0 where
  pub name : Bytes
  pub is_dir : Bool

-- strings.SplitN(s, "\x00", 2)[0]
abbrev pub first_argument : Bytes → Bytes
first_argument s = elim (cut 0 s) [ none ↦ s | some (a, b) ↦ a ]

-- The parent that a line of the status gives.
unfoldable pub ppid_line : Bytes → Option ℤ
unfolding cut_prefix trim_space
ppid_line line = elim (cut_prefix (codes "PPid:") line) [
  | none ↦ none
  | some rest ↦ atoi (trim_space rest)
]

unfoldable pub first_ppid : List Bytes → ℤ
first_ppid [] = pos 0
first_ppid (line ∷ lines) = elim (ppid_line line) [ none ↦ first_ppid lines | some n ↦ n ]

-- What each read of a file, each look at a path, and the read of the directory answers.
pub record ProcFs : Type 0 where
  pub read_file : Bytes → Option Bytes
  pub exists : Bytes → Bool
  pub read_dir : Bytes → Option (List DirEntry)

abbrev pub proc_path : Bytes → ℤ → Bytes
proc_path root pid = join root (itoa pid)

module _ (fs : ProcFs) where
  unfoldable pub read_ppid : Bytes → ℤ
  read_ppid path = elim (fs.read_file path) [
    | none ↦ pos 0
    | some text ↦ first_ppid (split b'\n' text)
  ]

  abbrev pub info_from : Bytes → ℤ → Option Bytes → Option Bytes → Option Info
  info_from base pid none cmdline = none
  info_from base pid (some comm) none = none
  info_from base pid (some comm) (some cmdline) = some (record {
    pid = pid;
    ppid = read_ppid (join base (codes "status"));
    comm = trim_right_byte b'\n' comm;
    cmdline = first_argument cmdline;
  })

  -- A read error is `none`.
  unfoldable pub read_proc : Bytes → ℤ → Option Info
  read_proc root pid =
      let base = proc_path root pid in
      info_from base pid (fs.read_file (join base (codes "comm")))
        (fs.read_file (join base (codes "cmdline")))

  -- The directories whose names are numbers, with what can be read of them.
  unfoldable pub scan_entries : Bytes → List DirEntry → List Info
  scan_entries root [] = []
  scan_entries root (e ∷ es) =
      let rest = scan_entries root es in
      if not e.is_dir then rest else elim (atoi e.name) [
        | none ↦ rest
        | some pid ↦ elim (read_proc root pid) [ none ↦ rest | some info ↦ info ∷ rest ]
      ]

  unfoldable pub scan_root : Bytes → Option (List Info)
  scan_root root = elim (fs.read_dir root) [
    | none ↦ none
    | some entries ↦ some (scan_entries root entries)
  ]

  -- `Scan`
  abbrev pub scan : Option (List Info)
  scan = scan_root (codes "/proc")

  -- `Get`
  abbrev pub get : ℤ → Option Info
  get pid = read_proc (codes "/proc") pid

  abbrev pub is_running : ℤ → Bool
  is_running pid = fs.exists (proc_path (codes "/proc") pid)
