-- ===== src/Process/Scanner/Readback.antt =====
-- A scan of /proc finds the processes that the kernel shows there.
use xmorph.Base.{
  ℕ, true, false, Option, none, some, List, [], ◌∷◌, ◌++◌, map, All, ◌≡◌, refl, ap, ==_refl, ◌∙◌,
  ◌≤◌, arith,
}
use xmorph.Base.Bytes.{
  Bytes, codes, contains_byte, cut, cut_prefix, trim_space, trim_left, is_space, trim_right_byte,
}
use xmorph.Base.Bytes.Cut.{cut-append}
use xmorph.Base.Bytes.Decimal.{atoi, itoa, decimal, decimal-IsDigits, atoi-itoa, max_int}
use xmorph.Base.Bytes.Lines.{split}
use xmorph.Base.Bytes.Number.{IsDigits}
use xmorph.Base.Bytes.Trim.{trim_space_digits}
use xmorph.Base.Bytes.Words.{split-append}
use xmorph.Base.Int.{pos}
use xmorph.Path.{join}
use xmorph.Process.Essential.{Info}
use xmorph.Process.Scanner.{
  DirEntry, first_argument, ppid_line, first_ppid, ProcFs, proc_path, read_ppid, read_proc,
  scan_entries, scan_root,
}

-- What the kernel knows of a process: the lines of its status before that of the parent, and the
-- text behind that.
pub record Shown : Type 0 where
  pub pid : ℕ
  pub ppid : ℕ
  pub comm : Bytes
  pub argv : List Bytes
  pub status_head : List Bytes
  pub status_rest : Bytes

-- The formats of proc(5).
abbrev pub cmdline_text : List Bytes → Bytes
cmdline_text [] = []
cmdline_text (arg ∷ args) = arg ++ 0 ∷ cmdline_text args

abbrev pub status_text : List Bytes → ℕ → Bytes → Bytes
status_text [] ppid rest = codes "PPid:" ++ b'\t' ∷ decimal ppid ++ b'\n' ∷ rest
status_text (line ∷ lines) ppid rest = line ++ b'\n' ∷ status_text lines ppid rest

abbrev pub first_or_empty : List Bytes → Bytes
first_or_empty [] = []
first_or_empty (arg ∷ args) = arg

-- What xmorph keeps of a process.
abbrev pub info_of : Shown → Info
info_of p = record {
  pid = pos p.pid;
  ppid = pos p.ppid;
  comm = p.comm;
  cmdline = first_or_empty p.argv;
}

-- A name without a line feed, an argument without a NUL, lines that are lines and not the parent's.
pub record IsShown (p : Shown) : Type 0 where
  pub pid_fits : p.pid ≤ max_int
  pub ppid_fits : p.ppid ≤ max_int
  pub comm_is_line : contains_byte b'\n' p.comm ≡ false
  pub no_nul : contains_byte 0 (first_or_empty p.argv) ≡ false
  pub head_lines :
      All
        (λ l. (contains_byte b'\n' l ≡ false) × (cut_prefix (codes "PPid:") l ≡ none))
        p.status_head

module _ (fs : ProcFs) (root : Bytes) where
  abbrev pub file_of : ℕ → Bytes → Option Bytes
  file_of pid name = fs.read_file (join (proc_path root (pos pid)) name)

  -- The files of a process hold those texts.
  pub record Holds (p : Shown) : Type 0 where
    pub comm_file : file_of p.pid (codes "comm") ≡ some (p.comm ++ b'\n' ∷ [])
    pub cmdline_file : file_of p.pid (codes "cmdline") ≡ some (cmdline_text p.argv)
    pub status_file :
        file_of p.pid (codes "status") ≡ some (status_text p.status_head p.ppid p.status_rest)

  -- The entries of /proc: a directory for each process, named by its number; what is no directory
  -- or has another name; and directories of processes that have gone since.
  pub data Listing : List DirEntry → List Shown → Type 0 where
    nothing : Listing [] []
    process :
        {es : List DirEntry} {ps : List Shown} (p : Shown)
        → IsShown p
        → Holds p
        → Listing es ps
        → Listing (record { name = decimal p.pid; is_dir = true } ∷ es) (p ∷ ps)
    file :
        {es : List DirEntry} {ps : List Shown} (name : Bytes)
        → Listing es ps
        → Listing (record { name = name; is_dir = false } ∷ es) ps
    other :
        {es : List DirEntry} {ps : List Shown} (name : Bytes)
        → atoi name ≡ none
        → Listing es ps
        → Listing (record { name = name; is_dir = true } ∷ es) ps
    gone :
        {es : List DirEntry} {ps : List Shown} (pid : ℕ)
        → pid ≤ max_int
        → file_of pid (codes "comm") ≡ none
        → Listing es ps
        → Listing (record { name = decimal pid; is_dir = true } ∷ es) ps

trim_right_byte-line :
    (c : ℕ) (s : Bytes) → contains_byte c s ≡ false → trim_right_byte c (s ++ c ∷ []) ≡ s
unfolding trim_right_byte
trim_right_byte-line c [] h = rw (==_refl c) refl
trim_right_byte-line c (x ∷ []) h = rw (trim_right_byte, ==_refl c) (ground arith)
trim_right_byte-line c (x ∷ y ∷ s) h = rw (trim_right_byte-line c (y ∷ s) (ground arith)) refl

first_argument-cmdline_text :
    (argv : List Bytes)
    → contains_byte 0 (first_or_empty argv) ≡ false
    → first_argument (cmdline_text argv) ≡ first_or_empty argv
unfolding cut
first_argument-cmdline_text [] h = refl
first_argument-cmdline_text (arg ∷ args) h =
    rw (first_argument, cut-append 0 arg (cmdline_text args) h) refl

digits-contains_byte : (s : Bytes) → IsDigits s → contains_byte b'\n' s ≡ false
digits-contains_byte [] h = refl
digits-contains_byte (x ∷ s) (d, h) = ground (arith, digits-contains_byte s h)

trim_space_tab : (s : Bytes) → trim_space (b'\t' ∷ s) ≡ trim_space s
unfolding trim_space trim_left is_space
trim_space_tab s = refl

parent_line : ℕ → Bytes
parent_line n = codes "PPid:" ++ b'\t' ∷ decimal n

ppid_line-decimal : (n : ℕ) → n ≤ max_int → ppid_line (parent_line n) ≡ some (pos n)
unfolding ppid_line parent_line cut_prefix itoa
ppid_line-decimal n h =
    ap atoi (trim_space_tab (decimal n) ∙ trim_space_digits (decimal n) (decimal-IsDigits n))
    ∙ atoi-itoa (pos n) h

ppid_line-other : (l : Bytes) → cut_prefix (codes "PPid:") l ≡ none → ppid_line l ≡ none
unfolding ppid_line
ppid_line-other l k = rw k refl

parent_line-contains_byte : (n : ℕ) → contains_byte b'\n' (parent_line n) ≡ false
unfolding parent_line
parent_line-contains_byte n = digits-contains_byte (decimal n) (decimal-IsDigits n)

first_ppid-status_text :
    (lines : List Bytes) (n : ℕ) (rest : Bytes)
    → n ≤ max_int
    → All (λ l. (contains_byte b'\n' l ≡ false) × (cut_prefix (codes "PPid:") l ≡ none)) lines
    → first_ppid (split b'\n' (status_text lines n rest)) ≡ pos n
unfolding first_ppid parent_line
first_ppid-status_text [] n rest b h =
    ap first_ppid (split-append b'\n' (parent_line n) rest (parent_line-contains_byte n))
    ∙ rw (first_ppid, ppid_line-decimal n b) refl
first_ppid-status_text (line ∷ lines) n rest b ((l, k), h) =
    rw (split-append b'\n' line (status_text lines n rest) l)
      (rw (first_ppid, ppid_line-other line k) (first_ppid-status_text lines n rest b h))

module _ (fs : ProcFs) (root : Bytes) where
  read_ppid-Holds :
      (p : Shown)
      → IsShown p
      → Holds fs root p
      → read_ppid fs (join (proc_path root (pos p.pid)) (codes "status")) ≡ pos p.ppid
  unfolding read_ppid
  read_ppid-Holds p v h =
      rw (read_ppid, h.status_file)
        (first_ppid-status_text p.status_head p.ppid p.status_rest v.ppid_fits v.head_lines)

  read_proc-Holds :
      (p : Shown) → IsShown p → Holds fs root p → read_proc fs root (pos p.pid) ≡ some (info_of p)
  unfolding read_proc
  read_proc-Holds p v h =
      rw
        (
          h.comm_file,
          h.cmdline_file,
          read_ppid-Holds p v h,
          trim_right_byte-line b'\n' p.comm v.comm_is_line,
          first_argument-cmdline_text p.argv v.no_nul,
        )
        refl

  -- The number of a directory of a process is read back.
  atoi-decimal : (n : ℕ) → n ≤ max_int → atoi (decimal n) ≡ some (pos n)
  unfolding itoa
  atoi-decimal n h = atoi-itoa (pos n) h

  read_proc_gone :
      (pid : ℕ) → file_of fs root pid (codes "comm") ≡ none → read_proc fs root (pos pid) ≡ none
  unfolding read_proc
  read_proc_gone pid h = rw h refl

  scan_entries-Listing :
      (es : List DirEntry) (ps : List Shown)
      → Listing fs root es ps
      → scan_entries fs root es ≡ map info_of ps
  unfolding scan_entries
  scan_entries-Listing _ _ nothing = refl
  scan_entries-Listing _ _ (process p v h l) =
      rw (atoi-decimal p.pid v.pid_fits, read_proc-Holds p v h, scan_entries-Listing _ _ l) refl
  scan_entries-Listing _ _ (file name l) = scan_entries-Listing _ _ l
  scan_entries-Listing _ _ (other name e l) = rw e (scan_entries-Listing _ _ l)
  scan_entries-Listing _ _ (gone pid fits e l) =
      rw (atoi-decimal pid fits, read_proc_gone pid e) (scan_entries-Listing _ _ l)

-- If /proc lists the directories of some processes, whose files have the texts of proc(5), those of
-- processes that have gone since, and any other entries, then the scan finds exactly those
-- processes, in their order, each with its number, its parent's, its name and its first argument.
pub scan_root-Listing :
    (fs : ProcFs) (root : Bytes) (es : List DirEntry) (ps : List Shown)
    → fs.read_dir root ≡ some es
    → Listing fs root es ps
    → scan_root fs root ≡ some (map info_of ps)
unfolding scan_root
scan_root-Listing fs root es ps d l = rw (scan_root, d, scan_entries-Listing fs root es ps l) refl
