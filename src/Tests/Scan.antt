-- ===== src/Tests/Scan.antt =====
-- Runs of the scan of /proc and of the termination of processes.
use xmorph.Base.{
  ℕ, Bool, true, false, Option, none, some, List, [], ◌∷◌, ◌++◌, ◌||◌, not, if◌then◌else◌, ◌≡◌,
  refl, All, any, map, arith, ltb, ◌≤◌, ◌/◌, ◌+◌,
}
use xmorph.Base.Bytes.{Bytes, codes, equal, has_prefix, cut_prefix}
use xmorph.Base.Bytes.Decimal.{atoi, itoa, decimal, put_digits}
use xmorph.Base.Bytes.Number.{parse_uint, scan_digits}
use xmorph.Base.Int.{ℤ, pos, eq_int}
use xmorph.Path.{join}
use xmorph.Process.Essential.{Info, is_essential, is_essential_name, is_kernel_thread}
use xmorph.Process.Scanner.{DirEntry, ProcFs, scan_root, scan}
use xmorph.Process.Scanner.Readback.{
  Shown, IsShown, Holds, Listing, nothing, process, file, other, gone, info_of, status_text,
  cmdline_text, scan_root-Listing,
}
use xmorph.Process.Terminator.{
  TerminateOptions, Machine, with_defaults, targets_of, terminate, excluded,
}
use xmorph.Process.Terminator.Accounts.{terminated_as, terminate-Accounts}
use xmorph.Process.Terminator.Grace.{
  graceful_polling, enough, time, none_last, grace_period, graceful_polling_ends,
}
use xmorph.Process.Terminator.Signals.{MaySignal, terminate-MaySignal}
use xmorph.Process.Terminator.Spared.{Allowed}

abbrev process_of : ℕ → Bytes → Bytes → Info
process_of id comm cmdline = record { pid = pos id; ppid = pos 1; comm = comm; cmdline = cmdline }

abbrev processes : List Info
processes =
    process_of 1 (codes "systemd") (codes "/sbin/init")
    ∷ process_of 2 (codes "kthreadd") []
    ∷ process_of 40 (codes "nginx") (codes "nginx: master")
    ∷ process_of 41 (codes "postgres") (codes "/usr/bin/postgres")
    ∷ process_of 50 (codes "xmorph") (codes "xmorph")
    ∷ []

-- nginx needs to be killed, and postgres outlives even that.
abbrev box : Machine
box = record {
  self = pos 50;
  parent = pos 49;
  survives_term = λ pid. true;
  survives_kill = λ pid. eq_int pid (pos 41);
}

abbrev options : TerminateOptions
options = record {
  graceful_timeout = pos 0;
  kill_timeout = pos 0;
  skip_essential = true;
  exclude_pids = [];
}

box_targets : targets_of box (with_defaults options) processes ≡ pos 40 ∷ pos 41 ∷ []
unfolding targets_of with_defaults excluded is_essential is_essential_name is_kernel_thread equal
    has_prefix cut_prefix
box_targets = refl

terminate-Accounts_example :
    let opts = with_defaults options in
    let (actions, result, failed) = terminated_as box opts (targets_of box opts processes) in
    terminate box options (some processes) ≡ (actions, some result, failed)
terminate-Accounts_example = terminate-Accounts box options processes

abbrev nginx : Shown
nginx = record {
  pid = 40;
  ppid = 1;
  comm = codes "nginx";
  argv = codes "/usr/sbin/nginx" ∷ codes "-g" ∷ [];
  status_head = codes "Name:" ∷ codes "Pid:" ∷ [];
  status_rest = codes "Uid:";
}

abbrev text_at : Bytes → Bytes → Bytes → Option Bytes → Option Bytes
text_at path p text rest = if equal path p then some text else rest

abbrev proc_entries : List DirEntry
proc_entries =
    record { name = codes "meminfo"; is_dir = false }
    ∷ record { name = codes "sys"; is_dir = true }
    ∷ record { name = decimal 39; is_dir = true }
    ∷ record { name = decimal 40; is_dir = true }
    ∷ []

-- /proc with one process, one that has gone, a file and a directory that is no process.
abbrev proc : ProcFs
proc = record {
  read_file = λ path. text_at path (codes "/proc/40/comm") (codes "nginx" ++ 10 ∷ []) (
      text_at path (codes "/proc/40/cmdline") (cmdline_text nginx.argv) (
        text_at path (codes "/proc/40/status") (status_text nginx.status_head 1 nginx.status_rest)
          none));
  exists = λ path. false;
  read_dir = λ path. some proc_entries;
}

nginx-IsShown : IsShown nginx
unfolding cut_prefix
nginx-IsShown = record {
  pid_fits = omega arith;
  ppid_fits = omega arith;
  comm_is_line = refl;
  no_nul = refl;
  head_lines = ((refl, refl), ((refl, refl), tt));
}

proc-Holds : Holds proc (codes "/proc") nginx
unfolding itoa decimal put_digits join equal
proc-Holds = record { comm_file = refl; cmdline_file = refl; status_file = refl }

proc-Listing : Listing proc (codes "/proc") proc_entries (nginx ∷ [])
unfolding itoa decimal put_digits join equal atoi parse_uint scan_digits
proc-Listing = file (codes "meminfo") (
    other (codes "sys") refl
      (gone 39 (omega arith) refl (process nginx nginx-IsShown proc-Holds nothing)))

scan_root-Listing_example : scan_root proc (codes "/proc") ≡ some (map info_of (nginx ∷ []))
scan_root-Listing_example =
    scan_root-Listing proc (codes "/proc") proc_entries (nginx ∷ []) refl proc-Listing

terminate-MaySignal_example :
    All (Allowed (MaySignal box (with_defaults options) proc)) (terminate box options (scan proc)).0
terminate-MaySignal_example = terminate-MaySignal box options proc

-- nginx outlives three polls.
abbrev third_poll : ℕ → ℤ → Bool
third_poll i pid = ltb i 3

abbrev five_seconds : ℕ
five_seconds = 5_000_000_000

graceful_polling_ends_example :
    (n : ℕ) × (graceful_polling five_seconds
        (λ i. 0)
        third_poll
        (pos 40 ∷ [])
        (enough five_seconds (λ i. 0) third_poll (pos 40 ∷ []))
        0
        0
      ≡ some n)
    × ((not (ltb (time five_seconds (λ i. 0) third_poll (pos 40 ∷ []) n) five_seconds)
          || not (any (third_poll n) (pos 40 ∷ [])))
        ≡ true)
    × (none_last five_seconds (λ i. 0) third_poll (pos 40 ∷ []) n 0 ≡ true)
    × (n ≤ five_seconds / grace_period + 1)
graceful_polling_ends_example = graceful_polling_ends five_seconds (λ i. 0) third_poll (pos 40 ∷ [])
