-- ===== src/Tests/Process.antt =====
-- Runs of the supervisor and of the flags.
use xmorph.Base.{Bool, true, Option, none, some, List, [], ◌∷◌, ◌≡◌, refl}
use xmorph.Base.Bytes.{Bytes, codes}
use xmorph.Base.Bytes.Number.{parse_uint}
use xmorph.Base.Int.{ℤ}
use xmorph.Config.Types.{Config, image, rootfs, new}
use xmorph.Config.Binding.{Flag, image_flag, rootfs_flag, command, cmd, verbose}
use xmorph.Config.Binding.Parse.{set, set_all}
use xmorph.Postpivot.Supervise.{
  Wake, signaled, signal, child_done, start_child, notify_signals, forward, stop_signals,
  reap_orphans, pause, reboot, SuperviseOptions, exit_code, exit_status_from, supervise_loop,
  supervise,
}
use xmorph.Postpivot.Supervise.Exit.{IsLife, supervise-IsLife}

abbrev reboots : SuperviseOptions
reboots = record { reboot_on_exit = true; old_root_path = codes "/mnt/oldroot" }

abbrev life : List Wake
life = signal 15 ∷ signal 28 ∷ signal 1 ∷ child_done (some (signaled 15)) true ∷ signal 2 ∷ []

supervise-IsLife_example :
    IsLife reboots true life (supervise reboots (codes "/bin/sh" ∷ codes "-l" ∷ []) true life)
supervise-IsLife_example = supervise-IsLife reboots (codes "/bin/sh") (codes "-l" ∷ []) true life

-- A resized window, signal 28, is not forwarded, nor is what comes too late.
supervise_run : supervise reboots (codes "/bin/sh" ∷ codes "-l" ∷ []) true life ≡ (
  start_child (codes "/bin/sh") (codes "-l" ∷ [])
      ∷ notify_signals (15 ∷ 2 ∷ 1 ∷ 10 ∷ 12 ∷ [])
      ∷ forward 15
      ∷ forward 1
      ∷ stop_signals
      ∷ reap_orphans
      ∷ pause 5
      ∷ reboot (codes "/mnt/oldroot")
      ∷ [],
  exit_code 143,
)
unfolding supervise supervise_loop exit_status_from
supervise_run = refl

abbrev as_true : Bytes → Option Bool
as_true v = some true

abbrev no_duration : Bytes → Option ℤ
no_duration v = none

abbrev argv : List (Flag × Bytes)
argv =
    (image_flag, codes "alpine")
    ∷ (cmd, codes "-c")
    ∷ (rootfs_flag, codes "/a.tar")
    ∷ (verbose, codes "true")
    ∷ (command, codes "ls")
    ∷ []

abbrev parsed : Config
parsed = record new {
  layers = image (codes "alpine") ∷ rootfs (codes "/a.tar") ∷ [];
  command = codes "-c" ∷ codes "ls" ∷ [];
  verbose = true;
}

parsed_by_order : set_all as_true (parse_uint 10) no_duration argv new ≡ some parsed
unfolding set_all set
parsed_by_order = refl
