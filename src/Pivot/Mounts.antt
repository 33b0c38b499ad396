-- ===== src/Pivot/Mounts.antt =====
-- internal/pivot: pivot.go, prepare.go, tmpfs.go, contain.go and util.go, as the sequences of the
-- calls that they make. Which calls succeed, and what stat and statfs say, are answers of the kernel.
pub mod Visible
use xmorph.Base.{
  ℕ, Bool, true, false, Option, none, some, List, [], ◌∷◌, ◌++◌, ◌&&◌, ◌||◌, not, if◌then◌else◌,
  ◌+◌, ◌*◌, ◌%◌, ◌^◌, ◌==◌,
}
use xmorph.Base.Bytes.{Bytes, codes, equal, is_empty, trim_prefix}
use xmorph.Base.Result.{Result, ok, err}
use xmorph.Base.Trace.{Traced, ◌then_do◌, ◌and_do◌, give, stop, attempt, tolerate}
use xmorph.Path.{join, dir}

-- `MS_NOSUID|MS_NODEV` and more are said by the constructor.
pub data Call : Type 0 where
  unshare_mounts : Call
  make_private : Bytes → Call
  bind_self : Bytes → Call
  make_dir : Bytes → Call
  bind_recursive : Bytes → Bytes → Call
  mount_fresh : Bytes → Bytes → Bytes → Call
  mount_tmpfs_call : Bytes → ℕ → Call
  unmount_detach : Bytes → Call
  pivot_root_call : Bytes → Bytes → Call
  chdir : Bytes → Call
  run_contained : List Bytes → Bytes → Call

pub data MountError : Type 0 where
  unshare_failed private_failed target_failed bind_failed mount_failed : MountError
  missing_dir no_shell stat_failed self_bind_failed pivot_failed chdir_failed : MountError
  empty_entrypoint child_failed statfs_failed : MountError

-- Whether a call succeeds, whether a path exists, and the device that a path is on.
pub record Kernel : Type 0 where
  pub works : Call → Bool
  pub exists : Bytes → Bool
  pub device : Bytes → Option ℕ

pub record EssentialMount : Type 0 where
  pub source : Bytes
  pub target : Bytes
  pub fstype : Bytes
  pub bind : Bool

abbrev pub essential_mounts : List EssentialMount
essential_mounts =
    record { source = codes "/dev"; target = codes "dev"; fstype = []; bind = true }
    ∷ record { source = codes "proc"; target = codes "proc"; fstype = codes "proc"; bind = false }
    ∷ record { source = codes "sysfs"; target = codes "sys"; fstype = codes "sysfs"; bind = false }
    ∷ record { source = codes "/run"; target = codes "run"; fstype = []; bind = true }
    ∷ []

-- `joinPath`
unfoldable pub join_path : Bytes → Bytes → Bytes
unfolding join trim_prefix
join_path root rel = join root (trim_prefix (codes "/") rel)

module _ (k : Kernel) where
  abbrev pub perform : Call → MountError → Traced Call MountError (Unit {0})
  perform call e = attempt call e (k.works call)

  unfoldable pub create_mount_namespace : Traced Call MountError (Unit {0})
  create_mount_namespace =
      perform unshare_mounts unshare_failed and_do perform (make_private (codes "/")) private_failed

  -- /run may be missing.
  unfoldable pub mount_essential : EssentialMount → Bytes → Traced Call MountError (Unit {0})
  mount_essential m at =
      if m.bind
      then (if equal m.source (codes "/run")
          then tolerate (bind_recursive m.source at)
          else perform (bind_recursive m.source at) bind_failed)
      else perform (mount_fresh m.source m.fstype at) mount_failed

  unfoldable pub setup_all : List EssentialMount → Bytes → Traced Call MountError (Unit {0})
  unfolding mount_essential join_path
  setup_all [] new_root = give tt
  setup_all (m ∷ ms) new_root =
      perform (make_dir (join_path new_root m.target)) target_failed
      and_do mount_essential m (join_path new_root m.target)
      and_do setup_all ms new_root

  unfoldable pub setup_essentials : Bytes → Traced Call MountError (Unit {0})
  unfolding setup_all
  setup_essentials new_root = setup_all essential_mounts new_root

  -- `PivotRoot`
  unfoldable pub pivot_root : Bytes → Bytes → Traced Call MountError (Unit {0})
  unfolding join_path
  pivot_root new_root old_root =
      perform (make_private (codes "/")) private_failed
      and_do perform (pivot_root_call new_root (join_path new_root old_root)) pivot_failed
      and_do perform (chdir (codes "/")) chdir_failed

  -- A mount point is on another device than its parent.
  unfoldable pub is_mount_point : Bytes → Option Bool
  is_mount_point path = elim (k.device path) [
    | none ↦ none
    | some here ↦ elim (k.device (dir path)) [
      | none ↦ none
      | some above ↦ some (not (here == above))
    ]
  ]

  unfoldable pub verify_root : Bytes → Traced Call MountError (Unit {0})
  verify_root new_root =
      if not (k.exists (join new_root (codes "bin")))
        || not (k.exists (join new_root (codes "lib")))
      then stop missing_dir
      else if k.exists (join new_root (codes "sbin/init"))
          || (k.exists (join new_root (codes "bin/sh"))
              || k.exists (join new_root (codes "bin/bash")))
      then give tt
      else stop no_shell

  -- The new root is bound onto itself if it is no mount of its own.
  abbrev pub self_bind : Bytes → Option Bool → Traced Call MountError (Unit {0})
  self_bind new_root none = stop stat_failed
  self_bind new_root (some true) = give tt
  self_bind new_root (some false) = perform (bind_self new_root) self_bind_failed

  -- The steps of `Prepare` before the essential mounts.
  unfoldable pub make_ready : Bytes → Bool → Bool → Traced Call MountError (Unit {0})
  unfolding verify_root create_mount_namespace is_mount_point
  make_ready new_root skip_verify create_namespace =
      (if skip_verify then give tt else verify_root new_root)
      and_do (if create_namespace then create_mount_namespace else give tt)
      and_do self_bind new_root (is_mount_point new_root)
      and_do perform (make_private new_root) private_failed

  unfoldable pub prepare : Bytes → Bool → Bool → Traced Call MountError (Unit {0})
  unfolding make_ready setup_essentials
  prepare new_root skip_verify create_namespace =
      make_ready new_root skip_verify create_namespace and_do setup_essentials new_root

  -- `Contain`: the child is run chrooted in new namespaces.
  unfoldable pub contain : Bytes → Bytes → List Bytes → Traced Call MountError (Unit {0})
  unfolding setup_essentials
  contain new_root entrypoint args =
      if is_empty entrypoint
      then stop empty_entrypoint
      else setup_essentials new_root
        and_do perform (run_contained (entrypoint ∷ args) new_root) child_failed

  unfoldable pub mount_tmpfs : Bytes → ℕ → Traced Call MountError (Unit {0})
  mount_tmpfs path size =
      perform (make_dir path) target_failed and_do perform (mount_tmpfs_call path size) mount_failed

  unfoldable pub unmount_tmpfs : Bytes → Traced Call MountError (Unit {0})
  unmount_tmpfs path = perform (unmount_detach path) mount_failed

-- `FreeBytes`, from the blocks that are free and their size.
abbrev pub free_bytes : ℕ → ℕ → ℕ
free_bytes bavail bsize = bavail * bsize % 2 ^ 64

-- `UsageBytes`, from the blocks of each file of the walk.
abbrev pub usage_bytes : List ℕ → ℕ → ℕ
usage_bytes [] total = total
usage_bytes (blocks ∷ files) total = usage_bytes files ((total + blocks * 512 % 2 ^ 64) % 2 ^ 64)
