-- ===== src/Pivot/Mounts/Visible.antt =====
-- What is mounted beneath the new root after `Prepare` and `PivotRoot`: a bind of the root onto
-- itself hides all that was mounted there before, so the order of the calls matters.
use xmorph.Base.{Bool, List, [], ◌∷◌, ◌++◌, ◌&&◌, if◌then◌else◌, arith, ◌≡◌, refl}
use xmorph.Base.Bytes.{Bytes, codes, equal}
use xmorph.Base.Result.{ok, err, err≢ok}
use xmorph.Base.Trace.{Traced, ◌and_do◌}
use xmorph.Pivot.Mounts.{
  Call, unshare_mounts, make_private, bind_self, make_dir, bind_recursive, mount_fresh,
  mount_tmpfs_call, unmount_detach, pivot_root_call, chdir, run_contained, MountError, Kernel,
  join_path, create_mount_namespace, mount_essential, setup_all, setup_essentials, is_mount_point,
  verify_root, make_ready, prepare,
}

-- The mounts beneath the root that can be seen after the calls, the last one first.
unfoldable pub visible : Kernel → Bytes → List Call → List Bytes → List Bytes
visible k root [] seen = seen
visible k root (bind_self p ∷ calls) seen =
    visible k root calls (if k.works (bind_self p) && equal p root then [] else seen)
visible k root (bind_recursive s t ∷ calls) seen =
    visible k root calls (if k.works (bind_recursive s t) then t ∷ seen else seen)
visible k root (mount_fresh s f t ∷ calls) seen =
    visible k root calls (if k.works (mount_fresh s f t) then t ∷ seen else seen)
visible k root (call ∷ calls) seen = visible k root calls seen

visible-append :
    (k : Kernel) (root : Bytes) (calls more : List Call) (seen : List Bytes)
    → visible k root (calls ++ more) seen ≡ visible k root more (visible k root calls seen)
unfolding visible
visible-append k root [] more seen = refl
visible-append k root (bind_self p ∷ calls) more seen = visible-append k root calls more _
visible-append k root (bind_recursive s t ∷ calls) more seen = visible-append k root calls more _
visible-append k root (mount_fresh s f t ∷ calls) more seen = visible-append k root calls more _
visible-append k root (unshare_mounts ∷ calls) more seen = visible-append k root calls more _
visible-append k root (make_private p ∷ calls) more seen = visible-append k root calls more _
visible-append k root (make_dir p ∷ calls) more seen = visible-append k root calls more _
visible-append k root (mount_tmpfs_call p n ∷ calls) more seen = visible-append k root calls more _
visible-append k root (unmount_detach p ∷ calls) more seen = visible-append k root calls more _
visible-append k root (pivot_root_call p q ∷ calls) more seen = visible-append k root calls more _
visible-append k root (chdir p ∷ calls) more seen = visible-append k root calls more _
visible-append k root (run_contained a p ∷ calls) more seen = visible-append k root calls more _

module _ (k : Kernel) (root : Bytes) where
  -- All four essential mounts, without /run where that cannot be bound.
  abbrev pub essentials_seen : List Bytes
  essentials_seen =
      let rest =
        join_path root (codes "sys")
        ∷ join_path root (codes "proc")
        ∷ join_path root (codes "dev")
        ∷ [] in
      if k.works (bind_recursive (codes "/run") (join_path root (codes "run")))
      then join_path root (codes "run") ∷ rest
      else rest

  visible-setup_essentials :
      (setup_essentials k root).1 ≡ ok tt
      → visible k root (setup_essentials k root).0 [] ≡ essentials_seen
  unfolding setup_essentials setup_all mount_essential visible equal
  visible-setup_essentials e = ground arith

  visible-make_ready :
      (skip create : Bool) → visible k root (make_ready k root skip create).0 [] ≡ []
  unfolding make_ready verify_root create_mount_namespace visible is_mount_point
  visible-make_ready skip create = ground arith

  -- A part after which nothing is seen changes nothing for what comes next.
  quiet_then :
      (quiet next : Traced Call MountError (Unit {0})) (seen : List Bytes)
      → visible k root quiet.0 [] ≡ []
      → (next.1 ≡ ok tt → visible k root next.0 [] ≡ seen)
      → (quiet and_do next).1 ≡ ok tt
      → visible k root (quiet and_do next).0 [] ≡ seen
  quiet_then (calls, ok u) next seen q h e = rw (visible-append k root calls next.0 [], q) (h e)
  quiet_then (calls, err f) next seen q h e = absurd (err≢ok e)

  -- If Prepare succeeds, then /dev, /proc and /sys are mounted beneath the new root and nothing
  -- hides them, and so is /run exactly if it could be bound, whichever of the options are set and
  -- whether or not the new root was a mount point before.
  pub prepare-visible :
      (skip_verify create_namespace : Bool)
      → (prepare k root skip_verify create_namespace).1 ≡ ok tt
      → visible k root (prepare k root skip_verify create_namespace).0 [] ≡ essentials_seen
  unfolding prepare
  prepare-visible skip create =
      quiet_then (make_ready k root skip create) (setup_essentials k root) essentials_seen
        (visible-make_ready skip create) visible-setup_essentials
