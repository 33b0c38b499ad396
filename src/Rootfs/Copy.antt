-- ===== src/Rootfs/Copy.antt =====
-- internal/rootfs/copy.go, and the walks of internal/cli/build_compose.go, which copy a layout and pack a
-- directory. A walk is the list of what filepath.WalkDir meets below its root, in its order, with the
-- path from the root; a step that fails ends it. What fails is an answer of the file system, where a
-- header that cannot be made counts as one that cannot be written.
use xmorph.Base.{ℕ, Bool, Option, none, some, List, [], ◌∷◌, ◌++◌, if◌then◌else◌, ◌||◌}
use xmorph.Base.Bytes.{Bytes, codes, has_prefix}
use xmorph.Base.Trace.{Traced, ◌and_do◌, attempt, tolerate, give, stop}
use xmorph.Path.{join, dir, clean}

-- What a path is, with its permissions; a link that cannot be read has no text.
pub data Found : Type 0 where
  directory regular : ℕ → Found
  symlink : Option Bytes → Found
  special unreadable : Found

pub data Call : Type 0 where
  make_all : Bytes → ℕ → Call
  remove_all open_source : Bytes → Call
  make_link : Bytes → Bytes → Call
  create : Bytes → ℕ → Call
  copy_into : Bytes → Bytes → Call
  write_header : Bytes → Bytes → Call
  pack_content : Bytes → Call
  compress close_archive : Call

pub data CopyError : Type 0 where
  walk_failed call_failed : CopyError

abbrev pub mode_755 : ℕ
mode_755 = 493

-- That of os.Create.
abbrev pub mode_666 : ℕ
mode_666 = 438

abbrev reversed : Bytes → Bytes → Bytes
reversed [] acc = acc
reversed (c ∷ s) acc = reversed s (c ∷ acc)

-- strings.HasSuffix
abbrev pub has_suffix : Bytes → Bytes → Bool
has_suffix p s = has_prefix (reversed p []) (reversed s [])

module _ (works : Call → Bool) where
  abbrev do_call : Call → Traced Call CopyError (Unit {0})
  do_call call = attempt call call_failed (works call)

  -- `copyRegular`, and `copyFile` with the mode that Stat gives
  unfoldable pub copy_regular : Bytes → Bytes → ℕ → Traced Call CopyError (Unit {0})
  copy_regular src dst mode =
      do_call (open_source src)
      and_do do_call (make_all (dir dst) mode_755)
      and_do tolerate (remove_all dst)
      and_do do_call (create dst mode)
      and_do do_call (copy_into dst src)

  unfoldable pub copy_found : Bytes → Bytes → Found → Traced Call CopyError (Unit {0})
  unfolding copy_regular
  copy_found src target (directory mode) = do_call (make_all target mode)
  copy_found src target (regular mode) = copy_regular src target mode
  copy_found src target (symlink none) = stop walk_failed
  copy_found src target (symlink (some link)) =
      tolerate (remove_all target) and_do do_call (make_link link target)
  copy_found src target special = give tt
  copy_found src target unreadable = stop walk_failed

  unfoldable pub copy_walk : Bytes → Bytes → List (Bytes × Found) → Traced Call CopyError (Unit {0})
  unfolding copy_found
  copy_walk src dst [] = give tt
  copy_walk src dst ((rel, found) ∷ walk) =
      copy_found (join src rel) (join dst rel) found and_do copy_walk src dst walk

  -- `copyDir`
  unfoldable pub copy_dir : Bytes → Bytes → List (Bytes × Found) → Traced Call CopyError (Unit {0})
  unfolding copy_walk
  copy_dir src dst walk =
      do_call (make_all (clean dst) mode_755) and_do copy_walk (clean src) (clean dst) walk

  -- An entry of an archive: a directory's name ends in a slash, and a link has its text.
  unfoldable pub pack_found : Bytes → Bytes → Found → Traced Call CopyError (Unit {0})
  pack_found src rel (directory mode) = do_call (write_header (rel ++ codes "/") [])
  pack_found src rel (regular mode) =
      do_call (write_header rel [])
      and_do do_call (open_source (join src rel))
      and_do do_call (pack_content (join src rel))
  pack_found src rel (symlink none) = stop walk_failed
  pack_found src rel (symlink (some link)) = do_call (write_header rel link)
  pack_found src rel special = do_call (write_header rel [])
  pack_found src rel unreadable = stop walk_failed

  unfoldable pub pack_walk : Bytes → List (Bytes × Found) → Traced Call CopyError (Unit {0})
  unfolding pack_found
  pack_walk src [] = give tt
  pack_walk src ((rel, found) ∷ walk) = pack_found src rel found and_do pack_walk src walk

  -- `tarDirectory`
  unfoldable pub tar_directory : Bytes → List (Bytes × Found) → Traced Call CopyError (Unit {0})
  unfolding pack_walk
  tar_directory src walk = pack_walk (clean src) walk and_do do_call close_archive

  -- `writeRootfsTarball`. Whether the stream is compressed goes by the name; the errors of the deferred
  -- closes are dropped.
  unfoldable pub write_rootfs_tarball :
      Bytes → Bytes → List (Bytes × Found) → Traced Call CopyError (Unit {0})
  unfolding tar_directory
  write_rootfs_tarball src dst walk =
      do_call (make_all (dir dst) mode_755)
      and_do do_call (create dst mode_666)
      and_do (if has_suffix (codes ".gz") dst || has_suffix (codes ".tgz") dst
          then tolerate compress and_do tar_directory src walk
          else tar_directory src walk)

  -- An entry of a layout that is no directory is copied as a file, with the permissions that Stat
  -- gives, through a link if it is one.
  unfoldable pub copy_layout_found :
      (Bytes → ℕ) → Bytes → Bytes → Found → Traced Call CopyError (Unit {0})
  unfolding copy_regular
  copy_layout_found perm src target (directory mode) = do_call (make_all target mode_755)
  copy_layout_found perm src target (regular mode) = copy_regular src target (perm src)
  copy_layout_found perm src target (symlink link) = copy_regular src target (perm src)
  copy_layout_found perm src target special = copy_regular src target (perm src)
  copy_layout_found perm src target unreadable = stop walk_failed

  unfoldable pub copy_layout_walk :
      (Bytes → ℕ) → Bytes → Bytes → List (Bytes × Found) → Traced Call CopyError (Unit {0})
  unfolding copy_layout_found
  copy_layout_walk perm src dst [] = give tt
  copy_layout_walk perm src dst ((rel, found) ∷ walk) =
      copy_layout_found perm (join src rel) (join dst rel) found
      and_do copy_layout_walk perm src dst walk

  -- `copyLayoutDir`
  unfoldable pub copy_layout_dir :
      (Bytes → ℕ) → Bytes → Bytes → List (Bytes × Found) → Traced Call CopyError (Unit {0})
  unfolding copy_layout_walk
  copy_layout_dir perm src dst walk =
      do_call (make_all (clean dst) mode_755)
      and_do copy_layout_walk perm (clean src) (clean dst) walk
