-- ===== src/Cli/Build/Outputs.antt =====
-- What a build that succeeds has written.
use xmorph.Base.{Bool, true, false, ◌&&◌, not, any, ◌≡◌, arith}
use xmorph.Base.Bytes.{is_empty}
use xmorph.Base.Result.{ok}
use xmorph.Config.Types.{Config}
use xmorph.Cli.Build.{
  Work, clean_work_dir, build_rootfs, compose_image, make_cache_dir, save_cache, write_layout,
  write_tarball, copy_layout, Workshop, is_reused, build_fresh, run_build,
}

abbrev pub writes_layout : Work → Bool
writes_layout (clean_work_dir p) = false
writes_layout (build_rootfs p) = false
writes_layout (compose_image p) = false
writes_layout (make_cache_dir p) = false
writes_layout (save_cache p) = false
writes_layout (write_layout p) = true
writes_layout (write_tarball p) = false
writes_layout (copy_layout p q) = true

abbrev pub writes_tarball : Work → Bool
writes_tarball (clean_work_dir p) = false
writes_tarball (build_rootfs p) = false
writes_tarball (compose_image p) = false
writes_tarball (make_cache_dir p) = false
writes_tarball (save_cache p) = false
writes_tarball (write_layout p) = false
writes_tarball (write_tarball p) = true
writes_tarball (copy_layout p q) = false

abbrev pub saves_cache : Work → Bool
saves_cache (clean_work_dir p) = false
saves_cache (build_rootfs p) = false
saves_cache (compose_image p) = false
saves_cache (make_cache_dir p) = false
saves_cache (save_cache p) = true
saves_cache (write_layout p) = false
saves_cache (write_tarball p) = false
saves_cache (copy_layout p q) = false

-- If a build succeeds, it has written a layout exactly if an output is asked for, it has saved its
-- result in the cache exactly if it did not reuse an entry, and it has written a tarball of the root
-- file system exactly if one is asked for and no entry was reused. So a build that reuses an entry
-- succeeds without the tarball.
pub run_build-outputs :
    (b : Workshop) (c : Config)
    → (run_build b c).1 ≡ ok tt
    → (any writes_layout (run_build b c).0 ≡ not (is_empty c.output))
      × (any saves_cache (run_build b c).0 ≡ not (is_reused b c))
      × (any writes_tarball (run_build b c).0
          ≡ (not (is_empty c.rootfs_output) && not (is_reused b c)))
unfolding run_build build_fresh
run_build-outputs b c e = ground arith
