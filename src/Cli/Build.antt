-- ===== src/Cli/Build.antt =====
-- internal/cli/build.go: `runBuild` as the sequence of what it does. Which steps succeed, and whether
-- the cache has an entry, are answers from outside; the image is composed by go-containerregistry.
pub mod Outputs
pub mod Compose
use xmorph.Base.{
  Bool, true, false, Option, none, some, List, [], ◌∷◌, ◌++◌, ◌&&◌, not, if◌then◌else◌,
}
use xmorph.Base.Bytes.{Bytes, codes, is_empty}
use xmorph.Base.Result.{ok, err}
use xmorph.Base.Trace.{Traced, ◌and_do◌, ◌then_do◌, attempt, give, stop}
use xmorph.Config.Types.{Config, Layer}
use xmorph.Path.{join, join_all}
use xmorph.Rootfs.Cache.{compute_cache_key}

pub data Work : Type 0 where
  clean_work_dir build_rootfs compose_image : Bytes → Work
  make_cache_dir save_cache : Bytes → Work
  write_layout write_tarball : Bytes → Work
  copy_layout : Bytes → Bytes → Work

pub data BuildFailure : Type 0 where
  copy_failed clean_failed rootfs_failed compose_failed : BuildFailure
  cache_dir_failed cache_failed layout_failed tarball_failed : BuildFailure

pub record Workshop : Type 0 where
  pub works : Work → Bool
  pub exists : Bytes → Bool
  pub sha256_hex : Bytes → Bytes

module _ (b : Workshop) where
  abbrev pub do_work : Work → BuildFailure → Traced Work BuildFailure (Unit {0})
  do_work work e = attempt work e (b.works work)

  -- Only if the path of the output is given.
  abbrev pub if_given :
      Bytes → Traced Work BuildFailure (Unit {0}) → Traced Work BuildFailure (Unit {0})
  if_given path part = if is_empty path then give tt else part

  abbrev pub cache_path : Config → Bytes
  cache_path c =
      join_all (c.cache_dir ∷ codes "builds" ∷ compute_cache_key b.sha256_hex c.layers ∷ [])

  -- `cacheHit`
  abbrev pub cache_hit : Bytes → Bool
  cache_hit path = b.exists (join path (codes "index.json"))

  unfoldable pub build_fresh : Config → Traced Work BuildFailure (Unit {0})
  build_fresh c =
      do_work (clean_work_dir c.work_dir) clean_failed
      and_do do_work (build_rootfs c.work_dir) rootfs_failed
      and_do do_work (compose_image c.work_dir) compose_failed
      and_do do_work (make_cache_dir (cache_path c)) cache_dir_failed
      and_do do_work (save_cache (cache_path c)) cache_failed
      and_do if_given c.output (do_work (write_layout c.output) layout_failed)
      and_do if_given c.rootfs_output (do_work (write_tarball c.rootfs_output) tarball_failed)

  abbrev pub is_reused : Config → Bool
  is_reused c = not c.no_cache && cache_hit (cache_path c)

  -- `runBuild`
  unfoldable pub run_build : Config → Traced Work BuildFailure (Unit {0})
  unfolding build_fresh
  run_build c =
      if is_reused c
      then if_given c.output (do_work (copy_layout (cache_path c) c.output) copy_failed)
      else build_fresh c
