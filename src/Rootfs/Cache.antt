-- ===== src/Rootfs/Cache.antt =====
-- internal/rootfs/cache.go and clean.go: the key of a build in the cache, and the work directory that
-- is emptied. crypto/sha256 with encoding/hex, and what the file system answers, are parameters.
use xmorph.Base.{Bool, List, [], ◌∷◌, ◌++◌}
use xmorph.Base.Bytes.{Bytes, codes}
use xmorph.Base.Trace.{Traced, ◌and_do◌, attempt, give, stop}
use xmorph.Config.Types.{Layer, image, rootfs}
use xmorph.Config.ImageRef.{normalize_image_ref}
use xmorph.Path.{join}

abbrev pub layer_line : Layer → Bytes
layer_line (image ref) = codes "image:" ++ normalize_image_ref ref ++ codes "\n"
layer_line (rootfs path) = codes "rootfs:" ++ path ++ codes "\n"

-- What is hashed.
unfoldable pub preimage : List Layer → Bytes
preimage [] = []
preimage (l ∷ ls) = layer_line l ++ preimage ls

unfoldable pub compute_cache_key : (Bytes → Bytes) → List Layer → Bytes
compute_cache_key sha256_hex layers = sha256_hex (preimage layers)

-- What os.ReadDir says.
pub data Listing : Type 0 where
  listed : List Bytes → Listing
  not_there unreadable : Listing

pub data Call : Type 0 where
  make_target remove_all : Bytes → Call

pub data CleanError : Type 0 where
  mkdir_failed read_failed remove_failed : CleanError

module _ (works : Call → Bool) where
  unfoldable pub remove_entries : Bytes → List Bytes → Traced Call CleanError (Unit {0})
  remove_entries dir [] = give tt
  remove_entries dir (e ∷ es) =
      let p = join dir e in
      attempt (remove_all p) remove_failed (works (remove_all p)) and_do remove_entries dir es

  -- `CleanTarget`
  unfoldable pub clean_target : Bytes → Listing → Traced Call CleanError (Unit {0})
  unfolding remove_entries
  clean_target dir not_there = attempt (make_target dir) mkdir_failed (works (make_target dir))
  clean_target dir unreadable = stop read_failed
  clean_target dir (listed entries) = remove_entries dir entries
