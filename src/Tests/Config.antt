-- ===== src/Tests/Config.antt =====
-- Configurations and what they are parsed from.
use xmorph.Base.{
  ◌⊎◌, ℕ, Bool, true, false, Option, none, some, List, [], ◌∷◌, ◌+◌, ◌*◌, ◌^◌, ◌≤◌, ◌<◌, ◌≡◌, ◌≢◌,
  ◌↔◌, ◌||◌, ◌⊎◌, not, ltb, refl, arith, if◌then◌else◌,
}
use xmorph.Base.Bytes.{Bytes, codes}
use xmorph.Base.Bytes.Number.{max_uint64, parse_uint}
use xmorph.Base.Result.{ok, err}
use xmorph.Config.Types.{ssh_enabled, tailscale_enabled, is_some}
use xmorph.Config.ImageRef.{normalize_image_ref}
use xmorph.Config.ImageRef.Canonical.{
  IsCanonical, written, registry_of, repository_of, tag_of, normalize_image_ref-IsCanonical,
}
use xmorph.Config.Layers.{deduplicate_layers, seen_key}
use xmorph.Config.Layers.Unique.{keep_last, HasDistinctKeys, keys, deduplicate_layers_distinct}
use xmorph.Config.Size.{overflow, parse_size}
use xmorph.Config.Size.Units.{mib, ib, bytes_in, parse_size-suffix}
use xmorph.Config.Flags.{normalize}
use xmorph.Config.Flags.Normal.{normalize_idem}
use xmorph.Oci.ImageConfig.{merge_env, or_base}
use xmorph.Oci.ImageConfig.Env.{find_env, find_last_env, HasDistinctEnv, merge_env-HasDistinctEnv}
use xmorph.Sysmem.{MemInfo, recommend_rootfs_bytes, headroom_check, insufficient_ram, read_from}
use xmorph.Sysmem.Headroom.{headroom_check-recommend}
use xmorph.Sysmem.Meminfo.{Printed, text_of, read_from-printed_as}
use xmorph.Tests.Data.{percents, board, forced, layers}

normalize_image_ref_runs :
    (normalize_image_ref (codes "alpine") ≡ codes "registry-1.docker.io/library/alpine:latest")
    × (normalize_image_ref (codes "docker.io/library/alpine")
        ≡ codes "docker.io/library/alpine:latest")
    × (normalize_image_ref (codes "localhost:5000/a@sha256:0") ≡ codes "localhost:5000/a:latest")
    × (normalize_image_ref (codes "ghcr.io/user/repo:v1.0") ≡ codes "ghcr.io/user/repo:v1.0")
unfolding normalize_image_ref xmorph.Config.ImageRef.strip_digest xmorph.Config.ImageRef.split_tag
    xmorph.Config.ImageRef.split_registry xmorph.Config.ImageRef.hub_repository
    xmorph.Config.ImageRef.is_registry xmorph.Base.Bytes.cut xmorph.Base.Bytes.cut_last
    xmorph.Base.Bytes.equal
normalize_image_ref_runs = (refl, refl, refl, refl)

normalize_image_ref-IsCanonical_example :
    let ref = codes "localhost:5000/a@sha256:0" in
    (normalize_image_ref ref ≡ written (registry_of ref) (repository_of ref) (tag_of ref))
    × IsCanonical (registry_of ref) (repository_of ref) (tag_of ref)
    × (normalize_image_ref (normalize_image_ref ref) ≡ normalize_image_ref ref)
normalize_image_ref-IsCanonical_example =
    normalize_image_ref-IsCanonical (codes "localhost:5000/a@sha256:0")

deduplicate_layers_distinct_example :
    HasDistinctKeys (deduplicate_layers layers)
    × ((k : Bytes) → seen_key k (keys (deduplicate_layers layers)) ≡ seen_key k (keys layers))
    × (deduplicate_layers (deduplicate_layers layers) ≡ deduplicate_layers layers)
    × (deduplicate_layers layers ≡ keep_last layers)
deduplicate_layers_distinct_example = deduplicate_layers_distinct layers

parse_512 : parse_uint max_uint64 (codes "512") ≡ some 512
unfolding parse_uint
parse_512 = refl

parse_size-suffix_example :
    parse_size percents (codes "512mib") 0
    ≡ (if ltb max_uint64 (512 * bytes_in mib) then err overflow else ok (512 * bytes_in mib))
parse_size-suffix_example = parse_size-suffix percents (codes "512") 512 mib ib false 0 parse_512

abbrev given : Bytes → Bool
given flag = false

abbrev unset : Bytes → Option Bytes
unset name = none

normalize_idem_example :
    (normalize given [] unset (normalize given (codes "ls" ∷ []) unset forced)
      ≡ normalize given (codes "ls" ∷ []) unset forced)
    × ((normalize given (codes "ls" ∷ []) unset forced).layers ≢ [])
    × HasDistinctKeys (normalize given (codes "ls" ∷ []) unset forced).layers
    × (let n = normalize given (codes "ls" ∷ []) unset forced in
        (ssh_enabled n ≡ ssh_enabled forced)
        × (tailscale_enabled n ≡ tailscale_enabled forced)
        × ((not (ssh_enabled forced) || is_some n.ssh_port) ≡ true)
        × (n.no_init_coord ≡ (forced.systemd_mode || forced.no_init_coord))
        × (n.force ≡ (forced.systemd_mode || forced.force)))
normalize_idem_example = normalize_idem given (codes "ls" ∷ []) unset forced

abbrev base_env : List Bytes
base_env = codes "PATH=/bin" ∷ codes "TERM=linux" ∷ []

abbrev over_env : List Bytes
over_env = codes "TERM=xterm" ∷ codes "A=1" ∷ codes "A=2" ∷ []

base_env-HasDistinctEnv : HasDistinctEnv base_env
unfolding find_env xmorph.Oci.ImageConfig.env_key xmorph.Base.Bytes.equal
base_env-HasDistinctEnv = (refl, (refl, tt))

merge_env-HasDistinctEnv_example :
    HasDistinctEnv (merge_env base_env over_env)
    × ((key : Bytes)
        → find_env key (merge_env base_env over_env)
          ≡ or_base (find_last_env key over_env) (find_env key base_env))
merge_env-HasDistinctEnv_example =
    merge_env-HasDistinctEnv base_env over_env base_env-HasDistinctEnv

headroom_check-recommend_example :
    ((headroom_check board 200_000_000 ≢ err insufficient_ram)
      ↔ (200_000_000 ≤ recommend_rootfs_bytes board))
    × ((recommend_rootfs_bytes board ≡ 0)
        ⊎ (headroom_check board (recommend_rootfs_bytes board) ≡ ok true))
headroom_check-recommend_example =
    headroom_check-recommend board 200_000_000 (omega arith) (omega arith)

abbrev meminfo_text : Bytes
meminfo_text = codes "MemTotal:  1000 kB\nMemFree: 400 kB\nHugePages_Total: x\n"

abbrev meminfo_read : MemInfo
meminfo_read = record { total = 1_024_000; free = 409_600; available = 409_600 }

read_from_runs : read_from (some meminfo_text) ≡ ok meminfo_read
unfolding read_from xmorph.Sysmem.read_lines xmorph.Sysmem.read_line xmorph.Sysmem.set_field
    xmorph.Sysmem.set_key parse_uint xmorph.Base.Bytes.Lines.scan_lines
    xmorph.Base.Bytes.Lines.fields xmorph.Base.Bytes.cut xmorph.Base.Bytes.trim_space
    xmorph.Base.Bytes.equal xmorph.Base.Bytes.trim_suffix_byte
read_from_runs = refl

abbrev lines_of_kernel : List Printed
lines_of_kernel =
    record { key = codes "MemTotal"; blanks = 2; amount = 1000; has_unit = true }
    ∷ record { key = codes "MemFree"; blanks = 1; amount = 400; has_unit = true }
    ∷ record { key = codes "HugePages_Total"; blanks = 3; amount = 0; has_unit = false }
    ∷ []

-- Without an available memory the free memory stands for it.
read_from-printed_as_example : read_from (some (text_of lines_of_kernel)) ≡ ok meminfo_read
unfolding xmorph.Base.Bytes.equal
read_from-printed_as_example = read_from-printed_as lines_of_kernel (
  record { no_colon = refl; no_lf = refl; no_cr = refl; fits = omega arith },
  (
    record { no_colon = refl; no_lf = refl; no_cr = refl; fits = omega arith },
    (record { no_colon = refl; no_lf = refl; no_cr = refl; fits = omega arith }, tt),
  ),
)
