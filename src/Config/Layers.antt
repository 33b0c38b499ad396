-- ===== src/Config/Layers.antt =====
-- internal/config/normalize.go: `DeduplicateLayers`, with its set of keys as the list of the keys
-- that it has met.
use mathlib.Core.List.{reverse}
use xmorph.Base.{Bool, true, false, List, [], ◌∷◌, ◌++◌, ◌||◌, if◌then◌else◌, any, map}
use xmorph.Base.Bytes.{Bytes, codes, equal}
use xmorph.Config.Types.{Layer, image, rootfs}
use xmorph.Config.ImageRef.{normalize_image_ref}
pub mod Unique

unfoldable pub layer_key : Layer → Bytes
layer_key (image ref) = codes "image:" ++ normalize_image_ref ref
layer_key (rootfs path) = codes "rootfs:" ++ path

unfoldable pub seen_key : Bytes → List Bytes → Bool
seen_key key [] = false
seen_key key (k ∷ seen) = equal k key || seen_key key seen

-- The loop, over the layers from the last to the first; `out` as the source appends to it.
unfoldable pub collect : List Layer → List Bytes → List Layer → List Layer
collect [] seen out = out
collect (l ∷ ls) seen out =
    let skip = collect ls seen out in
    let keep = collect ls (layer_key l ∷ seen) (out ++ (l ∷ [])) in
    if seen_key (layer_key l) seen then skip else keep

unfoldable pub deduplicate_layers : List Layer → List Layer
unfolding collect
deduplicate_layers layers = reverse (collect (reverse layers) [] [])
