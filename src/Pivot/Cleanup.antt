-- ===== src/Pivot/Cleanup.antt =====
-- internal/pivot/cleanup.go: which mounts of the old root are unmounted, and in which order. What
-- /proc/self/mounts holds and which unmounts succeed are answers of the kernel. sort.Slice leaves the
-- order of equal lengths open; here it is that of an insertion sort.
pub mod Deepest
use xmorph.Base.{
  ℕ, Bool, true, false, Option, none, some, List, [], ◌∷◌, ◌++◌, if◌then◌else◌, ltb, length,
}
use xmorph.Base.Bytes.{Bytes, has_prefix}
use xmorph.Base.Bytes.Lines.{scan_lines, fields}

-- The flags of umount2.
pub data Flags : Type 0 where
  plain detach force : Flags

-- The second field of each line that has one.
abbrev second_field : List Bytes → List Bytes → List Bytes
second_field [] targets = targets
second_field (source ∷ []) targets = targets
second_field (source ∷ target ∷ more) targets = target ∷ targets

unfoldable pub targets_of_lines : List Bytes → List Bytes
unfolding fields
targets_of_lines [] = []
targets_of_lines (l ∷ ls) = second_field (fields l) (targets_of_lines ls)

-- `readMountTargets`, with the file's text if it can be read
unfoldable pub read_mount_targets : Option Bytes → Option (List Bytes)
unfolding targets_of_lines scan_lines
read_mount_targets none = none
read_mount_targets (some text) = some (targets_of_lines (scan_lines text))

unfoldable pub under : Bytes → List Bytes → List Bytes
under old_root [] = []
under old_root (m ∷ mounts) =
    let rest = under old_root mounts in if has_prefix old_root m then m ∷ rest else rest

-- The longest first.
unfoldable pub place_longest : Bytes → List Bytes → List Bytes
place_longest m [] = m ∷ []
place_longest m (n ∷ ns) =
    let rest = place_longest m ns in if ltb (length m) (length n) then n ∷ rest else m ∷ n ∷ ns

unfoldable pub sort_longest : List Bytes → List Bytes
unfolding place_longest
sort_longest [] = []
sort_longest (m ∷ ms) = place_longest m (sort_longest ms)

unfoldable pub failures : (Bytes → Bool) → List Bytes → List Bytes
failures unmounts [] = []
failures unmounts (m ∷ ms) =
    let rest = failures unmounts ms in if unmounts m then rest else m ∷ rest

-- `unmountUnder`: the unmounts in their order, and those that failed.
unfoldable pub unmount_under :
    Bytes → (Bytes → Bool) → Option (List Bytes) → Option (List Bytes × List Bytes)
unfolding under sort_longest failures
unmount_under old_root unmounts none = none
unmount_under old_root unmounts (some mounts) =
    let order = sort_longest (under old_root mounts) in some (order, failures unmounts order)

abbrev pub cleanup_old_root :
    Bytes → (Flags → Bytes → Bool) → Option (List Bytes) → Option (List Bytes × List Bytes)
cleanup_old_root old_root unmounts mounts = unmount_under old_root (unmounts detach) mounts

-- The forced round runs over what is still mounted, if the plain one left something.
abbrev retry_forced :
    Bytes
    → (Flags → Bytes → Bool)
    → Option (List Bytes × List Bytes)
    → Option (List Bytes)
    → Option (List Bytes × List Bytes)
retry_forced old_root unmounts none later = none
retry_forced old_root unmounts (some (order, [])) later = some (order, [])
retry_forced old_root unmounts (some (order, f ∷ fs)) later =
    unmount_under old_root (unmounts force) later

abbrev pub unmount_old_root :
    Bytes
    → (Flags → Bytes → Bool)
    → Option (List Bytes)
    → Option (List Bytes)
    → Option (List Bytes × List Bytes)
unmount_old_root old_root unmounts mounts later =
    retry_forced old_root unmounts (unmount_under old_root (unmounts plain) mounts) later
