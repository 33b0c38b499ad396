-- ===== src/Sysmem/Headroom.antt =====
-- The recommended size and the headroom check agree.
use xmorph.Base.{ℕ, true, ◌≤◌, ◌<◌, ◌≡◌, ◌≢◌, ◌↔◌, ◌⊎◌, arith}
use xmorph.Base.Result.{ok, err}
use xmorph.Sysmem.{MemInfo, recommend_rootfs_bytes, headroom_check, insufficient_ram}

recommend-IsLargest :
    (m : MemInfo) (size : ℕ)
    → 10 ≤ m.total
    → 0 < size
    → (headroom_check m size ≢ err insufficient_ram) ↔ (size ≤ recommend_rootfs_bytes m)
unfolding headroom_check recommend_rootfs_bytes
recommend-IsLargest m size h k = ground arith

recommend_warns :
    (m : MemInfo)
    → 10 ≤ m.total
    → (recommend_rootfs_bytes m ≡ 0) ⊎ (headroom_check m (recommend_rootfs_bytes m) ≡ ok true)
unfolding headroom_check recommend_rootfs_bytes
recommend_warns m h = ground arith

-- On a machine with at least 10 bytes of memory, so that a tenth of it is not 0: the check accepts a
-- size of at least one byte exactly if the size is at most the recommended
-- one, so the recommendation is the largest size that passes; with a recommendation of 0 none does.
-- The recommended size, unless it is 0, passes with the warning.
pub headroom_check-recommend :
    (m : MemInfo) (size : ℕ)
    → 10 ≤ m.total
    → 0 < size
    → ((headroom_check m size ≢ err insufficient_ram) ↔ (size ≤ recommend_rootfs_bytes m))
      × ((recommend_rootfs_bytes m ≡ 0) ⊎ (headroom_check m (recommend_rootfs_bytes m) ≡ ok true))
headroom_check-recommend m size h k = (recommend-IsLargest m size h k, recommend_warns m h)
