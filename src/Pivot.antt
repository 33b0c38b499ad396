-- ===== src/Pivot.antt =====
-- internal/pivot: the mounts of the new root, the swap of the roots, and the unmounts of the old one.
pub mod Mounts
pub mod Cleanup
