-- ===== src/Rootfs.antt =====
-- internal/rootfs: the layers of a configuration, extracted over each other.
pub mod Builder
pub mod Cache
pub mod Copy
