-- ===== src/Oci.antt =====
-- internal/oci: image configurations, and the extraction of layers.
pub mod ImageConfig
pub mod Layout
pub mod Source
pub mod SecureJoin
pub mod Disk
pub mod Extract
