-- ===== src/Config.antt =====
-- internal/config: the configuration record, its flags, and the values that it parses.
pub mod Types
pub mod ImageRef
pub mod Layers
pub mod Size
pub mod Validate
pub mod Binding
pub mod Flags
