-- ===== src/Process.antt =====
-- internal/process: which processes are spared before the pivot, and how the others are stopped.
pub mod Essential
pub mod Scanner
pub mod Terminator
