-- ===== src/Cli.antt =====
-- internal/cli: the commands.
pub mod Build
pub mod DryRun
pub mod Entrypoint
pub mod Login
pub mod Main
pub mod Run
pub mod Host
pub mod Pivot
