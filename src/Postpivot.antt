-- ===== src/Postpivot.antt =====
-- internal/postpivot: what runs after the pivot, and the file that it is configured by.
pub mod Devices
pub mod InitConfig
pub mod Supervise
pub mod ResolvConf
pub mod Run
pub mod Sshd
pub mod Watchdog
