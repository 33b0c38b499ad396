-- ===== src/Tests.antt =====
-- Tests of the definitions at inputs of the repository's own tests, and the theorems at inputs
-- that meet their hypotheses.
mod Accept
mod Compose
mod Addresses
mod Config
mod Pivot
mod Oci
mod Process
mod Postpivot
mod Remote
mod Ssh
mod Data
mod Scan
mod Start
mod Layout
mod Machine
