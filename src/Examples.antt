-- ===== src/Examples.antt =====
-- The theorems at concrete farms, addresses, sessions, documents and texts.
mod Fixtures
mod Backends
mod Farms
pub mod Links
mod Sessions
mod Config
mod Objects
mod Checksum
pub mod States
mod Policies
