-- ===== src/Farms.antt =====
-- src/farms.c: the farms, each a virtual service with its backends, addresses, sessions and policies.
pub mod Create
pub mod Setters
pub mod Changed
pub mod Settled
pub mod Helpers
