-- ===== src/FarmAddresses.antt =====
-- src/farmaddress.c: the links from farms to the addresses that they use.
pub mod Links
pub mod Nodes
pub mod Release
pub mod Invariant
pub mod Deletion
pub mod DeleteAll
pub mod Actions
