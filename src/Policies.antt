-- ===== src/Policies.antt =====
-- src/policies.c, src/farmpolicy.c and src/addresspolicy.c: the policies, and the links to them from
-- the farms and the addresses.
pub mod Store
pub mod Links
pub mod Sums
pub mod Counts
pub mod FarmLinks
pub mod AddressLinks
pub mod Steps
pub mod Actions
pub mod Attributes
pub mod Naming
pub mod Named
pub mod Told
