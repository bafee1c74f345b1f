-- ===== src/Addresses.antt =====
-- src/addresses.c: the addresses that farms and policies use.
pub mod Ports
pub mod PortSearch
pub mod PortText
pub mod PortRead
pub mod PortCount
