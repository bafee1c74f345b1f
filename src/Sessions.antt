-- ===== src/Sessions.antt =====
-- src/sessions.c: the sessions of a farm, pinned by its configuration or read from the kernel.
pub mod Lists
pub mod Operations
pub mod Pointwise
pub mod WellFormed
pub mod Creation
pub mod Timed
pub mod Kept
pub mod Elements
