-- ===== src/Backends.antt =====
-- src/backends.c: the backends of a farm.
pub mod Predicates
pub mod Marks
pub mod Priority
pub mod Counters
pub mod Setters
pub mod Flags
pub mod Transition
pub mod Lookup
pub mod Create
