-- ===== src/Objects.antt =====
-- src/objects.c: the printed form of keys and values, and the comparison of attributes.
pub mod Print
pub mod Attributes
pub mod Dispatch
pub mod Order
