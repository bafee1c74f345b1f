-- ===== src/Elements.antt =====
-- src/elements.c: the elements of the set of a policy.
pub mod Items
pub mod Actions
pub mod Fuel
