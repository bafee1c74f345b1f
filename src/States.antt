-- ===== src/States.antt =====
-- The operations that call one another where the state of a backend or of a farm changes:
-- backend_set_state and backend_s_gen_priority of src/backends.c, and farm_set_action of src/farms.c.
pub mod Focus
pub mod NetInfo
pub mod Calls
pub mod Alive
pub mod Course
pub mod Depth
pub mod Settles
pub mod Alike
pub mod Around
pub mod Ends
pub mod Total
pub mod Pending
pub mod Failover
pub mod Turn
pub mod Entry
pub mod AnyState
pub mod Underway
pub mod Loops
pub mod Links
pub mod LinksAround
pub mod LinksKept
