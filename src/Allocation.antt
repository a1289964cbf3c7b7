-- ===== src/Allocation.antt =====
-- mstp.c: the allocation of VIDs to FIDs and of FIDs to MSTIs, the MSTIs of a bridge, and the MST
-- configuration identifier that stands for them.
--
-- `Tables` has the state and the functions on the tables, `Trees` the creation and deletion of MSTIs.
-- `Fresh` is about the configuration digest, `Ordered` about the lists of trees, `Valid` about the
-- invariant, `Complete` makes the calls at the end, and `Orderly` is about the bridge after them.
pub mod Tables
pub mod Trees
pub mod Fresh
pub mod Name
pub mod Ordered
pub mod Valid
pub mod Kept
pub mod Listing
pub mod Complete
pub mod Orderly
