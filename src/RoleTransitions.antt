-- ===== src/RoleTransitions.antt =====
-- mstp.c, section 13.34: the Port Role Transitions state machine (PRTSM) of one port in one tree.
--
-- `PRTSM_runr` and the functions `PRTSM_to_X` call one another until no condition is met. Each
-- branch `if(dry_run) return true; PRTSM_to_X(ptp); return false;` of `PRTSM_runr` is here a rule, a
-- guard with the state X that it leads to; `Rules` lists the rules of each state in the order of
-- the code, `Enter` has the functions `PRTSM_to_X` without their last call, and `Run` has the
-- recursion. The static variables of `PRTSM_runr` are the record `Delays`.
pub mod View
pub mod Enter
pub mod Rules
pub mod Run
pub mod Measure
pub mod Settle
pub mod Families
pub mod Rest
pub mod Livelock
pub mod Guarantees
