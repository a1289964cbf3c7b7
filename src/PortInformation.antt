-- ===== src/PortInformation.antt =====
-- mstp.c, section 13.32: the Port Information state machine (PISM), one for a port in a tree.
--
-- `View` has what the machine sees and rcvInfo, `Record` the functions that note what a message
-- says, `Enter` the functions `PISM_to_X`, `Run` the conditions and the recursion. `Classify` is
-- about the answers of rcvInfo, `Rest` about the end of the recursion.
pub mod View
pub mod Record
pub mod Enter
pub mod Run
pub mod Classify
pub mod Rest
