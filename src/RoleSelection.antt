-- ===== src/RoleSelection.antt =====
-- mstp.c, sections 13.33 and 13.26.23: the Port Role Selection machine (PRSSM), one for a tree, and
-- updtRolesTree.
--
-- `Choose` has the choice of the root port, `Roles` the rest of updtRolesTree and the machine.
-- `Best` is about the choice, `OneRoot` about the number of root ports.
pub mod Choose
pub mod Roles
pub mod Best
pub mod OneRoot
