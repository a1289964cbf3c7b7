-- ===== src/Config.antt =====
-- mstp.c: the functions by which the protocol's parameters are set (12.8.1.3, 12.8.1.4, 12.8.2.3,
-- 12.8.2.4 and 12.8.2.5), and MSTP_IN_set_port_enable.
--
-- A function returns whether it accepted the parameters, the state, and the call of the state
-- machines that it ends with. A member `set_x` of a configuration with the value `x` is an Option.
-- `Bridge` and `Port` have the functions; `Allowed`, `Ranges` and `Reselect` are about them.
pub mod Bridge
pub mod Port
pub mod Allowed
pub mod Ranges
pub mod Reselect
