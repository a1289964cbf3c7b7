-- ===== src/Lifecycle.antt =====
-- mstp.c: the creation of bridges and ports, their deletion, MSTP_IN_set_bridge_enable and
-- MSTP_IN_set_bridge_address.
--
-- `Bridges` has the functions on a bridge, `Ports` those on a port; `Created` is about a new bridge,
-- `Enabled` about a bridge that is enabled or gets an address.
pub mod Bridges
pub mod Ports
pub mod Created
pub mod Enabled
