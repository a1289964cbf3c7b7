-- ===== src/Transmit.antt =====
-- mstp.c, section 13.31: the Port Transmit state machine (PTSM), one for a port.
--
-- `Message` has the BPDUs, `Run` the states and the recursion; `Flags` is about the flag octets,
-- `Limit` about the hold count, `Silent` about ports that must not send.
pub mod Message
pub mod Run
pub mod Flags
pub mod Limit
pub mod Silent
