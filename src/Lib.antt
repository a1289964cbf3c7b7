-- ===== src/Lib.antt =====
-- mstpd: a daemon that runs the Multiple Spanning Tree Protocol (IEEE 802.1Q) for Linux bridges.
--
-- mstp.c holds the protocol: a set of state machines that share the state of mstp.h, a bridge with
-- its ports and trees, and for every port in every tree a `per_tree_port_t`. Each machine is a
-- function X_run(.., dry_run). The actual run looks for the first condition that holds, enters the
-- state that it leads to, and calls itself; the dry run says whether some condition holds.
-- br_state_machines_run goes round the machines until no dry run reports a change. A machine that
-- does not come to rest, or whose dry run is wrong, would hang the daemon: so the results ask of
-- each machine first whether it ends at rest, and then what holds there.
--
-- The files:
--   Prelude, Rule          names, Boolean tests, and the choice of the first rule that holds.
--   Vector, Vector/Order   port_priority_vector_t, times_t, and betterorsamePriority (mstp.c).
--   Enums, Types           the enumerations and structures of mstp.h.
--   RoleTransitions        PRTSM (13.34): PRTSM_to_X is `to_x`, PRTSM_runr is `run` and `dry_run`.
--   StateTransition        PSTSM (13.35), MSTP_OUT_set_state (bridge_track.c) and the hook of
--                          driver_deps.c.
--   Receive                PRSM (13.28), setRcvdMsgs, fromSameRegion.
--   Migration              PPMSM (13.29).
--   EdgeDetection          BDSM (13.30).
--   Transmit               PTSM (13.31), txConfig, txMstp, txTcn, and MSTP_OUT_tx_bpdu
--                          (bridge_track.c) up to the octets.
--   PortInformation        PISM (13.32), rcvInfo and the functions record..., setTcFlags.
--   TopologyChange         TCSM (13.36), set_TopologyChange, newTcWhile, set_fdbFlush.
--   RoleSelection          PRSSM (13.33) and updtRolesTree (13.26.23).
--   Timers                 PTSM_tick (13.27).
--   BpduReceipt            MSTP_IN_rx_bpdu and the validation of a BPDU.
--   Station                a bridge with its ports and trees, the round and the loop of
--                          br_state_machines_run, the start of the machines
--                          (X_state_machines_begin), and MSTP_IN_one_second.
--   Config                 compute_pcost, MSTP_IN_set_port_enable, MSTP_IN_port_mcheck, and the
--                          configuration of bridges, ports and MSTIs (MSTP_IN_set_...).
--   Allocation             the tables of VIDs and FIDs, the configuration digest and identifier, and
--                          the MSTIs (MSTP_IN_set_vid2fid, .._fid2mstid, MSTP_IN_create_msti, ..).
--   Lifecycle              MSTP_IN_bridge_create, MSTP_IN_port_create_and_add_tail, MSTP_IN_delete_..,
--                          MSTP_IN_set_bridge_enable and MSTP_IN_set_bridge_address.
--   Examples               values at which the theorems apply.
--
-- How the code corresponds. A machine reads its port through pointers to the port, the tree, the
-- other ports of the tree or the other trees of the port; its model has a record, the view, with
-- just these as values, `me` being `ptp`. A function that changes the state maps a view to a view.
-- The conditions of a state are a list of rules in the order of the code, and the calls of the
-- driver are appended to a list of outputs. Identifiers, which the code compares as big-endian
-- octets, are the numbers that the octets stand for; unsigned counters wrap where they are counted
-- up. The pointer rcvdMstiConfig is the message that it points at, so a BPDU that overwrites
-- rcvdBpduData before a tree has read its message is not seen by the model.
--
-- The recursion of a machine is recursion on fuel, and `none` says that the fuel ran out. A work
-- function bounds the states that are still entered, so the theorems on ends give a number of calls
-- that is enough; for PRTSM it is 65, for PISM 13, for TCSM 17, for PSTSM and PPMSM 3, and for
-- PTSM it depends on the hold count. PRSM, BDSM and PRSSM do not call themselves.
--
-- A bridge is a `Station`: the fields of bridge_t, the trees, and a list of lines, one for each
-- port, which hold the port, its entry in the CIST and its entries in the MSTIs. A machine is run at
-- its place: a view is taken out of the station, the machine works on the view, and the view is put
-- back. `pass` is __br_state_machines_run with dry_run false, `dry_pass` with dry_run true. The loop
-- reads the clock after each round, so its readings are a list, and `none` says that the list or
-- the fuel of a machine ran out. For a whole round on a bridge without MSTIs, fuel above 64 and above
-- twice the hold count and two is enough, and the readings are enough once one of them is later than
-- the second that a run has.
--
-- A `Domain` is a station with the tables and the parts of the configuration identifier. A table is a
-- function of its index. HMAC-MD5, a copy of a reference implementation (hmac_md5.c), is a parameter:
-- the digest of a table under the key of the standard. A function that ends with a call of
-- br_state_machines_run or of a begin function gives its new state and that call as a value, which
-- Allocation/Complete makes, or makes the call itself.
--
-- Not modelled: the reading of the status (MSTP_IN_get_.._status), MSTP_IN_all_fids_flushed, the uptime
-- and the start times that are only reported, allocations of memory that fail, logging, the list of
-- bridges in bridge_track.c, and all input and output (control socket, netlink, packet socket, sysfs).
pub mod Prelude
pub mod Vector
pub mod Rule
pub mod Enums
pub mod Types
pub mod RoleTransitions
pub mod StateTransition
pub mod Receive
pub mod Migration
pub mod EdgeDetection
pub mod TopologyChange
pub mod PortInformation
pub mod Transmit
pub mod BpduReceipt
pub mod RoleSelection
pub mod Timers
pub mod Station
pub mod Config
pub mod Allocation
pub mod Lifecycle
pub mod Examples
