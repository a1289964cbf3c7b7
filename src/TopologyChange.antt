-- ===== src/TopologyChange.antt =====
-- mstp.c, section 13.36: the Topology Change state machine (TCSM) of one port in one tree, with
-- newTcWhile, set_TopologyChange, set_fdbFlush and setTcPropTree; bridge_track.c and driver_deps.c:
-- MSTP_OUT_flush_all_fids, MSTP_OUT_set_ageing_time.
--
-- `next` has the conditions of `TCSM_run`, `Enter` the functions `TCSM_to_X`, and `Run` the
-- recursion. The driver of the repository completes a flush before it returns: its hook calls
-- MSTP_IN_all_fids_flushed, which clears `fdbFlush`, and which does no more because
-- `calledFromFlushRoutine` is set. The names of the ports with the last topology changes are left
-- out.
pub mod View
pub mod Enter
pub mod Run
pub mod Rest
