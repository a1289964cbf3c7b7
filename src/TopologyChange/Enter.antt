-- ===== src/TopologyChange/Enter.antt =====
-- mstp.c: the functions `TCSM_to_X`, without the call of `TCSM_run` at their end.
use mstpd.Prelude.{false, not, ◌&&◌, ◌||◌, ◌==◌}
use mstpd.Enums.{PortRole, TcsmState, same_role}
use mstpd.TopologyChange.View.{
  TopologyView, topology_settles, new_tc_while, set_fdb_flush, set_tc_prop_tree,
}

unfoldable pub to_inactive : TopologyView → TopologyView
to_inactive v =
    let f = set_fdb_flush (record v { me = record (v.me) { tcsm_state = TcsmState.inactive } }) in
    let w = record f { me = record (f.me) { tc_while = 0 } } in
    record w {
      tree = topology_settles w.me w.peers w.tree;
      port = record (w.port) { tc_ack = not (w.me.mstid == 0) && w.port.tc_ack };
    }

-- `TCSM_to_LEARNING(ptp, false)`.
unfoldable pub to_learning : TopologyView → TopologyView
to_learning v = record v {
  me = record (v.me) { tcsm_state = TcsmState.learning; rcvd_tc = false; tc_prop = false };
  port = record (v.port) {
    rcvd_tcn = not (v.me.mstid == 0) && v.port.rcvd_tcn;
    rcvd_tc_ack = not (v.me.mstid == 0) && v.port.rcvd_tc_ack;
  };
}

unfoldable pub to_detected : TopologyView → TopologyView
to_detected v =
    let w =
      set_tc_prop_tree
        (new_tc_while (record v { me = record (v.me) { tcsm_state = TcsmState.detected } })) in
    record w {
      port = record (w.port) {
        new_info = w.me.mstid == 0 || w.port.new_info;
        new_info_msti = not (w.me.mstid == 0) || w.port.new_info_msti;
      };
    }

unfoldable pub to_notified_tcn : TopologyView → TopologyView
to_notified_tcn v =
    new_tc_while (record v { me = record (v.me) { tcsm_state = TcsmState.notified_tcn } })

unfoldable pub to_notified_tc : TopologyView → TopologyView
to_notified_tc v = set_tc_prop_tree (record v {
  me = record (v.me) { tcsm_state = TcsmState.notified_tc; rcvd_tc = false };
  port = record (v.port) {
    rcvd_tcn = not (v.me.mstid == 0) && v.port.rcvd_tcn;
    tc_ack = (v.me.mstid == 0 && same_role PortRole.designated v.me.role) || v.port.tc_ack;
  };
})

unfoldable pub to_propagating : TopologyView → TopologyView
to_propagating v =
    let w =
      set_fdb_flush
        (new_tc_while (record v { me = record (v.me) { tcsm_state = TcsmState.propagating } })) in
    record w { me = record (w.me) { tc_prop = false } }

unfoldable pub to_acknowledged : TopologyView → TopologyView
to_acknowledged v =
    let w = record v { me = record (v.me) { tcsm_state = TcsmState.acknowledged; tc_while = 0 } } in
    record w {
      tree = topology_settles w.me w.peers w.tree;
      port = record (w.port) { rcvd_tc_ack = false };
    }

unfoldable pub to_active : TopologyView → TopologyView
to_active v = record v { me = record (v.me) { tcsm_state = TcsmState.active } }

unfoldable pub enter : TcsmState → TopologyView → TopologyView
unfolding to_inactive to_learning to_detected to_notified_tcn to_notified_tc to_propagating
    to_acknowledged to_active
enter TcsmState.inactive v = to_inactive v
enter TcsmState.learning v = to_learning v
enter TcsmState.detected v = to_detected v
enter TcsmState.notified_tcn v = to_notified_tcn v
enter TcsmState.notified_tc v = to_notified_tc v
enter TcsmState.propagating v = to_propagating v
enter TcsmState.acknowledged v = to_acknowledged v
enter TcsmState.active v = to_active v
