-- ===== src/TopologyChange/View.antt =====
-- mstp.c: the state that the Topology Change machine reads and writes, and its helper functions.
use mstpd.Prelude.{
  ℕ, ◌+◌, ◌%◌, ◌^◌, true, false, not, ◌&&◌, ◌||◌, List, [], ◌∷◌, ◌++◌, map, any_of, ◌==◌,
  if◌then◌else◌,
}
use mstpd.Enums.{rstp_version}
use mstpd.Types.{Bridge, Tree, Port, PerTreePort, Output}

-- `ptp`, `ptp->port`, `ptp->tree`, the other per-tree ports of the tree, and the calls of the
-- driver. `cist_hello_time` and `cist_forward_delay` are `portTimes.Hello_Time` and
-- `designatedTimes.Forward_Delay` of the port's CIST entry, which the machine only reads.
pub record TopologyView : Type 0 where
  pub me : PerTreePort
  pub port : Port
  pub tree : Tree
  pub peers : List PerTreePort
  pub bridge : Bridge
  pub cist_hello_time : ℕ
  pub cist_forward_delay : ℕ
  pub out : List Output

-- set_TopologyChange with the hint that some `tcWhile` is not zero.
unfoldable pub topology_changes : Tree → Tree
topology_changes t = record t {
  topology_change = true;
  time_since_topology_change = 0;
  topology_change_count =
      if t.topology_change then t.topology_change_count else (t.topology_change_count + 1) % 2 ^ 32;
}

-- set_TopologyChange with the hint that some `tcWhile` became zero, for the tree of `me` and `peers`.
unfoldable pub topology_settles : PerTreePort → List PerTreePort → Tree → Tree
topology_settles me peers t =
    if not t.topology_change
    then t
    else if not (me.tc_while == 0) || any_of (λ p. not (p.tc_while == 0)) peers
    then record t { topology_change = true; time_since_topology_change = 0 }
    else record t { topology_change = false }

-- The value that newTcWhile gives a timer that does not run.
abbrev pub new_tc_time : TopologyView → ℕ
new_tc_time v =
    if v.port.send_rstp
    then v.cist_hello_time + 1
    else v.tree.root_times.max_age + v.tree.root_times.forward_delay

-- 13.26.5. A running timer is left alone.
unfoldable pub new_tc_while : TopologyView → TopologyView
unfolding topology_changes
new_tc_while v = record v {
  me = record (v.me) {
    tc_while = if not (v.me.tc_while == 0) then v.me.tc_while else new_tc_time v;
  };
  tree = if not (v.me.tc_while == 0) then v.tree else topology_changes v.tree;
  port = record (v.port) {
    new_info = v.port.new_info || (v.me.tc_while == 0 && v.port.send_rstp && v.me.mstid == 0);
    new_info_msti =
        v.port.new_info_msti || (v.me.tc_while == 0 && v.port.send_rstp && not (v.me.mstid == 0));
  };
}

-- How the forwarding database is flushed: not at all on an edge port or a deleted one, by the
-- driver in RSTP, and by rapid ageing in STP.
pub data Flush : Type 0 where
  no_flush driver_flush rapid_ageing : Flush

unfoldable pub flush_mode : Bridge → Port → Flush
flush_mode br prt =
    if prt.oper_edge || prt.deleted
    then Flush.no_flush
    else if rstp_version br.force_protocol_version
    then Flush.driver_flush
    else Flush.rapid_ageing

abbrev pub flush_output : Flush → ℕ → List Output
flush_output Flush.no_flush delay = []
flush_output Flush.driver_flush delay = Output.flush_all_fids ∷ []
flush_output Flush.rapid_ageing delay = Output.set_ageing_time delay ∷ []

abbrev pub flush_ageing : Flush → ℕ → ℕ → ℕ
flush_ageing Flush.rapid_ageing delay old = delay
flush_ageing _ delay old = old

-- 13.24.s. `fdbFlush` is false in the end on every branch: the driver's hook completes the flush
-- before it returns.
unfoldable pub set_fdb_flush : TopologyView → TopologyView
set_fdb_flush v = record v {
  me = record (v.me) { fdb_flush = false };
  port = record (v.port) {
    rapid_ageing_while =
        flush_ageing (flush_mode v.bridge v.port) v.cist_forward_delay v.port.rapid_ageing_while;
  };
  out = v.out ++ flush_output (flush_mode v.bridge v.port) v.cist_forward_delay;
}

-- 13.26.17.
unfoldable pub set_tc_prop_tree : TopologyView → TopologyView
set_tc_prop_tree v = record v {
  peers =
      if v.port.restricted_tcn
      then v.peers
      else map (λ (p : PerTreePort). record p { tc_prop = true }) v.peers;
}
