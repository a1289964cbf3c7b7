-- ===== src/Timers.antt =====
-- mstp.c, section 13.27: PTSM_tick, which counts down the timers of a port once a second.
pub mod Marks
use mstpd.Prelude.{ℕ, zero, suc, List, map, tick, ◌==◌, if◌then◌else◌}
use mstpd.Types.{Port, PerTreePort, Tree}
use mstpd.TopologyChange.View.{topology_settles}

-- The port's entry in a tree, the tree, and the other ports' entries in it.
pub record Entry : Type 0 where
  pub me : PerTreePort
  pub tree : Tree
  pub peers : List PerTreePort

pub record TimerView : Type 0 where
  pub port : Port
  pub entries : List Entry

unfoldable pub tick_port : Port → Port
tick_port prt = record prt {
  hello_when = tick prt.hello_when;
  mdelay_while = tick prt.mdelay_while;
  edge_delay_while = tick prt.edge_delay_while;
  tx_count = tick prt.tx_count;
  br_assu_rcvd_info_while = tick prt.br_assu_rcvd_info_while;
}

abbrev pub tick_entry_port : PerTreePort → PerTreePort
tick_entry_port p = record p {
  fd_while = tick p.fd_while;
  rr_while = tick p.rr_while;
  rb_while = tick p.rb_while;
  tc_while = tick p.tc_while;
  rcvd_info_while = tick p.rcvd_info_while;
}

-- One round of the loop. The tree is told when `tcWhile` becomes zero, that is from one.
unfoldable pub tick_entry : Entry → Entry
tick_entry e = record e {
  me = tick_entry_port e.me;
  tree =
      if e.me.tc_while == 1 then topology_settles (tick_entry_port e.me) e.peers e.tree else e.tree;
}

unfoldable pub tick_timers : TimerView → TimerView
tick_timers v = record { port = tick_port v.port; entries = map tick_entry v.entries }
