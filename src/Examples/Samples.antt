-- ===== src/Examples/Samples.antt =====
-- A bridge, a tree, a port, its entry in a tree and a BPDU with plausible values, for the examples.
use mstpd.Prelude.{ℕ, ◌+◌, ◌^◌, true, false, [], ◌∷◌}
use mstpd.Vector.{PriorityVector, Times}
use mstpd.Enums.{
  BrState, PortInfo, InfoOrigin, PortRole, AdminP2p, PrsmState, PpmsmState, BdsmState, PtsmState,
  PismState, PrtsmState, PstsmState, TcsmState, PrssmState,
}
use mstpd.Types.{MstiMessage, Bpdu, Bridge, Tree, Port, PerTreePort, PortNode}

abbrev pub vector_of : ℕ → PriorityVector
vector_of root = record {
  r_root_id = root;
  int_root_path_cost = 0;
  designated_bridge_id = root;
  designated_port_id = 2 ^ 15 + 1;
  root_id = root;
  ext_root_path_cost = 0;
}

abbrev pub some_times : Times
some_times = record {
  remaining_hops = 20;
  forward_delay = 15;
  max_age = 20;
  message_age = 0;
  hello_time = 2;
}

abbrev pub some_message : MstiMessage
some_message = record {
  flags = 12;
  msti_r_root_id = 2 ^ 48;
  msti_int_root_path_cost = 0;
  bridge_identifier_priority = 0;
  port_identifier_priority = 0;
  remaining_hops = 20;
}

abbrev pub some_bpdu : Bpdu
some_bpdu = record {
  protocol_identifier = 0;
  protocol_version = 3;
  bpdu_type = 2;
  flags = 12;
  cist_root_id = 5;
  cist_ext_root_path_cost = 0;
  cist_r_root_id = 5;
  cist_port_id = 2 ^ 15 + 1;
  message_age = (record { seconds = 20; fraction = 0 });
  max_age = (record { seconds = 20; fraction = 0 });
  hello_time = (record { seconds = 20; fraction = 0 });
  forward_delay = (record { seconds = 20; fraction = 0 });
  version1_len = 0;
  version3_len = 80;
  mst_configuration_identifier = 0;
  cist_int_root_path_cost = 0;
  cist_bridge_id = 5;
  cist_remaining_hops = 20;
  mst_configuration = some_message ∷ [];
}

abbrev pub some_bridge : Bridge
some_bridge = record {
  bridge_enabled = true;
  mst_config_id = 0;
  force_protocol_version = 3;
  max_hops = 20;
  forward_delay = 15;
  max_age = 20;
  hello_time = 2;
  transmit_hold_count = 6;
  migrate_time = 3;
  ageing_time = 300;
}

abbrev pub some_tree : Tree
some_tree = record {
  mstid = 0;
  bridge_identifier = 0;
  root_port_id = 0;
  root_priority = vector_of 1;
  bridge_priority = vector_of 1;
  bridge_times = some_times;
  root_times = some_times;
  time_since_topology_change = 0;
  topology_change_count = 0;
  topology_change = false;
  prssm_state = PrssmState.role_selection;
}

abbrev pub some_port : Port
some_port = record {
  port_number = 1;
  mdelay_while = 0;
  hello_when = 2;
  edge_delay_while = 3;
  tx_count = 0;
  oper_edge = false;
  port_enabled = true;
  info_internal = false;
  rcvd_internal = false;
  mcheck = false;
  rcvd_bpdu = false;
  rcvd_rstp = false;
  rcvd_stp = false;
  rcvd_tc_ack = false;
  rcvd_tcn = false;
  send_rstp = true;
  tc_ack = false;
  new_info = true;
  new_info_msti = false;
  oper_point_to_point_mac = true;
  restricted_role = false;
  restricted_tcn = false;
  external_port_path_cost = 0;
  admin_external_port_path_cost = 0;
  admin_p2p = AdminP2p.auto;
  admin_edge_port = false;
  auto_edge = false;
  bpdu_guard_port = false;
  bpdu_guard_error = false;
  network_port = false;
  ba_inconsistent = false;
  dont_txmt_bpdu = false;
  bpdu_filter_port = false;
  rapid_ageing_while = 0;
  br_assu_rcvd_info_while = 0;
  prsm_state = PrsmState.receive;
  ppmsm_state = PpmsmState.sensing;
  bdsm_state = BdsmState.not_edge;
  ptsm_state = PtsmState.idle;
  rcvd_bpdu_data = some_bpdu;
  rcvd_bpdu_num_of_mstis = 1;
  deleted = false;
  num_rx_bpdu_filtered = 0;
  num_rx_bpdu = 0;
  num_rx_tcn = 0;
  num_tx_bpdu = 0;
  num_tx_tcn = 0;
  num_trans_fwd = 0;
  num_trans_blk = 0;
}

abbrev pub some_entry : PerTreePort
some_entry = record {
  mstid = 0;
  state = BrState.blocking;
  fd_while = 0;
  rr_while = 0;
  rb_while = 0;
  tc_while = 0;
  rcvd_info_while = 6;
  agree = false;
  agreed = false;
  disputed = false;
  forward = false;
  forwarding = false;
  learn = false;
  learning = false;
  rcvd_info = PortInfo.other_info;
  info_is = InfoOrigin.mine;
  proposed = false;
  proposing = false;
  rcvd_msg = true;
  rcvd_tc = false;
  re_root = false;
  reselect = false;
  selected = true;
  fdb_flush = false;
  tc_prop = false;
  updt_info = false;
  sync = false;
  synced = false;
  port_id = 2 ^ 15 + 1;
  role = PortRole.root;
  selected_role = PortRole.root;
  designated_priority = vector_of 1;
  msg_priority = vector_of 1;
  port_priority = vector_of 1;
  designated_times = some_times;
  msg_times = some_times;
  port_times = some_times;
  master = false;
  mastered = false;
  internal_port_path_cost = 0;
  admin_internal_port_path_cost = 0;
  pism_state = PismState.current;
  prtsm_state = PrtsmState.root_port;
  pstsm_state = PstsmState.discarding;
  tcsm_state = TcsmState.learning;
  called_from_flush_routine = false;
  rcvd_msti_config = some_message;
}

abbrev pub some_node : PortNode
some_node = record {
  port = some_port;
  cist = some_entry;
  mstis = record (some_entry) { mstid = 1 } ∷ [];
}
