-- ===== src/Lifecycle/Ports.antt =====
-- mstp.c: MSTP_IN_port_create_and_add_tail, MSTP_IN_delete_port and MSTP_IN_delete_bridge.
use mstpd.Prelude.{
  ℕ, Bool, true, false, Option, none, some, List, [], ◌∷◌, ◌++◌, map, length, ◌>>=◌, if◌then◌else◌,
}
use mstpd.Enums.{AdminP2p, PrsmState, PpmsmState, BdsmState, PtsmState}
use mstpd.Types.{Tree, Port, Bpdu, WireTime}
use mstpd.Station.Grid.{Line, Station, get_at}
use mstpd.Station.Start.{on_line, prt_state_machines_begin}
use mstpd.Station.Loop.{TimeSpec, br_state_machines_run}
use mstpd.Config.Port.{max_path_cost}
use mstpd.Allocation.Trees.{create_ptp, remove_at}

abbrev no_time : WireTime
no_time = record { seconds = 0; fraction = 0 }

abbrev no_bpdu : Bpdu
no_bpdu = record {
  protocol_identifier = 0;
  protocol_version = 0;
  bpdu_type = 0;
  flags = 0;
  cist_root_id = 0;
  cist_ext_root_path_cost = 0;
  cist_r_root_id = 0;
  cist_port_id = 0;
  message_age = no_time;
  max_age = no_time;
  hello_time = no_time;
  forward_delay = no_time;
  version1_len = 0;
  version3_len = 0;
  mst_configuration_identifier = 0;
  cist_int_root_path_cost = 0;
  cist_bridge_id = 0;
  cist_remaining_hops = 0;
  mst_configuration = [];
}

-- The fields that MSTP_IN_port_create_and_add_tail writes, in a structure of zeros.
unfoldable pub new_port : ℕ → Port
new_port portno = record {
  port_number = portno;
  mdelay_while = 0;
  hello_when = 0;
  edge_delay_while = 0;
  tx_count = 0;
  oper_edge = false;
  port_enabled = false;
  info_internal = false;
  rcvd_internal = false;
  mcheck = false;
  rcvd_bpdu = false;
  rcvd_rstp = false;
  rcvd_stp = false;
  rcvd_tc_ack = false;
  rcvd_tcn = false;
  send_rstp = false;
  tc_ack = false;
  new_info = false;
  new_info_msti = false;
  oper_point_to_point_mac = false;
  restricted_role = false;
  restricted_tcn = false;
  external_port_path_cost = max_path_cost;
  admin_external_port_path_cost = 0;
  admin_p2p = AdminP2p.auto;
  admin_edge_port = false;
  auto_edge = true;
  bpdu_guard_port = false;
  bpdu_guard_error = false;
  network_port = false;
  ba_inconsistent = false;
  dont_txmt_bpdu = false;
  bpdu_filter_port = false;
  rapid_ageing_while = 0;
  br_assu_rcvd_info_while = 0;
  prsm_state = PrsmState.discard;
  ppmsm_state = PpmsmState.checking_rstp;
  bdsm_state = BdsmState.edge;
  ptsm_state = PtsmState.transmit_init;
  rcvd_bpdu_data = no_bpdu;
  rcvd_bpdu_num_of_mstis = 0;
  deleted = false;
  num_rx_bpdu_filtered = 0;
  num_rx_bpdu = 0;
  num_rx_tcn = 0;
  num_tx_bpdu = 0;
  num_tx_tcn = 0;
  num_trans_fwd = 0;
  num_trans_blk = 0;
}

-- One entry for each tree; a bridge has at least the CIST.
unfoldable pub new_line : ℕ → ℕ → List Tree → Option Line
new_line portno speed [] = none
new_line portno speed (t ∷ ts) = some (record {
  node = record {
    port = new_port portno;
    cist = create_ptp t speed (new_port portno);
    mstis = map (λ t. create_ptp t speed (new_port portno)) ts;
  };
  out = [];
})

-- MSTP_IN_port_create_and_add_tail.
unfoldable pub port_create : ℕ → ℕ → ℕ → TimeSpec → List TimeSpec → Station → Option Station
port_create portno speed fuel start tvs s = new_line portno speed s.trees >>= (λ l.
    prt_state_machines_begin (length s.lines) fuel start tvs
      (record s { lines = s.lines ++ (l ∷ []) }))

-- MSTP_IN_delete_port, for the port with the given index; a clock for each of the two runs.
abbrev pub mark_deleted : Line → Line
mark_deleted l = record l {
  node = record (l.node) { port = record (l.node.port) { deleted = true; port_enabled = false } };
}

abbrev pub is_enabled : ℕ → Station → Bool
is_enabled i s = elim (get_at i s.lines) [ none ↦ false | some l ↦ l.node.port.port_enabled ]

unfoldable pub delete_port :
    ℕ → ℕ → TimeSpec → List TimeSpec → TimeSpec → List TimeSpec → Station → Option Station
delete_port i fuel start tvs start' tvs' s =
    let marked = on_line i mark_deleted s in
    let first =
      if is_enabled i s then br_state_machines_run fuel start tvs marked else some marked in
    first
    >>= (λ t. br_state_machines_run fuel start' tvs' (record t { lines = remove_at i t.lines }))

-- MSTP_IN_delete_bridge: the ports go one after the other while the bridge is disabled, so that no
-- machine runs; then the trees go.
unfoldable pub delete_bridge : Station → Station
delete_bridge s = record {
  bridge = record (s.bridge) { bridge_enabled = false };
  trees = [];
  lines = [];
}
