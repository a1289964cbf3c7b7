-- ===== src/Lifecycle/Bridges.antt =====
-- mstp.c: MSTP_IN_bridge_create, MSTP_IN_set_bridge_address and MSTP_IN_set_bridge_enable.
use mstpd.Prelude.{
  ℕ, ◌+◌, ◌-◌, ◌*◌, ◌/◌, ◌%◌, ◌^◌, Bool, false, not, Option, some, List, [], ◌∷◌, ◌++◌, map, any_of,
  ltb, ◌==◌, if◌then◌else◌,
}
use mstpd.Vector.{mac_address}
use mstpd.Enums.{BrState, PortInfo, proto_rstp}
use mstpd.Types.{Bridge, Tree, Port, PerTreePort, Output}
use mstpd.StateTransition
use mstpd.Station.Grid.{Line, Station, entries, with_entries}
use mstpd.Station.Start.{Moved, br_state_machines_begin}
use mstpd.Station.Loop.{TimeSpec}
use mstpd.Config.Port.{bool_differs}
use mstpd.Allocation.Tables.{Domain, copy_name, configuration_name_len, recalc_config_digest}
use mstpd.Allocation.Trees.{create_tree, no_vector, no_times}

-- A digit of "%02hhX", and the two digits of an octet.
abbrev pub hex_digit : ℕ → ℕ
hex_digit n = if ltb n 10 then b'0' + n else b'A' + n - 10

abbrev pub hex_octet : ℕ → List ℕ
hex_octet n = hex_digit (n / 16 % 16) ∷ hex_digit (n % 16) ∷ []

-- The six octets of a MAC address, in capital hexadecimal digits.
unfoldable pub address_name : ℕ → List ℕ
address_name mac =
    hex_octet (mac / 2 ^ 40)
    ++ hex_octet (mac / 2 ^ 32)
    ++ hex_octet (mac / 2 ^ 24)
    ++ hex_octet (mac / 2 ^ 16)
    ++ hex_octet (mac / 2 ^ 8)
    ++ hex_octet mac

-- The parameters of a new bridge; the configuration identifier is written by RecalcConfigDigest.
abbrev pub default_bridge : Bridge
default_bridge = record {
  bridge_enabled = false;
  mst_config_id = 0;
  force_protocol_version = proto_rstp;
  max_hops = 20;
  forward_delay = 15;
  max_age = 20;
  hello_time = 2;
  transmit_hold_count = 6;
  migrate_time = 3;
  ageing_time = 300;
}

-- MSTP_IN_bridge_create; memory is taken to be there.
unfoldable pub bridge_create : (List ℕ → ℕ) → ℕ → Domain
unfolding recalc_config_digest
bridge_create hmac_md5 macaddr = recalc_config_digest hmac_md5 (record {
  station = record {
    bridge = default_bridge;
    trees = create_tree default_bridge macaddr 0 ∷ [];
    lines = [];
  };
  vid2fid = λ vid. 0;
  fid2mstid = λ fid. 0;
  configuration_name = copy_name configuration_name_len (address_name macaddr);
  revision_level = 0;
  configuration_digest = 0;
})

-- The body of the loop of MSTP_IN_set_bridge_address.
abbrev pub with_address : ℕ → Tree → Tree
with_address macaddr t =
    let id = t.bridge_identifier / 2 ^ 48 * 2 ^ 48 + macaddr in
    if mac_address t.bridge_identifier == macaddr then t else record t {
      bridge_identifier = id;
      bridge_priority = record (t.bridge_priority) {
        root_id = id;
        r_root_id = id;
        designated_bridge_id = id;
      };
    }

unfoldable pub set_bridge_address : ℕ → ℕ → TimeSpec → List TimeSpec → Station → Option Station
set_bridge_address macaddr fuel start tvs s =
    let t = record s { trees = map (with_address macaddr) s.trees } in
    if any_of (λ t. not (mac_address t.bridge_identifier == macaddr)) s.trees
    then br_state_machines_begin fuel start tvs t
    else some t

-- tree_default_internal_vars, port_default_internal_vars and ptp_default_internal_vars.
abbrev pub tree_defaults : Tree → Tree
tree_defaults t = record t {
  time_since_topology_change = 0;
  topology_change_count = 0;
  topology_change = false;
}

abbrev pub port_defaults : Port → Port
port_defaults prt = record prt {
  info_internal = false;
  rcvd_internal = false;
  rcvd_tc_ack = false;
  rcvd_tcn = false;
  rapid_ageing_while = 0;
  br_assu_rcvd_info_while = 0;
  ba_inconsistent = false;
  num_rx_bpdu_filtered = 0;
  num_rx_bpdu = 0;
  num_rx_tcn = 0;
  num_tx_bpdu = 0;
  num_tx_tcn = 0;
  num_trans_fwd = 0;
  num_trans_blk = 0;
}

abbrev pub ptp_defaults : PerTreePort → PerTreePort
ptp_defaults p = record p {
  rcvd_tc = false;
  tc_prop = false;
  updt_info = false;
  master = false;
  disputed = false;
  rcvd_info = PortInfo.other_info;
  mastered = false;
  msg_priority = no_vector;
  msg_times = no_times;
}

-- The entries of a port: MSTP_OUT_set_state to the state disabled, and the defaults.
unfoldable pub reset_entries : List PerTreePort → Port → List Output → Moved
reset_entries [] prt out = record { entries = []; port = prt; out = out }
reset_entries (p ∷ ps) prt out =
    let w =
      StateTransition.out_set_state BrState.disabled (record { me = p; port = prt; out = out }) in
    let r = reset_entries ps w.port w.out in record r { entries = ptp_defaults w.me ∷ r.entries }

-- MSTP_OUT_set_ageing_time stops a rapid ageing first.
abbrev pub stop_ageing : Bridge → Port → List Output
stop_ageing br prt =
    if prt.rapid_ageing_while == 0 then [] else Output.set_ageing_time br.ageing_time ∷ []

unfoldable pub reset_line : Bridge → Line → Line
reset_line br l =
    let r =
      reset_entries (entries l.node) (port_defaults l.node.port)
        (l.out ++ stop_ageing br l.node.port) in
    record { node = with_entries r.entries (record (l.node) { port = r.port }); out = r.out }

unfoldable pub reset : Bool → Station → Station
reset up s = record {
  bridge = record (s.bridge) { bridge_enabled = up };
  trees = map tree_defaults s.trees;
  lines = map (reset_line s.bridge) s.lines;
}

-- MSTP_IN_set_bridge_enable.
unfoldable pub set_bridge_enable : Bool → ℕ → TimeSpec → List TimeSpec → Station → Option Station
set_bridge_enable up fuel start tvs s =
    if bool_differs s.bridge.bridge_enabled up
    then br_state_machines_begin fuel start tvs (reset up s)
    else some s
