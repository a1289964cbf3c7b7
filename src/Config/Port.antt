-- ===== src/Config/Port.antt =====
-- mstp.c: compute_pcost, MSTP_IN_set_port_enable, MSTP_IN_set_cist_port_config,
-- MSTP_IN_set_msti_port_config and MSTP_IN_port_mcheck. The speed and the duplex of a port are the
-- kernel's answers.
use mstpd.Prelude.{
  ℕ, ◌*◌, ◌%◌, ◌/◌, ◌^◌, Bool, true, false, not, ◌&&◌, ◌||◌, Option, none, some, map, any_of, ltb,
  ◌==◌, if◌then◌else◌,
}
use mstpd.Vector.{set_priority_in_port_id}
use mstpd.Enums.{AdminP2p, rstp_version}
use mstpd.Types.{Bridge, Port, PerTreePort, PortNode}
use mstpd.EdgeDetection
use mstpd.Config.Bridge.{Call, Outcome, reject, ask_reselect}

abbrev pub max_path_cost : ℕ
max_path_cost = 200000000

-- `compute_pcost`. A speed that is not positive, such as -1 for an unknown one, is 0.
unfoldable pub compute_pcost : ℕ → ℕ
compute_pcost speed =
    if ltb 0 speed then (if ltb speed 20000000 then 20000000 / speed else 1) else max_path_cost

-- The cost in force: the configured one, or the computed one if that is 0.
abbrev pub cost_of : ℕ → ℕ → ℕ
cost_of admin speed = if 0 == admin then compute_pcost speed else admin

abbrev pub point_to_point : AdminP2p → Bool → Bool
point_to_point AdminP2p.force_true duplex = true
point_to_point AdminP2p.force_false duplex = false
point_to_point AdminP2p.auto duplex = duplex

abbrev pub bool_differs : Bool → Bool → Bool
bool_differs true b = not b
bool_differs false b = b

-- The branch of MSTP_IN_set_port_enable for a port that comes up while it was down, with
-- updtbrAssuRcvdInfoWhile.
abbrev pub wake : PerTreePort → Port → Port
wake cist prt = record prt {
  port_enabled = true;
  bpdu_guard_error = false;
  ba_inconsistent = false;
  num_rx_bpdu_filtered = 0;
  num_rx_bpdu = 0;
  num_rx_tcn = 0;
  num_tx_bpdu = 0;
  num_tx_tcn = 0;
  br_assu_rcvd_info_while = 3 * cist.port_times.hello_time;
}

abbrev pub set_internal_cost : ℕ → PerTreePort → PerTreePort
set_internal_cost speed p = record p {
  internal_port_path_cost = cost_of p.admin_internal_port_path_cost speed;
}

abbrev pub internal_cost_changes : ℕ → PerTreePort → Bool
internal_cost_changes speed p =
    not (p.internal_port_path_cost == cost_of p.admin_internal_port_path_cost speed)

unfoldable pub bring_up : ℕ → Bool → PortNode → PortNode
bring_up speed duplex n =
    let prt = record (n.port) {
      external_port_path_cost = cost_of n.port.admin_external_port_path_cost speed;
      oper_point_to_point_mac = point_to_point n.port.admin_p2p duplex;
    } in
    record {
      port = if n.port.port_enabled then prt else wake n.cist prt;
      cist = set_internal_cost speed n.cist;
      mstis = map (set_internal_cost speed) n.mstis;
    }

abbrev pub bring_up_changes : ℕ → Bool → PortNode → Bool
bring_up_changes speed duplex n =
    not (n.port.external_port_path_cost == cost_of n.port.admin_external_port_path_cost speed)
    || internal_cost_changes speed n.cist
    || any_of (internal_cost_changes speed) n.mstis
    || bool_differs n.port.oper_point_to_point_mac (point_to_point n.port.admin_p2p duplex)
    || not n.port.port_enabled

abbrev pub call_if : Bool → Call
call_if true = Call.run
call_if false = Call.nothing

-- MSTP_IN_set_port_enable.
unfoldable pub set_port_enable : Bool → ℕ → Bool → PortNode → Outcome PortNode
set_port_enable true speed duplex n = record {
  accepted = true;
  state = bring_up speed duplex n;
  call = call_if (bring_up_changes speed duplex n);
}
set_port_enable false speed duplex n = record {
  accepted = true;
  state = record n { port = record (n.port) { port_enabled = false } };
  call = call_if n.port.port_enabled;
}

-- CIST_PortConfig; a value of `admin_p2p` that is none of the three is taken for `auto`.
pub record CistPortConfig : Type 0 where
  pub admin_external_port_path_cost : Option ℕ
  pub admin_p2p : Option AdminP2p
  pub admin_edge_port : Option Bool
  pub auto_edge_port : Option Bool
  pub restricted_role : Option Bool
  pub restricted_tcn : Option Bool
  pub bpdu_guard_port : Option Bool
  pub network_port : Option Bool
  pub dont_txmt : Option Bool
  pub bpdu_filter_port : Option Bool

-- The new value of a flag, and whether it differs from the old one.
abbrev pub flag_of : Bool → Option Bool → Bool
flag_of old none = old
flag_of old (some b) = b

abbrev pub flag_changes : Bool → Option Bool → Bool
flag_changes old o = bool_differs old (flag_of old o)

abbrev pub cost_allowed : Option ℕ → Bool
cost_allowed none = true
cost_allowed (some c) = not (ltb max_path_cost c)

-- The external path cost, with 12.8.2.3.4.
unfoldable pub set_external_cost : Option ℕ → ℕ → PortNode → PortNode × Bool
set_external_cost none speed n = (n, false)
set_external_cost (some c) speed n =
    let prt = record (n.port) { admin_external_port_path_cost = c } in
    if n.port.external_port_path_cost == cost_of c speed
    then (record n { port = prt }, false)
    else (
      record n {
        port = record prt { external_port_path_cost = cost_of c speed };
        cist = ask_reselect n.cist;
      },
      true,
    )

unfoldable pub set_admin_p2p : Option AdminP2p → Bool → Port → Port × Bool
set_admin_p2p none duplex prt = (prt, false)
set_admin_p2p (some p) duplex prt = (
  record prt { admin_p2p = p; oper_point_to_point_mac = point_to_point p duplex },
  bool_differs prt.oper_point_to_point_mac (point_to_point p duplex),
)

-- BDSM_begin is called if the flag changes.
unfoldable pub set_admin_edge : Option Bool → Port → Port
set_admin_edge o prt =
    if flag_changes prt.admin_edge_port o
    then EdgeDetection.begin (record prt { admin_edge_port = flag_of prt.admin_edge_port o })
    else prt

unfoldable pub set_flags : CistPortConfig → Port → Port
set_flags cfg prt = record prt {
  auto_edge = flag_of prt.auto_edge cfg.auto_edge_port;
  restricted_role = flag_of prt.restricted_role cfg.restricted_role;
  restricted_tcn = flag_of prt.restricted_tcn cfg.restricted_tcn;
  bpdu_guard_port = flag_of prt.bpdu_guard_port cfg.bpdu_guard_port;
  network_port = flag_of prt.network_port cfg.network_port;
  ba_inconsistent =
      prt.ba_inconsistent
      && not (
          flag_changes prt.network_port cfg.network_port
          && not (flag_of prt.network_port cfg.network_port));
  dont_txmt_bpdu = flag_of prt.dont_txmt_bpdu cfg.dont_txmt;
  bpdu_filter_port = flag_of prt.bpdu_filter_port cfg.bpdu_filter_port;
  num_rx_bpdu_filtered =
      if flag_changes prt.bpdu_filter_port cfg.bpdu_filter_port
      then 0
      else prt.num_rx_bpdu_filtered;
}

-- The flags whose change makes `changed` true.
abbrev pub flags_change : CistPortConfig → Port → Bool
flags_change cfg prt =
    flag_changes prt.admin_edge_port cfg.admin_edge_port
    || flag_changes prt.auto_edge cfg.auto_edge_port
    || flag_changes prt.restricted_role cfg.restricted_role
    || flag_changes prt.restricted_tcn cfg.restricted_tcn
    || flag_changes prt.network_port cfg.network_port

unfoldable pub apply_port_config : CistPortConfig → ℕ → Bool → PortNode → PortNode × Bool
apply_port_config cfg speed duplex n =
    let c = set_external_cost cfg.admin_external_port_path_cost speed n in
    let p = set_admin_p2p cfg.admin_p2p duplex c.0.port in
    (
      record (c.0) { port = set_flags cfg (set_admin_edge cfg.admin_edge_port p.0) },
      c.1 || p.1 || flags_change cfg n.port,
    )

-- MSTP_IN_set_cist_port_config.
unfoldable pub set_cist_port_config : CistPortConfig → ℕ → Bool → PortNode → Outcome PortNode
set_cist_port_config cfg speed duplex n =
    if not (cost_allowed cfg.admin_external_port_path_cost)
    then reject n
    else let r = apply_port_config cfg speed duplex n in
      record { accepted = true; state = r.0; call = call_if (r.1 && n.port.port_enabled) }

-- MSTI_PortConfig.
pub record MstiPortConfig : Type 0 where
  pub port_priority : Option ℕ
  pub admin_internal_port_path_cost : Option ℕ

-- GET_PRIORITY_FROM_IDENTIFIER at a port identifier.
abbrev pub port_priority_of : ℕ → ℕ
port_priority_of id = id / 2 ^ 12 % 16 * 16

abbrev pub priority_allowed : Option ℕ → Bool
priority_allowed none = true
priority_allowed (some p) = not (ltb 15 p)

unfoldable pub set_port_priority : Option ℕ → PerTreePort → PerTreePort × Bool
set_port_priority none p = (p, false)
set_port_priority (some k) p =
    if port_priority_of p.port_id == k * 16 % 256
    then (p, false)
    else (record p { port_id = set_priority_in_port_id (k * 16 % 256) p.port_id }, true)

unfoldable pub set_admin_internal_cost : Option ℕ → ℕ → PerTreePort → PerTreePort × Bool
set_admin_internal_cost none speed p = (p, false)
set_admin_internal_cost (some c) speed p = (
  record p { admin_internal_port_path_cost = c; internal_port_path_cost = cost_of c speed },
  not (p.internal_port_path_cost == cost_of c speed),
)

-- MSTP_IN_set_msti_port_config, for an entry of the port.
unfoldable pub set_msti_port_config : MstiPortConfig → ℕ → Port → PerTreePort → Outcome PerTreePort
set_msti_port_config cfg speed prt p =
    if not (priority_allowed cfg.port_priority)
      || not (cost_allowed cfg.admin_internal_port_path_cost)
    then reject p
    else let a = set_port_priority cfg.port_priority p in
      let b = set_admin_internal_cost cfg.admin_internal_port_path_cost speed a.0 in
      let changed = (a.1 || b.1) && prt.port_enabled in
      record {
        accepted = true;
        state = if changed then ask_reselect b.0 else b.0;
        call = call_if changed;
      }

abbrev pub start_mcheck : PortNode → PortNode
start_mcheck n = record n {
  port = record (n.port) { mcheck = true };
  cist = record (n.cist) { proposing = true };
}

abbrev pub may_mcheck : Bridge → PortNode → Bool
may_mcheck br n = rstp_version br.force_protocol_version && n.port.port_enabled && br.bridge_enabled

-- MSTP_IN_port_mcheck.
unfoldable pub port_mcheck : Bridge → PortNode → Outcome PortNode
port_mcheck br n = record {
  accepted = true;
  state = if may_mcheck br n then start_mcheck n else n;
  call = call_if (may_mcheck br n);
}
