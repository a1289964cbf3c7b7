-- ===== src/Types.antt =====
-- mstp.h: the structures of the protocol's state.
--
-- `per_tree_port_t` is `PerTreePort`, `port_t` is `Port`, `tree_t` is `Tree` and the parameters of
-- `bridge_t` are `Bridge`, without list heads and back pointers. A received BPDU is `Bpdu`. Unsigned
-- numbers are ℕ.
use mstpd.Prelude.{ℕ, ◌/◌, ◌%◌, ◌^◌, Bool, List, ◌==◌}
use mstpd.Vector.{PriorityVector, Times}
use mstpd.Enums.{
  BrState, PortInfo, InfoOrigin, PortRole, AdminP2p, PrsmState, PpmsmState, BdsmState, PtsmState,
  PismState, PrtsmState, PstsmState, TcsmState, PrssmState,
}

-- Two octets `[0]` (seconds) and `[1]` (1/256 seconds) of a time in a BPDU.
pub record WireTime : Type 0 where
  pub seconds : ℕ
  pub fraction : ℕ

pub record MstiMessage : Type 0 where
  pub flags : ℕ
  pub msti_r_root_id : ℕ
  pub msti_int_root_path_cost : ℕ
  pub bridge_identifier_priority : ℕ
  pub port_identifier_priority : ℕ
  pub remaining_hops : ℕ

-- The configuration identifier is opaque to the state machines, which only compare it: its 51
-- octets as one number.
pub record Bpdu : Type 0 where
  pub protocol_identifier : ℕ
  pub protocol_version : ℕ
  pub bpdu_type : ℕ
  pub flags : ℕ
  pub cist_root_id : ℕ
  pub cist_ext_root_path_cost : ℕ
  pub cist_r_root_id : ℕ
  pub cist_port_id : ℕ
  pub message_age : WireTime
  pub max_age : WireTime
  pub hello_time : WireTime
  pub forward_delay : WireTime
  pub version1_len : ℕ
  pub version3_len : ℕ
  pub mst_configuration_identifier : ℕ
  pub cist_int_root_path_cost : ℕ
  pub cist_bridge_id : ℕ
  pub cist_remaining_hops : ℕ
  pub mst_configuration : List MstiMessage

-- bpduFlagOffset_t, and `flags & (1 << offset)`.
abbrev pub offset_tc : ℕ
offset_tc = 0

abbrev pub offset_proposal : ℕ
offset_proposal = 1

abbrev pub offset_role : ℕ
offset_role = 2

abbrev pub offset_learning : ℕ
offset_learning = 4

abbrev pub offset_forwarding : ℕ
offset_forwarding = 5

abbrev pub offset_agreement : ℕ
offset_agreement = 6

abbrev pub offset_tc_ack : ℕ
offset_tc_ack = 7

abbrev pub offset_master : ℕ
offset_master = 7

abbrev pub has_flag : ℕ → ℕ → Bool
has_flag offset flags = flags / 2 ^ offset % 2 == 1

-- BPDU_FLAGS_ROLE_GET.
abbrev pub flags_role : ℕ → ℕ
flags_role flags = flags / 2 ^ offset_role % 4

-- The per-bridge parameters that the state machines read.
pub record Bridge : Type 0 where
  pub bridge_enabled : Bool
  pub mst_config_id : ℕ
  pub force_protocol_version : ℕ
  pub max_hops : ℕ
  pub forward_delay : ℕ
  pub max_age : ℕ
  pub hello_time : ℕ
  pub transmit_hold_count : ℕ
  pub migrate_time : ℕ
  pub ageing_time : ℕ

pub record Tree : Type 0 where
  pub mstid : ℕ
  pub bridge_identifier : ℕ
  pub root_port_id : ℕ
  pub root_priority : PriorityVector
  pub bridge_priority : PriorityVector
  pub bridge_times : Times
  pub root_times : Times
  pub time_since_topology_change : ℕ
  pub topology_change_count : ℕ
  pub topology_change : Bool
  pub prssm_state : PrssmState

pub record Port : Type 0 where
  pub port_number : ℕ
  pub mdelay_while : ℕ
  pub hello_when : ℕ
  pub edge_delay_while : ℕ
  pub tx_count : ℕ
  pub oper_edge : Bool
  pub port_enabled : Bool
  pub info_internal : Bool
  pub rcvd_internal : Bool
  pub mcheck : Bool
  pub rcvd_bpdu : Bool
  pub rcvd_rstp : Bool
  pub rcvd_stp : Bool
  pub rcvd_tc_ack : Bool
  pub rcvd_tcn : Bool
  pub send_rstp : Bool
  pub tc_ack : Bool
  pub new_info : Bool
  pub new_info_msti : Bool
  pub oper_point_to_point_mac : Bool
  pub restricted_role : Bool
  pub restricted_tcn : Bool
  pub external_port_path_cost : ℕ
  pub admin_external_port_path_cost : ℕ
  pub admin_p2p : AdminP2p
  pub admin_edge_port : Bool
  pub auto_edge : Bool
  pub bpdu_guard_port : Bool
  pub bpdu_guard_error : Bool
  pub network_port : Bool
  pub ba_inconsistent : Bool
  pub dont_txmt_bpdu : Bool
  pub bpdu_filter_port : Bool
  pub rapid_ageing_while : ℕ
  pub br_assu_rcvd_info_while : ℕ
  pub prsm_state : PrsmState
  pub ppmsm_state : PpmsmState
  pub bdsm_state : BdsmState
  pub ptsm_state : PtsmState
  pub rcvd_bpdu_data : Bpdu
  pub rcvd_bpdu_num_of_mstis : ℕ
  pub deleted : Bool
  pub num_rx_bpdu_filtered : ℕ
  pub num_rx_bpdu : ℕ
  pub num_rx_tcn : ℕ
  pub num_tx_bpdu : ℕ
  pub num_tx_tcn : ℕ
  pub num_trans_fwd : ℕ
  pub num_trans_blk : ℕ

-- `rcvd_msti_config` is the message that the pointer `rcvdMstiConfig` points at.
pub record PerTreePort : Type 0 where
  pub mstid : ℕ
  pub state : BrState
  pub fd_while : ℕ
  pub rr_while : ℕ
  pub rb_while : ℕ
  pub tc_while : ℕ
  pub rcvd_info_while : ℕ
  pub agree : Bool
  pub agreed : Bool
  pub disputed : Bool
  pub forward : Bool
  pub forwarding : Bool
  pub learn : Bool
  pub learning : Bool
  pub rcvd_info : PortInfo
  pub info_is : InfoOrigin
  pub proposed : Bool
  pub proposing : Bool
  pub rcvd_msg : Bool
  pub rcvd_tc : Bool
  pub re_root : Bool
  pub reselect : Bool
  pub selected : Bool
  pub fdb_flush : Bool
  pub tc_prop : Bool
  pub updt_info : Bool
  pub sync : Bool
  pub synced : Bool
  pub port_id : ℕ
  pub role : PortRole
  pub selected_role : PortRole
  pub designated_priority : PriorityVector
  pub msg_priority : PriorityVector
  pub port_priority : PriorityVector
  pub designated_times : Times
  pub msg_times : Times
  pub port_times : Times
  pub master : Bool
  pub mastered : Bool
  pub internal_port_path_cost : ℕ
  pub admin_internal_port_path_cost : ℕ
  pub pism_state : PismState
  pub prtsm_state : PrtsmState
  pub pstsm_state : PstsmState
  pub tcsm_state : TcsmState
  pub called_from_flush_routine : Bool
  pub rcvd_msti_config : MstiMessage

-- What the protocol tells the driver: the calls of the MSTP_OUT_ functions, in order.
pub data Output : Type 0 where
  set_state : BrState → Output
  flush_all_fids : Output
  set_ageing_time : ℕ → Output
  tx_bpdu : Bpdu → ℕ → Output
  shutdown_port : Output

-- A port with the list of its per-tree structures, sorted by MSTID: `trees` of `port_t`. The first is
-- the CIST's.
pub record PortNode : Type 0 where
  pub port : Port
  pub cist : PerTreePort
  pub mstis : List PerTreePort
