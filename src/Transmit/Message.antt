-- ===== src/Transmit/Message.antt =====
-- mstp.c: txConfig, txMstp and txTcn, which fill a BPDU and hand it to `MSTP_OUT_tx_bpdu`. The
-- fields that the C code leaves as they are on the stack lie behind the octets that are sent, and
-- are 0 here.
use mstpd.Prelude.{
  ℕ, ◌+◌, ◌*◌, ◌%◌, ◌^◌, Bool, not, ◌&&◌, ◌||◌, List, [], ◌∷◌, ◌++◌, map, bit, ltb, ◌==◌, length,
  if◌then◌else◌,
}
use mstpd.Vector.{get_priority_from_bridge_id, get_priority_from_port_id}
use mstpd.Enums.{
  PortRole, same_role, proto_stp, proto_rstp, proto_mstp, bpdu_type_config, bpdu_type_rst,
  bpdu_type_tcn,
}
use mstpd.Types.{
  WireTime, MstiMessage, Bpdu, Bridge, Port, PerTreePort, Output, PortNode, has_flag, offset_tc,
  offset_proposal, offset_role, offset_learning, offset_forwarding, offset_agreement, offset_tc_ack,
  offset_master,
}

-- TCN_BPDU_SIZE, CONFIG_BPDU_SIZE, RST_BPDU_SIZE, MST_BPDU_SIZE_WO_MSTI_MSGS,
-- MST_BPDU_VER3LEN_WO_MSTI_MSGS and the size of an MSTI message.
abbrev pub tcn_bpdu_size : ℕ
tcn_bpdu_size = 4

abbrev pub config_bpdu_size : ℕ
config_bpdu_size = 35

abbrev pub rst_bpdu_size : ℕ
rst_bpdu_size = 36

abbrev pub mst_bpdu_size_wo_msti_msgs : ℕ
mst_bpdu_size_wo_msti_msgs = 102

abbrev pub mst_bpdu_ver3len_wo_msti_msgs : ℕ
mst_bpdu_ver3len_wo_msti_msgs = 64

abbrev pub msti_message_size : ℕ
msti_message_size = 16

-- message_role_from_port_role.
unfoldable pub message_role_from_port_role : PortRole → ℕ
message_role_from_port_role PortRole.root = 2
message_role_from_port_role PortRole.designated = 3
message_role_from_port_role PortRole.alternate = 1
message_role_from_port_role PortRole.backup = 1
message_role_from_port_role PortRole.master = 0
message_role_from_port_role PortRole.disabled = 1

-- The flags of an RST or MST BPDU, for the CIST. Every flag is a bit of its own, so `|=` is a sum.
unfoldable pub cist_flags : PerTreePort → ℕ
cist_flags p =
    message_role_from_port_role p.role * 2 ^ offset_role
    + bit (not (p.tc_while == 0)) * 2 ^ offset_tc
    + bit p.proposing * 2 ^ offset_proposal
    + bit p.learning * 2 ^ offset_learning
    + bit p.forwarding * 2 ^ offset_forwarding
    + bit p.agree * 2 ^ offset_agreement

-- The flags of an MSTI message.
unfoldable pub msti_flags : PerTreePort → ℕ
msti_flags p = cist_flags p + bit p.master * 2 ^ offset_master

-- The flags of a Configuration BPDU.
unfoldable pub config_flags : Port → PerTreePort → ℕ
config_flags prt cist =
    bit (not (cist.tc_while == 0)) * 2 ^ offset_tc + bit prt.tc_ack * 2 ^ offset_tc_ack

abbrev pub whole_seconds : ℕ → WireTime
whole_seconds s = record { seconds = s; fraction = 0 }

-- The part that all BPDUs but the TCN share: identifiers and times of the CIST.
abbrev pub common_bpdu : PerTreePort → ℕ → ℕ → ℕ → ℕ → Bpdu
common_bpdu cist version type flags r_root = record {
  protocol_identifier = 0;
  protocol_version = version;
  bpdu_type = type;
  flags = flags;
  cist_root_id = cist.designated_priority.root_id;
  cist_ext_root_path_cost = cist.designated_priority.ext_root_path_cost;
  cist_r_root_id = r_root;
  cist_port_id = cist.designated_priority.designated_port_id;
  message_age = whole_seconds cist.designated_times.message_age;
  max_age = whole_seconds cist.designated_times.max_age;
  hello_time = whole_seconds cist.port_times.hello_time;
  forward_delay = whole_seconds cist.designated_times.forward_delay;
  version1_len = 0;
  version3_len = 0;
  mst_configuration_identifier = 0;
  cist_int_root_path_cost = 0;
  cist_bridge_id = 0;
  cist_remaining_hops = 0;
  mst_configuration = [];
}

unfoldable pub config_bpdu : PortNode → Bpdu
config_bpdu n =
    common_bpdu n.cist proto_stp bpdu_type_config (config_flags n.port n.cist)
      n.cist.designated_priority.designated_bridge_id

unfoldable pub rst_bpdu : PortNode → Bpdu
rst_bpdu n =
    common_bpdu n.cist proto_rstp bpdu_type_rst (cist_flags n.cist)
      n.cist.designated_priority.r_root_id

unfoldable pub msti_message : PerTreePort → MstiMessage
msti_message p = record {
  flags = msti_flags p;
  msti_r_root_id = p.designated_priority.r_root_id;
  msti_int_root_path_cost = p.designated_priority.int_root_path_cost;
  bridge_identifier_priority =
      get_priority_from_bridge_id p.designated_priority.designated_bridge_id;
  port_identifier_priority = get_priority_from_port_id p.designated_priority.designated_port_id;
  remaining_hops = p.designated_times.remaining_hops;
}

unfoldable pub mst_bpdu : Bridge → PortNode → Bpdu
mst_bpdu br n =
    record (common_bpdu n.cist proto_mstp bpdu_type_rst (cist_flags n.cist)
      n.cist.designated_priority.r_root_id) {
        version3_len =
            (mst_bpdu_ver3len_wo_msti_msgs + msti_message_size * length n.mstis) % 2 ^ 16;
        mst_configuration_identifier = br.mst_config_id;
        cist_int_root_path_cost = n.cist.designated_priority.int_root_path_cost;
        cist_bridge_id = n.cist.designated_priority.designated_bridge_id;
        cist_remaining_hops = n.cist.designated_times.remaining_hops;
        mst_configuration = map msti_message n.mstis;
      }

unfoldable pub tcn_bpdu : PortNode → Bpdu
tcn_bpdu n = common_bpdu n.cist proto_stp bpdu_type_tcn 0 0

-- The first test of the three functions.
abbrev pub is_silent : PortNode → Bool
is_silent n = n.port.deleted || same_role PortRole.disabled n.cist.role || n.port.dont_txmt_bpdu

-- The port, the bridge's parameters, and what was handed to the driver so far.
pub record TransmitView : Type 0 where
  pub node : PortNode
  pub bridge : Bridge
  pub out : List Output

-- The BPDUs that `num_tx_tcn` counts.
abbrev pub carries_tc : Bpdu → Bool
carries_tc b =
    (b.protocol_version == proto_stp && b.bpdu_type == bpdu_type_tcn) || has_flag offset_tc b.flags

-- `MSTP_OUT_tx_bpdu`, called unless the port is silent.
abbrev pub transmit : Bpdu → ℕ → TransmitView → TransmitView
transmit b size v = record v {
  node = record (v.node) {
    port = record (v.node.port) {
      num_tx_bpdu =
          if is_silent v.node
          then v.node.port.num_tx_bpdu
          else (v.node.port.num_tx_bpdu + 1) % 2 ^ 32;
      num_tx_tcn =
          if is_silent v.node || not (carries_tc b)
          then v.node.port.num_tx_tcn
          else (v.node.port.num_tx_tcn + 1) % 2 ^ 32;
    };
  };
  out = if is_silent v.node then v.out else v.out ++ (Output.tx_bpdu b size ∷ []);
}

-- 13.26.19.
unfoldable pub tx_config : TransmitView → TransmitView
tx_config v = transmit (config_bpdu v.node) config_bpdu_size v

-- The BPDU and the size that txMstp chooses.
abbrev pub mstp_bpdu : Bridge → PortNode → Bpdu
mstp_bpdu br n = if ltb br.force_protocol_version proto_mstp then rst_bpdu n else mst_bpdu br n

abbrev pub mstp_size : Bridge → PortNode → ℕ
mstp_size br n =
    if ltb br.force_protocol_version proto_mstp
    then rst_bpdu_size
    else mst_bpdu_size_wo_msti_msgs + msti_message_size * length n.mstis

-- 13.26.20.
unfoldable pub tx_mstp : TransmitView → TransmitView
tx_mstp v = transmit (mstp_bpdu v.bridge v.node) (mstp_size v.bridge v.node) v

-- 13.26.a.
unfoldable pub tx_tcn : TransmitView → TransmitView
tx_tcn v = transmit (tcn_bpdu v.node) tcn_bpdu_size v
