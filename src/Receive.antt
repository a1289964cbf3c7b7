-- ===== src/Receive.antt =====
-- mstp.c, section 13.28: the Port Receive state machine (PRSM), with updtBPDUVersion,
-- fromSameRegion, setRcvdMsgs and clearAllRcvdMsgs.
pub mod OneCall
use mstpd.Prelude.{
  ℕ, zero, suc, ◌/◌, ◌%◌, ◌^◌, Bool, true, false, not, ◌&&◌, ◌||◌, Option, none, some, List, [],
  ◌∷◌, map, any_of, ltb, leb, ◌==◌, if◌then◌else◌,
}
use mstpd.Enums.{PrsmState, proto_rstp, proto_mstp}
use mstpd.Types.{Bpdu, MstiMessage, Bridge, Port, PerTreePort, PortNode}

-- 13.26.2, the dry run: has some tree of the port a received message?
unfoldable pub any_rcvd_msg : PortNode → Bool
any_rcvd_msg n = n.cist.rcvd_msg || any_of (λ p. p.rcvd_msg) n.mstis

-- 13.26.2, the actual run.
unfoldable pub clear_all_rcvd_msgs : PortNode → PortNode
clear_all_rcvd_msgs n = record n {
  cist = record (n.cist) { rcvd_msg = false };
  mstis = map (λ (p : PerTreePort). record p { rcvd_msg = false }) n.mstis;
}

-- 13.26.4.
unfoldable pub from_same_region : Bridge → Port → Bool
from_same_region br prt =
    if ltb prt.rcvd_bpdu_data.protocol_version proto_mstp
    then false
    else br.mst_config_id == prt.rcvd_bpdu_data.mst_configuration_identifier

-- 13.26.21.
unfoldable pub updt_bpdu_version : Port → Port
updt_bpdu_version prt =
    if leb proto_rstp prt.rcvd_bpdu_data.protocol_version
    then record prt { rcvd_rstp = true }
    else record prt { rcvd_stp = true }

-- The MSTID that a message speaks of.
abbrev pub message_mstid : MstiMessage → ℕ
message_mstid m = m.msti_r_root_id / 2 ^ 48 % 2 ^ 12

-- The first of the first `count` messages that is for the tree.
unfoldable pub find_message : ℕ → ℕ → List MstiMessage → Option MstiMessage
find_message mstid zero ms = none
find_message mstid (suc count) [] = none
find_message mstid (suc count) (m ∷ ms) =
    let rest = find_message mstid count ms in if message_mstid m == mstid then some m else rest

-- One round of the loop of setRcvdMsgs.
unfoldable pub take_message : Port → PerTreePort → PerTreePort
take_message prt p =
    elim (find_message p.mstid prt.rcvd_bpdu_num_of_mstis prt.rcvd_bpdu_data.mst_configuration) [
      | none ↦ p
      | some m ↦ record p { rcvd_msg = true; rcvd_msti_config = m }
    ]

-- 13.26.12.
unfoldable pub set_rcvd_msgs : PortNode → PortNode
set_rcvd_msgs n = record n {
  cist = record (n.cist) { rcvd_msg = true };
  mstis = if n.port.rcvd_internal then map (take_message n.port) n.mstis else n.mstis;
}

unfoldable pub to_discard : Bridge → PortNode → PortNode
to_discard br n =
    let m = clear_all_rcvd_msgs n in
    record m {
      port = record (m.port) {
        prsm_state = PrsmState.discard;
        rcvd_bpdu = false;
        rcvd_rstp = false;
        rcvd_stp = false;
        edge_delay_while = br.migrate_time;
      };
    }

abbrev pub is_discard : PrsmState → Bool
is_discard PrsmState.discard = true
is_discard _ = false

-- `PRSM_to_DISCARD(prt, true)`.
unfoldable pub to_discard_dry : Bridge → PortNode → Bool
to_discard_dry br n =
    not (is_discard n.port.prsm_state)
    || n.port.rcvd_bpdu
    || n.port.rcvd_rstp
    || n.port.rcvd_stp
    || not (n.port.edge_delay_while == br.migrate_time)
    || any_rcvd_msg n

unfoldable pub to_receive : Bridge → PortNode → PortNode
to_receive br n =
    let p = updt_bpdu_version n.port in
    let m = set_rcvd_msgs (record n {
      port = record p { prsm_state = PrsmState.receive; rcvd_internal = from_same_region br p };
    }) in
    record m {
      port = record (m.port) {
        oper_edge = false;
        rcvd_bpdu = false;
        edge_delay_while = br.migrate_time;
      };
    }

-- Does the switch of `PRSM_run` call `PRSM_to_RECEIVE`?
abbrev pub receives : PrsmState → PortNode → Bool
receives PrsmState.discard n = n.port.rcvd_bpdu && n.port.port_enabled
receives PrsmState.receive n = n.port.rcvd_bpdu && n.port.port_enabled && not (any_rcvd_msg n)

-- The first test of `PRSM_run`.
abbrev pub discards : Bridge → PortNode → Bool
discards br n =
    (n.port.rcvd_bpdu || not (n.port.edge_delay_while == br.migrate_time))
    && not n.port.port_enabled

-- `PRSM_run(prt, true)`.
unfoldable pub dry_run : Bridge → PortNode → Bool
dry_run br n = if discards br n then to_discard_dry br n else receives n.port.prsm_state n

-- `PRSM_run(prt, false)`.
unfoldable pub run : Bridge → PortNode → PortNode
run br n =
    if discards br n
    then to_discard br n
    else if receives n.port.prsm_state n
    then to_receive br n
    else n
