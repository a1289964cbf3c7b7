-- ===== src/PortInformation/Record.antt =====
-- mstp.c: the functions that note what a message says, sections 13.26.7 to 13.26.11, setTcFlags and
-- updtRcvdInfoWhile.
use mstpd.Prelude.{
  ℕ, ◌+◌, ◌*◌, Bool, false, not, ◌&&◌, ◌||◌, List, map, ltb, leb, ◌==◌, if◌then◌else◌,
}
use mstpd.Enums.{rstp_version}
use mstpd.Types.{
  PerTreePort, has_flag, offset_tc, offset_proposal, offset_learning, offset_agreement,
  offset_tc_ack, offset_master,
}
use mstpd.PortInformation.View.{InfoView, is_cist, cist_of}

-- The flags of the BPDU for the CIST, and those of the tree's message for an MSTI.
abbrev pub own_flags : InfoView → ℕ
own_flags v = if is_cist v then v.port.rcvd_bpdu_data.flags else v.me.rcvd_msti_config.flags

-- What the CIST's machine does to the MSTIs when the message is from outside the region.
abbrev pub for_mstis : InfoView → (PerTreePort → PerTreePort) → List PerTreePort
for_mstis v f = if is_cist v && not v.port.rcvd_internal then map f v.others else v.others

-- The condition under which recordAgreement sets `agreed`.
abbrev pub message_agrees : InfoView → Bool
message_agrees v =
    v.port.oper_point_to_point_mac
    && has_flag offset_agreement (own_flags v)
    && (if is_cist v
        then rstp_version v.bridge.force_protocol_version
        else v.port.rcvd_bpdu_data.cist_root_id == (cist_of v).port_priority.root_id
          && v.port.rcvd_bpdu_data.cist_ext_root_path_cost
            == (cist_of v).port_priority.ext_root_path_cost
          && v.port.rcvd_bpdu_data.cist_r_root_id == (cist_of v).port_priority.r_root_id)

-- 13.26.7.
unfoldable pub record_agreement : InfoView → InfoView
record_agreement v = record v {
  me = record (v.me) {
    agreed = message_agrees v;
    proposing = not (message_agrees v) && v.me.proposing;
  };
  others = for_mstis v (λ (p : PerTreePort). record p {
    agreed = message_agrees v;
    proposing = not (message_agrees v) && v.me.proposing;
  });
}

-- 13.26.8.
unfoldable pub record_dispute : InfoView → InfoView
record_dispute v =
    let d = has_flag offset_learning (own_flags v) in
    record v {
      me = record (v.me) { disputed = d || v.me.disputed; agreed = not d && v.me.agreed };
      others = for_mstis v (λ (p : PerTreePort). record p {
        disputed = d || p.disputed;
        agreed = not d && p.agreed;
      });
    }

-- 13.26.9.
unfoldable pub record_mastered : InfoView → InfoView
record_mastered v = record v {
  me = record (v.me) {
    mastered =
        if is_cist v
        then v.me.mastered
        else v.port.oper_point_to_point_mac && has_flag offset_master v.me.rcvd_msti_config.flags;
  };
  others = for_mstis v (λ (p : PerTreePort). record p { mastered = false });
}

-- 13.26.f.
unfoldable pub record_priority : InfoView → InfoView
record_priority v = record v { me = record (v.me) { port_priority = v.me.msg_priority } }

-- 13.26.10.
unfoldable pub record_proposal : InfoView → InfoView
record_proposal v =
    let proposed = has_flag offset_proposal (own_flags v) || v.me.proposed in
    record v {
      me = record (v.me) { proposed = proposed };
      others = for_mstis v (λ (p : PerTreePort). record p { proposed = proposed });
    }

-- 13.26.11. The configured `Hello_Time` stays.
unfoldable pub record_times : InfoView → InfoView
record_times v = record v {
  me = record (v.me) {
    port_times = record (v.me.msg_times) { hello_time = v.me.port_times.hello_time };
  };
}

-- 13.26.16. For the MSTIs the code sets `proposed`.
unfoldable pub set_tc_flags : InfoView → InfoView
set_tc_flags v =
    let tc = has_flag offset_tc (own_flags v) in
    record v {
      me = record (v.me) { rcvd_tc = tc || v.me.rcvd_tc };
      port = record (v.port) {
        rcvd_tc_ack = (is_cist v && has_flag offset_tc_ack (own_flags v)) || v.port.rcvd_tc_ack;
      };
      others = for_mstis v (λ (p : PerTreePort). record p { proposed = tc || p.proposed });
    }

-- 13.26.22.
unfoldable pub updt_rcvd_info_while : InfoView → InfoView
updt_rcvd_info_while v =
    let t = (cist_of v).port_times in
    record v {
      me = record (v.me) {
        rcvd_info_while =
            if (not v.port.rcvd_internal && leb (t.message_age + 1) t.max_age)
              || (v.port.rcvd_internal && ltb 1 v.me.port_times.remaining_hops)
            then 3 * t.hello_time
            else 0;
      };
    }
