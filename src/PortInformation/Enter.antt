-- ===== src/PortInformation/Enter.antt =====
-- mstp.c: the functions `PISM_to_X`, without the call of `PISM_run` at their end.
use mstpd.Prelude.{true, false, not, ◌&&◌, ◌||◌}
use mstpd.Enums.{PismState, InfoOrigin}
use mstpd.PortInformation.View.{InfoView, is_cist, better_or_same_info, rcv_info}
use mstpd.PortInformation.Record.{
  record_agreement, record_dispute, record_mastered, record_priority, record_proposal, record_times,
  set_tc_flags, updt_rcvd_info_while,
}

unfoldable pub to_disabled : InfoView → InfoView
to_disabled v = record v {
  me = record (v.me) {
    pism_state = PismState.disabled;
    rcvd_msg = false;
    proposing = false;
    proposed = false;
    agree = false;
    agreed = false;
    rcvd_info_while = 0;
    info_is = InfoOrigin.disabled;
    reselect = true;
    selected = false;
  };
}

unfoldable pub to_aged : InfoView → InfoView
to_aged v = record v {
  me = record (v.me) {
    pism_state = PismState.aged;
    info_is = InfoOrigin.aged;
    reselect = true;
    selected = false;
  };
}

unfoldable pub to_update : InfoView → InfoView
to_update v =
    let agreed = v.me.agreed && better_or_same_info v.me InfoOrigin.mine in
    record v {
      me = record (v.me) {
        pism_state = PismState.update;
        proposing = false;
        proposed = false;
        agreed = agreed;
        synced = v.me.synced && agreed;
        port_priority = v.me.designated_priority;
        port_times = v.me.designated_times;
        updt_info = false;
        info_is = InfoOrigin.mine;
      };
      port = record (v.port) {
        new_info = is_cist v || v.port.new_info;
        new_info_msti = not (is_cist v) || v.port.new_info_msti;
      };
    }

-- Which message a port keeps: the lines between setting `infoInternal` and `recordAgreement`.
unfoldable pub take_superior : InfoView → InfoView
take_superior v =
    let p = set_tc_flags (
      record_proposal (record v {
        port = record (v.port) { info_internal = v.port.rcvd_internal };
        me = record (v.me) { agreed = false; proposing = false };
      })) in
    record_agreement (record p {
      me = record (p.me) { agree = p.me.agree && better_or_same_info p.me InfoOrigin.received };
    })

unfoldable pub to_superior_designated : InfoView → InfoView
to_superior_designated v =
    let a = take_superior v in
    let w = updt_rcvd_info_while (
      record_times (
        record_priority
          (record a { me = record (a.me) { synced = a.me.synced && a.me.agreed } }))) in
    record w {
      me = record (w.me) {
        pism_state = PismState.superior_designated;
        info_is = InfoOrigin.received;
        reselect = true;
        selected = false;
        rcvd_msg = false;
      };
    }

unfoldable pub to_repeated_designated : InfoView → InfoView
to_repeated_designated v =
    let w = updt_rcvd_info_while (
      record_agreement (
        set_tc_flags (
          record_proposal
            (record v { port = record (v.port) { info_internal = v.port.rcvd_internal } })))) in
    record w { me = record (w.me) { pism_state = PismState.repeated_designated; rcvd_msg = false } }

unfoldable pub to_inferior_designated : InfoView → InfoView
to_inferior_designated v =
    let w = record_dispute v in
    record w { me = record (w.me) { pism_state = PismState.inferior_designated; rcvd_msg = false } }

unfoldable pub to_not_designated : InfoView → InfoView
to_not_designated v =
    let w = set_tc_flags (record_agreement v) in
    record w { me = record (w.me) { pism_state = PismState.not_designated; rcvd_msg = false } }

unfoldable pub to_other : InfoView → InfoView
to_other v = record v { me = record (v.me) { pism_state = PismState.other; rcvd_msg = false } }

unfoldable pub to_current : InfoView → InfoView
to_current v = record v { me = record (v.me) { pism_state = PismState.current } }

unfoldable pub to_receive : InfoView → InfoView
to_receive v =
    let w = record_mastered (rcv_info v) in
    record w { me = record (w.me) { pism_state = PismState.receive } }

unfoldable pub enter : PismState → InfoView → InfoView
unfolding to_disabled to_aged to_update to_superior_designated to_repeated_designated
    to_inferior_designated to_not_designated to_other to_current to_receive
enter PismState.disabled v = to_disabled v
enter PismState.aged v = to_aged v
enter PismState.update v = to_update v
enter PismState.superior_designated v = to_superior_designated v
enter PismState.repeated_designated v = to_repeated_designated v
enter PismState.inferior_designated v = to_inferior_designated v
enter PismState.not_designated v = to_not_designated v
enter PismState.other v = to_other v
enter PismState.current v = to_current v
enter PismState.receive v = to_receive v
