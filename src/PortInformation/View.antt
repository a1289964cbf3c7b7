-- ===== src/PortInformation/View.antt =====
-- mstp.c: the state that the Port Information machine reads and writes, betterorsameInfo and rcvInfo.
use mstpd.Prelude.{
  ℕ, ◌+◌, ◌%◌, ◌^◌, Bool, true, false, not, ◌&&◌, ◌||◌, Option, none, some, List, map, ltb, ◌==◌,
  head_or, if◌then◌else◌,
}
use mstpd.Vector.{
  PriorityVector, Times, mac_address, set_bridge_priority, set_priority_in_bridge_id,
  set_priority_in_port_id, same_priority_and_timers, better_or_same_priority,
}
use mstpd.Enums.{
  PortInfo, InfoOrigin, same_origin, proto_stp, proto_rstp, proto_mstp, bpdu_type_tcn,
}
use mstpd.Types.{WireTime, Bpdu, flags_role, Bridge, Port, PerTreePort}

-- `ptp`, `ptp->port`, and the other per-tree ports of the port, sorted by MSTID: the MSTIs if `ptp`
-- is for the CIST, and else the CIST's entry first.
pub record InfoView : Type 0 where
  pub me : PerTreePort
  pub port : Port
  pub others : List PerTreePort
  pub bridge : Bridge

abbrev pub is_cist : InfoView → Bool
is_cist v = v.me.mstid == 0

-- GET_CIST_PTP_FROM_PORT.
abbrev pub cist_of : InfoView → PerTreePort
cist_of v = if is_cist v then v.me else head_or v.me v.others

-- 13.26.1.
unfoldable pub better_or_same_info : PerTreePort → InfoOrigin → Bool
better_or_same_info p InfoOrigin.received =
    same_origin InfoOrigin.received p.info_is
    && better_or_same_priority p.msg_priority p.port_priority 0 0 (p.mstid == 0)
better_or_same_info p InfoOrigin.mine =
    same_origin InfoOrigin.mine p.info_is
    && better_or_same_priority p.designated_priority p.port_priority 0 0 (p.mstid == 0)
better_or_same_info p _ = false

-- NEAREST_WHOLE_SECOND, kept in an octet.
abbrev pub nearest_whole_second : WireTime → ℕ
nearest_whole_second t = if ltb t.fraction 128 then t.seconds else (t.seconds + 1) % 2 ^ 8

-- Does a message with this encoded role convey a Designated Port Role? `none` if it is not to be
-- looked at. The roles are encoded as 0 for Master, 1 for Alternate and Backup, 2 for Root and 3 for
-- Designated. `unknown_is_designated` is the case of an RST BPDU with the role Master.
abbrev pub conveys_designated : ℕ → Bool → Option Bool
conveys_designated role unknown_is_designated =
    if role == 3
    then some true
    else if role == 0
    then (if unknown_is_designated then some true else none)
    else some false

abbrev pub cist_designated : Bpdu → Option Bool
cist_designated b =
    if b.protocol_version == proto_stp
    then some true
    else conveys_designated (flags_role b.flags) (b.protocol_version == proto_rstp)

abbrev pub msti_designated : Bpdu → PerTreePort → Option Bool
msti_designated b p =
    if ltb b.protocol_version proto_mstp
    then none
    else conveys_designated (flags_role p.rcvd_msti_config.flags) false

-- The message priority and times that rcvInfo reads from the BPDU in the CIST.
abbrev pub cist_priority : Bpdu → PriorityVector
cist_priority b = record {
  r_root_id = b.cist_r_root_id;
  int_root_path_cost = if ltb b.protocol_version proto_mstp then 0 else b.cist_int_root_path_cost;
  designated_bridge_id =
      if ltb b.protocol_version proto_mstp then b.cist_r_root_id else b.cist_bridge_id;
  designated_port_id = b.cist_port_id;
  root_id = b.cist_root_id;
  ext_root_path_cost = b.cist_ext_root_path_cost;
}

abbrev pub cist_times : Bridge → Bpdu → Times
cist_times br b = record {
  remaining_hops = if ltb b.protocol_version proto_mstp then br.max_hops else b.cist_remaining_hops;
  forward_delay = nearest_whole_second b.forward_delay;
  max_age = nearest_whole_second b.max_age;
  message_age = nearest_whole_second b.message_age;
  hello_time = nearest_whole_second b.hello_time;
}

-- In an MSTI the vector keeps its external part, and the times all but the hops.
abbrev pub msti_priority : Bpdu → PerTreePort → PriorityVector
msti_priority b p = record (p.msg_priority) {
  r_root_id = p.rcvd_msti_config.msti_r_root_id;
  int_root_path_cost = p.rcvd_msti_config.msti_int_root_path_cost;
  designated_bridge_id =
      set_priority_in_bridge_id p.rcvd_msti_config.bridge_identifier_priority
        (set_bridge_priority p.mstid b.cist_bridge_id);
  designated_port_id =
      set_priority_in_port_id p.rcvd_msti_config.port_identifier_priority b.cist_port_id;
}

abbrev pub msti_times : PerTreePort → Times
msti_times p = record (p.msg_times) { remaining_hops = p.rcvd_msti_config.remaining_hops }

-- The same bridge address and the same port number.
abbrev pub same_sender : PriorityVector → PriorityVector → Bool
same_sender a b =
    mac_address a.designated_bridge_id == mac_address b.designated_bridge_id
    && a.designated_port_id % 2 ^ 12 == b.designated_port_id % 2 ^ 12

-- rcvInfo, from `msg_Better_port = ...` to its end: `msg` and `times` are the message's.
unfoldable pub message_info : Bool → PerTreePort → PriorityVector → Times → PortInfo
message_info designated p msg times =
    let cist = p.mstid == 0 in
    let better = not (better_or_same_priority p.port_priority msg 0 0 cist) in
    let same = same_priority_and_timers msg p.port_priority times p.port_times cist in
    if designated
    then if better || same_sender msg p.port_priority
      then PortInfo.superior_designated_info
      else if not same && better_or_same_priority msg p.port_priority 0 0 cist
      then PortInfo.superior_designated_info
      else if same && same_origin p.info_is InfoOrigin.received
      then PortInfo.repeated_designated_info
      else PortInfo.inferior_designated_info
    else if not better
    then PortInfo.inferior_root_alternate_info
    else PortInfo.other_info

-- What rcvInfo answers and what it writes into `msgPriority` and `msgTimes`. `tcn` says that the
-- BPDU is a TCN, which sets `rcvdTcn` and, in every tree of the port, `rcvdTc`.
pub record Reading : Type 0 where
  pub info : PortInfo
  pub priority : PriorityVector
  pub times : Times
  pub tcn : Bool

abbrev pub unread : PerTreePort → Bool → Reading
unread p tcn = record {
  info = PortInfo.other_info;
  priority = p.msg_priority;
  times = p.msg_times;
  tcn = tcn;
}

abbrev pub read_message : PerTreePort → Option Bool → PriorityVector → Times → Reading
read_message p none msg times = unread p false
read_message p (some d) msg times = record {
  info = message_info d p msg times;
  priority = msg;
  times = times;
  tcn = false;
}

-- 13.26.6.
unfoldable pub reading : Bridge → Port → PerTreePort → Reading
reading br prt p =
    let b = prt.rcvd_bpdu_data in
    if b.bpdu_type == bpdu_type_tcn
    then unread p true
    else if p.mstid == 0
    then read_message p (cist_designated b) (cist_priority b) (cist_times br b)
    else read_message p (msti_designated b p) (msti_priority b p) (msti_times p)

unfoldable pub rcv_info : InfoView → InfoView
rcv_info v =
    let r = reading v.bridge v.port v.me in
    record v {
      me = record (v.me) {
        rcvd_info = r.info;
        msg_priority = r.priority;
        msg_times = r.times;
        rcvd_tc = r.tcn || v.me.rcvd_tc;
      };
      port = record (v.port) { rcvd_tcn = r.tcn || v.port.rcvd_tcn };
      others = map (λ (p : PerTreePort). record p { rcvd_tc = r.tcn || p.rcvd_tc }) v.others;
    }
