-- ===== src/BpduReceipt.antt =====
-- mstp.c: MSTP_IN_rx_bpdu, by which a BPDU comes in from the driver, with its validation (14.4).
pub mod Accept
use mstpd.Prelude.{
  ℕ, ◌+◌, ◌-◌, ◌*◌, ◌/◌, ◌%◌, ◌^◌, Bool, true, false, not, ◌&&◌, ◌||◌, Option, none, some, ltb, leb,
  ◌==◌, if◌then◌else◌,
}
use mstpd.Enums.{proto_stp, proto_rstp, proto_mstp, bpdu_type_config, bpdu_type_rst, bpdu_type_tcn}
use mstpd.Types.{Bpdu, Bridge, Port, PerTreePort, PortNode, has_flag, offset_tc}
use mstpd.Transmit.Message.{
  tcn_bpdu_size, config_bpdu_size, rst_bpdu_size, mst_bpdu_size_wo_msti_msgs,
  mst_bpdu_ver3len_wo_msti_msgs, msti_message_size, carries_tc,
}

-- MAX_STANDARD_MSTIS.
abbrev pub max_standard_mstis : ℕ
max_standard_mstis = 64

-- `mstis_size`, where it is not negative.
abbrev pub mstis_size : Bpdu → ℕ
mstis_size b = b.version3_len - mst_bpdu_ver3len_wo_msti_msgs

-- The negation of the condition under which 14.4.d takes an MST BPDU for an RST BPDU.
unfoldable pub is_mst_bpdu : Bpdu → ℕ → Bool
is_mst_bpdu b size =
    leb mst_bpdu_size_wo_msti_msgs size
    && b.version1_len == 0
    && leb mst_bpdu_ver3len_wo_msti_msgs b.version3_len
    && leb (mstis_size b) (max_standard_mstis * msti_message_size)
    && mstis_size b % msti_message_size == 0

abbrev pub with_version : ℕ → Bpdu → Bpdu
with_version version b = record b { protocol_version = version }

-- The case of the switch for an RST or MST BPDU.
unfoldable pub validate_rst : Bpdu → ℕ → Option Bpdu
validate_rst b size =
    if b.protocol_version == proto_rstp
    then (if ltb size rst_bpdu_size then none else some b)
    else if ltb b.protocol_version proto_mstp
    then none
    else if ltb size config_bpdu_size
    then none
    else if is_mst_bpdu b size
    then some (with_version proto_mstp b)
    else some (with_version proto_rstp b)

-- 14.4: the BPDU with its effective version, or `none` if the validation fails.
unfoldable pub validate : Bpdu → ℕ → Option Bpdu
validate b size =
    if ltb size tcn_bpdu_size || not (b.protocol_identifier == 0)
    then none
    else if b.bpdu_type == bpdu_type_tcn
    then some (with_version proto_stp b)
    else if b.bpdu_type == bpdu_type_config
    then (if ltb size config_bpdu_size then none else some (with_version proto_stp b))
    else if b.bpdu_type == bpdu_type_rst
    then validate_rst b size
    else none

-- How MSTP_IN_rx_bpdu ends. On `guarded` it has called `MSTP_OUT_shutdown_port`, and on `accepted`
-- it goes on to `br_state_machines_run`.
pub data Receipt : Type 0 where
  guarded filtered bridge_disabled busy invalid accepted : Receipt

-- What a valid BPDU does to the port; `cist` is the port's CIST entry.
unfoldable pub store : Bpdu → PerTreePort → Port → Port
store b cist prt = record prt {
  rcvd_bpdu_num_of_mstis =
      if b.protocol_version == proto_mstp
      then mstis_size b / msti_message_size
      else prt.rcvd_bpdu_num_of_mstis;
  num_rx_tcn = if carries_tc b then (prt.num_rx_tcn + 1) % 2 ^ 32 else prt.num_rx_tcn;
  rcvd_bpdu_data = b;
  rcvd_bpdu = true;
  ba_inconsistent = false;
  br_assu_rcvd_info_while = 3 * cist.port_times.hello_time;
}

-- The checks behind the first count, in their order, and what they leave behind.
unfoldable pub rx_bpdu : Bridge → PerTreePort → Bpdu → ℕ → Port → Port × Receipt
rx_bpdu br cist bpdu size prt =
    let p = record prt { num_rx_bpdu = (prt.num_rx_bpdu + 1) % 2 ^ 32 } in
    if p.bpdu_guard_port
    then (record p { bpdu_guard_error = true }, Receipt.guarded)
    else if p.bpdu_filter_port
    then (
      record p { num_rx_bpdu_filtered = (p.num_rx_bpdu_filtered + 1) % 2 ^ 32 },
      Receipt.filtered,
    )
    else if not br.bridge_enabled
    then (p, Receipt.bridge_disabled)
    else if p.rcvd_bpdu
    then (p, Receipt.busy)
    else elim (validate bpdu size) [
      | none ↦ (p, Receipt.invalid)
      | some b ↦ (store b cist p, Receipt.accepted)
    ]
