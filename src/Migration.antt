-- ===== src/Migration.antt =====
-- mstp.c, section 13.29: the Port Protocol Migration state machine (PPMSM).
--
-- `next` has the conditions of `PPMSM_run`, `enter` the functions `PPMSM_to_X`. After
-- PPMSM_to_CHECKING_RSTP the code does not call `PPMSM_run` again; after the other two it does.
pub mod Settle
use mstpd.Prelude.{
  ℕ, zero, suc, Bool, true, false, not, ◌&&◌, ◌||◌, Option, none, some, is_some, ◌==◌,
  if◌then◌else◌,
}
use mstpd.Enums.{PpmsmState, rstp_version}
use mstpd.Types.{Bridge, Port}

unfoldable pub to_checking_rstp : Bridge → Port → Port
to_checking_rstp br prt = record prt {
  ppmsm_state = PpmsmState.checking_rstp;
  mcheck = false;
  send_rstp = rstp_version br.force_protocol_version;
  mdelay_while = br.migrate_time;
}

unfoldable pub to_selecting_stp : Bridge → Port → Port
to_selecting_stp br prt = record prt {
  ppmsm_state = PpmsmState.selecting_stp;
  send_rstp = false;
  mdelay_while = br.migrate_time;
}

unfoldable pub to_sensing : Port → Port
to_sensing prt = record prt {
  ppmsm_state = PpmsmState.sensing;
  rcvd_rstp = false;
  rcvd_stp = false;
}

pub next_state : Bridge → PpmsmState → Port → Option PpmsmState
next_state br PpmsmState.checking_rstp p =
    if not (p.mdelay_while == br.migrate_time) && not p.port_enabled
    then some PpmsmState.checking_rstp
    else if 0 == p.mdelay_while
    then some PpmsmState.sensing
    else none
next_state br PpmsmState.selecting_stp p =
    if 0 == p.mdelay_while || not p.port_enabled || p.mcheck then some PpmsmState.sensing else none
next_state br PpmsmState.sensing p =
    if not p.port_enabled
      || p.mcheck
      || (rstp_version br.force_protocol_version && not p.send_rstp && p.rcvd_rstp)
    then some PpmsmState.checking_rstp
    else if p.send_rstp && p.rcvd_stp
    then some PpmsmState.selecting_stp
    else none

-- `PPMSM_run(prt, true)`.
unfoldable pub dry_run : Bridge → Port → Bool
unfolding next_state
dry_run br p = is_some (next_state br p.ppmsm_state p)

-- `PPMSM_run(prt, false)`; `none` if the fuel ran out.
unfoldable pub run : ℕ → Bridge → Port → Option Port
unfolding next_state to_checking_rstp to_selecting_stp to_sensing
run zero br p = none
run (suc fuel) br p = elim (next_state br p.ppmsm_state p) [
  | none ↦ some p
  | some PpmsmState.checking_rstp ↦ some (to_checking_rstp br p)
  | some PpmsmState.selecting_stp ↦ run fuel br (to_selecting_stp br p)
  | some PpmsmState.sensing ↦ run fuel br (to_sensing p)
]
