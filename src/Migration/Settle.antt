-- ===== src/Migration/Settle.antt =====
-- mstp.c, PPMSM_run: on the end of its recursion, with the whole chain of calls in closed form.
use mathlib.Core.Path.{refl}
use mstpd.Prelude.{ℕ, suc, ◌≡◌, ◌≢◌, true, false, not, ◌&&◌, ◌||◌, some, arith, ◌==◌, if◌then◌else◌}
use mstpd.Enums.{PpmsmState, rstp_version}
use mstpd.Types.{Bridge, Port}
use mstpd.Migration.{dry_run, run, to_checking_rstp, to_selecting_stp, to_sensing}

-- From SENSING with both flags just cleared.
abbrev pub sensed : Bridge → Port → Port
sensed br p =
    if not p.port_enabled || p.mcheck then to_checking_rstp br (to_sensing p) else to_sensing p

-- The port after the chain of calls: a disabled port or one told to check again migrates back, a
-- port whose delay ran out senses, and a sensing port follows the kind of BPDU that it received.
abbrev pub settled : Bridge → PpmsmState → Port → Port
settled br PpmsmState.checking_rstp p =
    if not (p.mdelay_while == br.migrate_time) && not p.port_enabled
    then to_checking_rstp br p
    else if 0 == p.mdelay_while
    then sensed br p
    else p
settled br PpmsmState.selecting_stp p =
    if 0 == p.mdelay_while || not p.port_enabled || p.mcheck then sensed br p else p
settled br PpmsmState.sensing p =
    if not p.port_enabled
      || p.mcheck
      || (rstp_version br.force_protocol_version && not p.send_rstp && p.rcvd_rstp)
    then to_checking_rstp br p
    else if p.send_rstp && p.rcvd_stp
    then to_selecting_stp br p
    else p

pub run-settled :
    (k : ℕ) (br : Bridge) (p : Port) (s : PpmsmState)
    → p.ppmsm_state ≡ s
    → br.migrate_time ≢ 0
    → run (suc (suc (suc k))) br p ≡ some (settled br s p)
unfolding run
run-settled k br p PpmsmState.checking_rstp s m = ground arith
run-settled k br p PpmsmState.selecting_stp s m = ground arith
run-settled k br p PpmsmState.sensing s m = ground arith

dry_run-settled :
    (br : Bridge) (p : Port) (s : PpmsmState)
    → p.ppmsm_state ≡ s
    → br.migrate_time ≢ 0
    → dry_run br (settled br s p) ≡ false
unfolding dry_run to_checking_rstp to_selecting_stp to_sensing
dry_run-settled br p PpmsmState.checking_rstp s m = ground arith
dry_run-settled br p PpmsmState.selecting_stp s m = ground arith
dry_run-settled br p PpmsmState.sensing s m = ground arith

version-settled :
    (br : Bridge) (p : Port) (s : PpmsmState)
    → (p.send_rstp ≡ true → rstp_version br.force_protocol_version ≡ true)
    → ((settled br s p).send_rstp && not (rstp_version br.force_protocol_version)) ≡ false
unfolding to_checking_rstp to_selecting_stp to_sensing
version-settled br p PpmsmState.checking_rstp v = ground arith
version-settled br p PpmsmState.selecting_stp v = ground arith
version-settled br p PpmsmState.sensing v = ground arith

-- With a migration time that is not zero, three calls of `PPMSM_run` are enough: they end in
-- `settled`, where a dry run reports no change, and a port that sends RSTP only if the bridge's
-- protocol version allows it still does so.
pub run_settles :
    (k : ℕ) (br : Bridge) (p : Port)
    → br.migrate_time ≢ 0
    → (p.send_rstp ≡ true → rstp_version br.force_protocol_version ≡ true)
    → let q = settled br p.ppmsm_state p in
      (run (suc (suc (suc k))) br p ≡ some q)
      × (dry_run br q ≡ false)
      × ((q.send_rstp && not (rstp_version br.force_protocol_version)) ≡ false)
run_settles k br p m v = (
  run-settled k br p p.ppmsm_state refl m,
  dry_run-settled br p p.ppmsm_state refl m,
  version-settled br p p.ppmsm_state v,
)
