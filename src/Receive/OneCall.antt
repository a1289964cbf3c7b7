-- ===== src/Receive/OneCall.antt =====
-- mstp.c, PRSM_run: on one call, and on the dry run.
use mstpd.Prelude.{◌≡◌, ◌↔◌, sym, ◌∙◌, ap, false, arith, Bool-cases, inl, inr}
use mstpd.Types.{Bridge, PortNode}
use mstpd.Receive.{
  clear_all_rcvd_msgs, updt_bpdu_version, set_rcvd_msgs, to_discard, to_discard_dry, to_receive,
  receives, discards, dry_run, run,
}

pub dry_run-false : (br : Bridge) (n : PortNode) → dry_run br n ≡ false → run br n ≡ n
unfolding dry_run run to_discard_dry
dry_run-false br n h = ground arith

to_discard-quiet : (br : Bridge) (n : PortNode) → dry_run br (to_discard br n) ≡ false
unfolding dry_run to_discard clear_all_rcvd_msgs
to_discard-quiet br n = ground arith

to_receive-quiet : (br : Bridge) (n : PortNode) → dry_run br (to_receive br n) ≡ false
unfolding dry_run to_receive set_rcvd_msgs updt_bpdu_version
to_receive-quiet br n = ground arith

idle-quiet :
    (br : Bridge) (n : PortNode)
    → discards br n ≡ false
    → receives n.port.prsm_state n ≡ false
    → dry_run br n ≡ false
unfolding dry_run
idle-quiet br n d r = rw d r

-- After one actual run of the Port Receive machine a dry run reports no change.
pub run_quiet : (br : Bridge) (n : PortNode) → dry_run br (run br n) ≡ false
unfolding run
run_quiet br n = elim (Bool-cases (discards br n)) [
  | inl d ↦ rw d (to_discard-quiet br n)
  | inr d ↦ elim (Bool-cases (receives n.port.prsm_state n)) [
    | inl r ↦ rw (d, r) (to_receive-quiet br n)
    | inr r ↦ rw (d, r) (idle-quiet br n d r)
  ]
]

-- A dry run of the Port Receive machine reports no change exactly when the actual run leaves the
-- port and all its trees as they are.
pub dry_run_iff : (br : Bridge) (n : PortNode) → (dry_run br n ≡ false) ↔ (run br n ≡ n)
dry_run_iff br n = (dry_run-false br n, λ e. sym (ap (dry_run br) e) ∙ run_quiet br n)
