-- ===== src/PortInformation/Rest.antt =====
-- mstp.c, PISM_run: on the end of its recursion, and on rest.
use mathlib.Core.Path.{subst}
use mathlib.Core.Option
use mstpd.Prelude.{
  ℕ, zero, suc, ◌+◌, ◌*◌, ◌<◌, ◌≤◌, ◌≡◌, ◌≢◌, true, false, ◌&&◌, some, bit, arith, if◌then◌else◌,
  All, Option-cases, Bool-cases, inl, inr, refl,
}
use mstpd.Rule.{first-All, first-none}
use mstpd.Enums.{PismState, InfoOrigin, PortInfo, same_origin}
use mstpd.PortInformation.View.{InfoView, rcv_info}
use mstpd.PortInformation.Record.{
  record_agreement, record_dispute, record_mastered, record_priority, record_proposal, record_times,
  set_tc_flags, updt_rcvd_info_while,
}
use mstpd.PortInformation.Enter.{enter, take_superior}
use mstpd.PortInformation.Run.{
  info_state, state_rules, shuts_down, rcvd_xst_msg, updt_xst_info, next, dry_run, run,
}

abbrev current_work : InfoView → ℕ
current_work v =
    6 * bit v.me.rcvd_msg
    + 3 * bit v.me.updt_info
    + bit (same_origin InfoOrigin.received v.me.info_is)

abbrev state_work : PismState → InfoView → ℕ
state_work PismState.disabled v = bit v.port.port_enabled + bit v.me.rcvd_msg
state_work PismState.aged v =
    if v.me.selected && v.me.updt_info then 6 * bit v.me.rcvd_msg + 3 else 0
state_work PismState.current v = current_work v
state_work PismState.receive v = 3 * bit v.me.updt_info + 4
state_work _ v = current_work v + 1

-- A bound for the number of states that the machine still enters.
abbrev work : PismState → InfoView → ℕ
work s v = bit (shuts_down v) + state_work s v

-- Entering the state leaves less work.
abbrev Lower : InfoView → PismState → PismState → Type 0
Lower v s t = work (enter t v).me.pism_state (enter t v) < work s v

message-Lower : (v : InfoView) (i : PortInfo) → Lower v PismState.receive (info_state i)
unfolding enter take_superior record_agreement record_dispute record_priority record_proposal
    record_times set_tc_flags updt_rcvd_info_while
message-Lower v i = ground arith

rules-Lower :
    (v : InfoView) (s : PismState)
    → shuts_down v ≡ false
    → All (λ r. r.0 ≡ true → Lower v s r.1) (state_rules s v)
unfolding enter rcv_info record_mastered
rules-Lower v PismState.disabled q = (λ g. ground arith, (λ g. ground arith, tt))
rules-Lower v PismState.aged q = (λ g. ground arith, tt)
rules-Lower v PismState.current q =
    (λ g. ground arith, (λ g. ground arith, (λ g. ground arith, tt)))
rules-Lower v PismState.receive q = (λ g. message-Lower v v.me.rcvd_info, tt)
rules-Lower v _ q = (λ g. ground arith, tt)

shutdown-Lower : (v : InfoView) (s : PismState) → shuts_down v ≡ true → Lower v s PismState.disabled
unfolding enter
shutdown-Lower v s q = ground arith

step-Lower : (v : InfoView) {t : PismState} → next v ≡ some t → Lower v v.me.pism_state t
unfolding next
step-Lower v {t} e = elim (Bool-cases (shuts_down v)) [
  | inl q ↦
      subst (Lower v v.me.pism_state) (Option.some-injective _ _ (rw q at e))
        (shutdown-Lower v v.me.pism_state q)
  | inr q ↦ first-All (Lower v v.me.pism_state) _ (rules-Lower v v.me.pism_state q) (rw q at e)
]

-- At rest: the run ended, and no further call would enter a state.
pub record Rests (fuel : ℕ) (v : InfoView) : Type 0 where
  pub final : InfoView
  pub reached : run fuel v ≡ some final
  pub quiet : dry_run final ≡ false

run-Rests : (fuel : ℕ) (v : InfoView) → work v.me.pism_state v < fuel → Rests fuel v
unfolding run dry_run
run-Rests zero v l = absurd (omega arith)
run-Rests (suc fuel) v l = elim (Option-cases (next v)) [
  | inl e ↦ record { final = v; reached = rw (e, run); quiet = rw (e, dry_run) }
  | inr (t, e) ↦
      let w = run-Rests fuel (enter t v) (omega (arith, step-Lower v e)) in
      record { final = w.final; reached = rw (e, run) w.reached; quiet = w.quiet }
]

work-le : (s : PismState) (v : InfoView) → work s v ≤ 12
work-le PismState.disabled v = ground arith
work-le PismState.aged v = ground arith
work-le PismState.current v = ground arith
work-le PismState.receive v = ground arith
work-le _ v = ground arith

-- `PISM_run` ends: whatever the state, the message and the other trees of the port, 13 calls are
-- enough to reach a state in which a dry run reports no change.
pub run_settles_information : (fuel : ℕ) (v : InfoView) → 12 < fuel → Rests fuel v
run_settles_information fuel v l = run-Rests fuel v (omega (arith, work-le v.me.pism_state v))

-- What holds where the machine rests.
pub record IsSettled (v : InfoView) : Type 0 where
  -- A port that is down holds no information.
  pub down : v.port.port_enabled ≡ false → v.me.info_is ≡ InfoOrigin.disabled
  -- A port that is up is not DISABLED.
  pub up : v.port.port_enabled ≡ true → v.me.pism_state ≢ PismState.disabled
  -- In CURRENT no message waits that may be looked at,
  pub heard : v.me.pism_state ≡ PismState.current → updt_xst_info v ≡ false → rcvd_xst_msg v ≡ false
  -- the received information has not run out,
  pub fresh :
      v.me.pism_state ≡ PismState.current
      → v.me.info_is ≡ InfoOrigin.received
      → v.me.updt_info ≡ false
      → v.me.rcvd_info_while ≡ 0
      → rcvd_xst_msg v ≡ true
  -- and no update by the role selection is left to do.
  pub updated : v.me.selected ≡ true → v.me.updt_info ≡ true → v.me.pism_state ≡ PismState.disabled

settled :
    (s : PismState) (v : InfoView)
    → v.me.pism_state ≡ s
    → shuts_down v ≡ false
    → All (λ r. r.0 ≡ false) (state_rules s v)
    → IsSettled v
settled PismState.disabled v e q h =
    let g = h.0 in
    record {
      down = λ d. ground arith;
      up = λ u. ground arith;
      heard = λ c. absurd (ground arith);
      fresh = λ c. absurd (ground arith);
      updated = λ a b. e;
    }
settled PismState.aged v e q h =
    let g = h.0 in
    record {
      down = λ d. ground arith;
      up = λ u. ground arith;
      heard = λ c. absurd (ground arith);
      fresh = λ c. absurd (ground arith);
      updated = λ a b. absurd (ground arith);
    }
settled PismState.current v e q h =
    let g = h.0 in
    let k = h.1.0 in
    let l = h.1.1.0 in
    record {
      down = λ d. ground arith;
      up = λ u. ground arith;
      heard = λ c u. ground arith;
      fresh = λ c r u t. ground arith;
      updated = λ a b. absurd (ground arith);
    }
settled PismState.receive v e q h = absurd (ground arith)
settled _ v e q h = absurd (ground arith)

-- Where a dry run of the Port Information machine reports no change: a port that is down has no
-- information and one that is up has left DISABLED; no update waits outside DISABLED; and in CURRENT
-- no message is left to look at, and received information whose timer has run out stays only if a
-- message waits.
pub quiet_information : (v : InfoView) → dry_run v ≡ false → IsSettled v
unfolding dry_run next
quiet_information v q = elim (Bool-cases (shuts_down v)) [
  | inl d ↦ absurd (ground arith)
  | inr d ↦ elim (Option-cases (next v)) [
    | inl e ↦ settled v.me.pism_state v refl d (first-none _ (rw d at e))
    | inr (t, e) ↦ absurd (ground arith)
  ]
]
