-- ===== src/TopologyChange/Rest.antt =====
-- mstp.c, TCSM_run: on the end of its recursion and the notifications at rest.
use mathlib.Core.Path.{refl}
use mstpd.Prelude.{
  ℕ, zero, suc, ◌+◌, ◌*◌, ◌<◌, ◌≤◌, ◌≡◌, ◌≢◌, Bool, true, false, not, ◌&&◌, ◌||◌, some, bit, arith,
  ◌==◌, if◌then◌else◌, All, Option-cases, inl, inr,
}
use mstpd.Rule.{first-All, first-none}
use mstpd.Enums.{TcsmState}
use mstpd.Types.{PerTreePort, Port}
use mstpd.TopologyChange.View.{TopologyView, new_tc_while, set_fdb_flush, set_tc_prop_tree}
use mstpd.TopologyChange.Enter.{enter}
use mstpd.TopologyChange.Run.{is_active_role, state_rules, next, dry_run, run}

-- The notifications that wait at a port in a tree, that of a TCN left out.
abbrev waiting : PerTreePort → Port → ℕ
waiting p prt = bit p.rcvd_tc + bit p.tc_prop + bit (p.mstid == 0 && prt.rcvd_tc_ack)

-- A port that leaves ACTIVE for LEARNING: it is an edge port, or its role is not an active one.
abbrev is_dull : PerTreePort → Port → Bool
is_dull p prt = not (is_active_role p.role) || prt.oper_edge

abbrev rest_work : PerTreePort → Port → ℕ
rest_work p prt =
    (if is_dull p prt then 3 else 0) + 3 * (waiting p prt + bit (p.mstid == 0 && prt.rcvd_tcn))

abbrev learning_work : PerTreePort → Port → ℕ
learning_work p prt =
    if is_active_role p.role && p.forward && not prt.oper_edge
    then 3 * (waiting p prt + bit (p.mstid == 0 && prt.rcvd_tcn)) + 2
    else bit (p.rcvd_tc || p.tc_prop || (p.mstid == 0 && (prt.rcvd_tcn || prt.rcvd_tc_ack)))
      + bit (not (is_active_role p.role) && not (p.learn || p.learning))

-- A bound for the number of states that the machine still enters.
abbrev state_work : TcsmState → PerTreePort → Port → ℕ
state_work TcsmState.inactive p prt =
    if p.learn && not p.fdb_flush then learning_work p prt + 1 else 0
state_work TcsmState.learning p prt = learning_work p prt
state_work TcsmState.notified_tcn p prt = (if is_dull p prt then 3 else 0) + 3 * waiting p prt + 2
state_work TcsmState.active p prt = rest_work p prt
state_work _ p prt = rest_work p prt + 1

-- Entering the state leaves less work.
abbrev Lower : TopologyView → TcsmState → TcsmState → Type 0
Lower v s t =
    state_work (enter t v).me.tcsm_state (enter t v).me (enter t v).port < state_work s v.me v.port

rules-Lower :
    (v : TopologyView) (s : TcsmState)
    → All (λ r. r.0 ≡ true → Lower v s r.1) (state_rules s v.me v.port)
unfolding enter new_tc_while set_fdb_flush set_tc_prop_tree
rules-Lower v TcsmState.inactive = (λ g. ground arith, tt)
rules-Lower v TcsmState.learning = (λ g. ground arith, (λ g. ground arith, (λ g. ground arith, tt)))
rules-Lower v TcsmState.notified_tcn = (λ g. ground arith, tt)
rules-Lower v TcsmState.active = (
  λ g. ground arith,
  (λ g. ground arith, (λ g. ground arith, (λ g. ground arith, (λ g. ground arith, tt)))),
)
rules-Lower v _ = (λ g. ground arith, tt)

step-Lower : (v : TopologyView) {t : TcsmState} → next v ≡ some t → Lower v v.me.tcsm_state t
unfolding next
step-Lower v e = first-All (Lower v v.me.tcsm_state) _ (rules-Lower v v.me.tcsm_state) e

-- At rest: the run ended, no further call would enter a state, and unless the state is INACTIVE no
-- notification is left.
pub record Rests (fuel : ℕ) (v : TopologyView) : Type 0 where
  pub final : TopologyView
  pub reached : run fuel v ≡ some final
  pub quiet : dry_run final ≡ false

run-Rests :
    (fuel : ℕ) (v : TopologyView) → state_work v.me.tcsm_state v.me v.port < fuel → Rests fuel v
unfolding run dry_run
run-Rests zero v l = absurd (omega arith)
run-Rests (suc fuel) v l = elim (Option-cases (next v)) [
  | inl e ↦ record { final = v; reached = rw (e, run); quiet = rw (e, dry_run) }
  | inr (t, e) ↦
      let w = run-Rests fuel (enter t v) (omega (arith, step-Lower v e)) in
      record { final = w.final; reached = rw (e, run) w.reached; quiet = w.quiet }
]

state_work-le : (s : TcsmState) (p : PerTreePort) (prt : Port) → state_work s p prt ≤ 16
state_work-le TcsmState.inactive p prt = ground arith
state_work-le TcsmState.learning p prt = ground arith
state_work-le TcsmState.notified_tcn p prt = ground arith
state_work-le TcsmState.active p prt = ground arith
state_work-le _ p prt = ground arith

-- `TCSM_run` ends: from every state of the port and whatever it has received, 17 calls are enough
-- to reach a state in which a dry run reports no change.
pub run_comes_to_a_stop : (fuel : ℕ) (v : TopologyView) → 16 < fuel → Rests fuel v
run_comes_to_a_stop fuel v l =
    run-Rests fuel v (omega (arith, state_work-le v.me.tcsm_state v.me v.port))

-- What is left of the notifications when the machine rests.
pub record IsHandled (v : TopologyView) : Type 0 where
  pub tc : v.me.rcvd_tc ≡ false
  pub prop : v.me.tc_prop ≡ false
  pub cist_tcn : v.me.mstid ≡ 0 → v.port.rcvd_tcn ≡ false
  pub cist_tc_ack : v.me.mstid ≡ 0 → v.port.rcvd_tc_ack ≡ false

rested :
    (s : TcsmState) (v : TopologyView)
    → s ≢ TcsmState.inactive
    → All (λ r. r.0 ≡ false) (state_rules s v.me v.port)
    → IsHandled v
rested TcsmState.inactive v n h = absurd (n refl)
rested TcsmState.learning v n h =
    let g = h.1.0 in
    record {
      tc = ground arith;
      prop = ground arith;
      cist_tcn = λ z. ground arith;
      cist_tc_ack = λ z. ground arith;
    }
rested TcsmState.active v n h =
    let a = h.1.0 in
    let b = h.1.1.0 in
    let c = h.1.1.1.0 in
    let d = h.1.1.1.1.0 in
    record { tc = b; prop = c; cist_tcn = λ z. ground arith; cist_tc_ack = λ z. ground arith }
rested _ v n h = absurd (ground arith)

-- A machine that is at rest outside INACTIVE has handled every notification: neither a received nor
-- a propagated topology change waits, nor, in the CIST, a received TCN or acknowledgement.
pub rest_handles :
    (v : TopologyView) → v.me.tcsm_state ≢ TcsmState.inactive → dry_run v ≡ false → IsHandled v
unfolding dry_run next
rest_handles v n q = elim (Option-cases (next v)) [
  | inl e ↦ rested v.me.tcsm_state v n (first-none _ e)
  | inr (t, e) ↦ absurd (ground arith)
]
