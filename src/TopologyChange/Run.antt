-- ===== src/TopologyChange/Run.antt =====
-- mstp.c: the conditions of `TCSM_run`, and its recursion.
use mstpd.Prelude.{
  ℕ, zero, suc, Bool, true, false, not, ◌&&◌, ◌||◌, Option, none, some, List, [], ◌∷◌, is_some,
  ◌==◌,
}
use mstpd.Rule.{first}
use mstpd.Enums.{PortRole, TcsmState}
use mstpd.Types.{PerTreePort, Port}
use mstpd.TopologyChange.View.{TopologyView}
use mstpd.TopologyChange.Enter.{enter}

-- `active_port`.
abbrev pub is_active_role : PortRole → Bool
is_active_role PortRole.root = true
is_active_role PortRole.designated = true
is_active_role PortRole.master = true
is_active_role _ = false

-- The conditions of each state, in the order of the code. In LEARNING the call
-- `TCSM_to_LEARNING(ptp, dry_run)` stands under a condition that is also the answer of its dry run,
-- since the state is LEARNING already.
abbrev pub state_rules : TcsmState → PerTreePort → Port → List (Bool × TcsmState)
state_rules TcsmState.inactive p prt = (p.learn && not p.fdb_flush, TcsmState.learning) ∷ []
state_rules TcsmState.learning p prt =
    (is_active_role p.role && p.forward && not prt.oper_edge, TcsmState.detected)
    ∷ (
      p.rcvd_tc || p.tc_prop || (p.mstid == 0 && (prt.rcvd_tcn || prt.rcvd_tc_ack)),
      TcsmState.learning,
    )
    ∷ (not (is_active_role p.role) && not (p.learn || p.learning), TcsmState.inactive)
    ∷ []
state_rules TcsmState.notified_tcn p prt = (true, TcsmState.notified_tc) ∷ []
state_rules TcsmState.detected p prt = (true, TcsmState.active) ∷ []
state_rules TcsmState.notified_tc p prt = (true, TcsmState.active) ∷ []
state_rules TcsmState.propagating p prt = (true, TcsmState.active) ∷ []
state_rules TcsmState.acknowledged p prt = (true, TcsmState.active) ∷ []
state_rules TcsmState.active p prt =
    (not (is_active_role p.role) || prt.oper_edge, TcsmState.learning)
    ∷ (p.mstid == 0 && prt.rcvd_tcn, TcsmState.notified_tcn)
    ∷ (p.rcvd_tc, TcsmState.notified_tc)
    ∷ (p.tc_prop, TcsmState.propagating)
    ∷ (p.mstid == 0 && prt.rcvd_tc_ack, TcsmState.acknowledged)
    ∷ []

unfoldable pub next : TopologyView → Option TcsmState
next v = first (state_rules v.me.tcsm_state v.me v.port)

-- `TCSM_run(ptp, true)`.
unfoldable pub dry_run : TopologyView → Bool
dry_run v = is_some (next v)

-- `TCSM_run(ptp, false)`; `none` if the fuel ran out.
unfoldable pub run : ℕ → TopologyView → Option TopologyView
run zero v = none
run (suc fuel) v = elim (next v) [ none ↦ some v | some t ↦ run fuel (enter t v) ]
