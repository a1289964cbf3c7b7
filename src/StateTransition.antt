-- ===== src/StateTransition.antt =====
-- mstp.c, section 13.35: the Port State Transition state machine (PSTSM) of one port in one tree;
-- bridge_track.c: MSTP_OUT_set_state; driver_deps.c: driver_set_new_state.
--
-- `next` has the conditions of `PSTSM_run`, `enter` the functions `PSTSM_to_X` without the call at
-- their end, and `run` the recursion; a call that enters no state ends it. The translation of the
-- CIST's state to the kernel is not modelled: the call of MSTP_OUT_set_state is logged.
pub mod Follow
use mstpd.Prelude.{
  ℕ, zero, suc, ◌+◌, ◌%◌, ◌^◌, Bool, true, false, not, Option, none, some, List, [], ◌∷◌, ◌++◌,
  is_some, if◌then◌else◌,
}
use mstpd.Enums.{BrState, PstsmState, same_br_state}
use mstpd.Types.{PerTreePort, Port, Output}

pub record StateView : Type 0 where
  pub me : PerTreePort
  pub port : Port
  pub out : List Output

-- The driver's hook returns the state that it was asked for.
abbrev pub driver_set_new_state : BrState → BrState
driver_set_new_state new_state = new_state

-- The counters of transitions, `++` on an unsigned int.
abbrev pub count_transition : BrState → Port → Port
count_transition BrState.forwarding prt = record prt {
  num_trans_fwd = (prt.num_trans_fwd + 1) % 2 ^ 32;
}
count_transition BrState.blocking prt = record prt {
  num_trans_blk = (prt.num_trans_blk + 1) % 2 ^ 32;
}
count_transition _ prt = prt

unfoldable pub out_set_state : BrState → StateView → StateView
out_set_state new_state v = if same_br_state v.me.state new_state then v else record v {
  me = record (v.me) { state = driver_set_new_state new_state };
  port = count_transition (driver_set_new_state new_state) v.port;
  out = v.out ++ (Output.set_state new_state ∷ []);
}

-- `if(X != ptp->state) { if(!ptp->port->deleted) MSTP_OUT_set_state(ptp, X); }`
unfoldable pub change_state : BrState → StateView → StateView
unfolding out_set_state
change_state new_state v =
    if same_br_state new_state v.me.state
    then v
    else if v.port.deleted
    then v
    else out_set_state new_state v

unfoldable pub to_discarding : StateView → StateView
unfolding change_state
to_discarding v =
    let w = change_state BrState.blocking v in
    record w {
      me = record (w.me) {
        pstsm_state = PstsmState.discarding;
        learning = false;
        forwarding = false;
      };
    }

unfoldable pub to_learning : StateView → StateView
unfolding change_state
to_learning v =
    let w = change_state BrState.learning v in
    record w { me = record (w.me) { pstsm_state = PstsmState.learning; learning = true } }

unfoldable pub to_forwarding : StateView → StateView
unfolding change_state
to_forwarding v =
    let w = change_state BrState.forwarding v in
    record w { me = record (w.me) { pstsm_state = PstsmState.forwarding; forwarding = true } }

unfoldable pub next_state : PstsmState → PerTreePort → Option PstsmState
next_state PstsmState.discarding p = if p.learn then some PstsmState.learning else none
next_state PstsmState.learning p =
    if not p.learn
    then some PstsmState.discarding
    else if p.forward
    then some PstsmState.forwarding
    else none
next_state PstsmState.forwarding p = if not p.forward then some PstsmState.discarding else none

unfoldable pub next : StateView → Option PstsmState
unfolding next_state
next v = next_state v.me.pstsm_state v.me

unfoldable pub enter : PstsmState → StateView → StateView
unfolding to_discarding to_learning to_forwarding
enter PstsmState.discarding v = to_discarding v
enter PstsmState.learning v = to_learning v
enter PstsmState.forwarding v = to_forwarding v

-- `PSTSM_run(ptp, true)`.
unfoldable pub dry_run : StateView → Bool
dry_run v = is_some (next v)

-- `PSTSM_run(ptp, false)`; `none` if the fuel ran out.
unfoldable pub run : ℕ → StateView → Option StateView
run zero v = none
run (suc fuel) v = elim (next v) [ none ↦ some v | some t ↦ run fuel (enter t v) ]
