-- ===== src/Station/Steps.antt =====
-- mstp.c: on what the machines PRTSM, PSTSM and TCSM do to the entries that they write.
use mathlib.Core.Path.{subst}
use mathlib.Core.Option
use mstpd.Prelude.{
  ℕ, zero, suc, false, not, some, ◌≡◌, refl, sym, ◌∙◌, ap, arith, Option-cases, inl, inr, ◌&&◌,
  ◌||◌, ◌==◌,
}
use mstpd.Enums.{PortRole, same_role, PrtsmState, PstsmState, TcsmState}
use mstpd.RoleTransitions
use mstpd.RoleTransitions.View.{RoleView, Delays}
use mstpd.RoleTransitions.Enter.{sync_all, re_root_all}
use mstpd.RoleTransitions.Guarantees.{IsSafe, run-IsSafe}
use mstpd.RoleTransitions.Settle.{IsTame}
use mstpd.RoleTransitions.Rest.{run-IsTame}
use mstpd.StateTransition
use mstpd.StateTransition.{StateView}
use mstpd.StateTransition.Follow.{is_learning, is_forwarding, kernel_state}
use mstpd.TopologyChange
use mstpd.TopologyChange.View.{TopologyView, new_tc_while, set_fdb_flush, set_tc_prop_tree}
use mstpd.Station.Keep.{All2, All2-map}
use mstpd.Station.Sound.{core-Tracks, IsSound, IsEasy, Tracks, Tracks-refl}
use mstpd.Station.Tracks.{All-Tracks, All-Tracks-trans, either-Tracks}
use mstpd.Station.Moves.{Moves, Moves-refl, Moves-trans}
use mstpd.Station.Informs.{only_me}

-- The Port State Transition machine, on a port that is not deleted.
record MovesState (v w : StateView) : Type 0 where
  selects : w.me.selected_role ≡ v.me.selected_role
  alive : w.port.deleted ≡ v.port.deleted
  sound : v.port.deleted ≡ false → IsSound v.me → IsSound w.me
  easy : IsEasy v.me → IsEasy w.me

move_enter-MovesState :
    (t : PstsmState) (v : StateView)
    → StateTransition.next v ≡ some t
    → MovesState v (StateTransition.enter t v)
unfolding StateTransition.next StateTransition.enter StateTransition.to_discarding
    StateTransition.to_learning StateTransition.to_forwarding
move_enter-MovesState PstsmState.discarding v e = record {
  selects = ground arith;
  alive = ground arith;
  sound = λ a h. ground arith;
  easy = λ h. ground arith;
}
move_enter-MovesState PstsmState.learning v e = record {
  selects = ground arith;
  alive = ground arith;
  sound = λ a h. ground arith;
  easy = λ h. ground arith;
}
move_enter-MovesState PstsmState.forwarding v e = record {
  selects = ground arith;
  alive = ground arith;
  sound = λ a h. ground arith;
  easy = λ h. ground arith;
}

move-MovesState :
    (fuel : ℕ) (v w : StateView) → StateTransition.run fuel v ≡ some w → MovesState v w
unfolding StateTransition.run
move-MovesState zero v w e = cc
move-MovesState (suc fuel) v w e = elim (Option-cases (StateTransition.next v)) [
  | inl n ↦
      subst (λ (x : StateView). MovesState v x)
        (Option.some-injective _ _ (rw (n, StateTransition.run) at e))
        (record { selects = refl; alive = refl; sound = λ a h. h; easy = λ h. h })
  | inr (t, n) ↦
      let a = move_enter-MovesState t v n in
      let b =
        move-MovesState fuel (StateTransition.enter t v) w (rw (n, StateTransition.run) at e) in
      record {
        selects = b.selects ∙ a.selects;
        alive = b.alive ∙ a.alive;
        sound = λ d h. b.sound (a.alive ∙ d) (a.sound d h);
        easy = λ h. b.easy (a.easy h);
      }
]

pub move-Moves :
    (fuel : ℕ) (v w : StateView)
    → StateTransition.run fuel v ≡ some w
    → v.port.deleted ≡ false
    → Tracks v.me w.me × (w.port.deleted ≡ v.port.deleted)
move-Moves fuel v w e d =
    let m = move-MovesState fuel v w e in
    (record { selects = m.selects; sound = m.sound d; easy = m.easy }, m.alive)

-- The Port Role Transitions machine.
abbrev Transits : RoleView → RoleView → Type 0
Transits v w = Moves v.me w.me v.port w.port v.peers w.peers

-- What PRTSM leaves alone at its own entry and port.
record Frame (v w : RoleView) : Type 0 where
  alive : w.port.deleted ≡ v.port.deleted
  selects : w.me.selected_role ≡ v.me.selected_role
  pstsm : w.me.pstsm_state ≡ v.me.pstsm_state
  learning : w.me.learning ≡ v.me.learning
  forwarding : w.me.forwarding ≡ v.me.forwarding
  state : w.me.state ≡ v.me.state
  hello : w.me.port_times.hello_time ≡ v.me.port_times.hello_time
  selected : w.me.selected ≡ v.me.selected
  designated_hello : w.me.designated_times.hello_time ≡ v.me.designated_times.hello_time

enter-Frame :
    (t : PrtsmState) (c : Delays) (v : RoleView) → Frame v (RoleTransitions.Enter.enter c t v)
unfolding RoleTransitions.Enter.enter sync_all re_root_all
enter-Frame PrtsmState.init_port c v = ground arith
enter-Frame _ c v = ground arith

enter-peers :
    (t : PrtsmState) (c : Delays) (v : RoleView)
    → All2 Tracks v.peers (RoleTransitions.Enter.enter c t v).peers
unfolding RoleTransitions.Enter.enter sync_all re_root_all
enter-peers PrtsmState.master_proposed c v =
    All2-map Tracks _ (λ p. core-Tracks _ _ refl (λ e. e)) v.peers
enter-peers PrtsmState.root_proposed c v =
    All2-map Tracks _ (λ p. core-Tracks _ _ refl (λ e. e)) v.peers
enter-peers PrtsmState.alternate_proposed c v =
    All2-map Tracks _ (λ p. core-Tracks _ _ refl (λ e. e)) v.peers
enter-peers PrtsmState.reroot c v = All2-map Tracks _ (λ p. core-Tracks _ _ refl (λ e. e)) v.peers
enter-peers _ c v = All-Tracks v.peers

record RoleSteps (v w : RoleView) : Type 0 where
  frame : Frame v w
  peers : All2 Tracks v.peers w.peers

Frame-trans : (u v w : RoleView) → Frame u v → Frame v w → Frame u w
Frame-trans u v w h k = ground arith

run-RoleSteps :
    (fuel : ℕ) (c : Delays) (v w : RoleView)
    → RoleTransitions.Run.run fuel c v ≡ some w
    → RoleSteps v w
unfolding RoleTransitions.Run.run
run-RoleSteps zero c v w e = cc
run-RoleSteps (suc fuel) c v w e = elim (Option-cases (RoleTransitions.Rules.next c v)) [
  | inl n ↦
      subst (λ (x : RoleView). RoleSteps v x)
        (Option.some-injective _ _ (rw (n, RoleTransitions.Run.run) at e))
        (record {
          frame = record {
            alive = refl;
            selects = refl;
            pstsm = refl;
            learning = refl;
            forwarding = refl;
            state = refl;
            hello = refl;
            selected = refl;
            designated_hello = refl;
          };
          peers = All-Tracks v.peers;
        })
  | inr (t, n) ↦
      let u = RoleTransitions.Enter.enter c t v in
      let r = run-RoleSteps fuel c u w (rw (n, RoleTransitions.Run.run) at e) in
      record {
        frame = Frame-trans v u w (enter-Frame t c v) r.frame;
        peers = All-Tracks-trans v.peers u.peers w.peers (enter-peers t c v) r.peers;
      }
]

safe_and_Frame : (v w : RoleView) → Frame v w → (IsSafe v → IsSafe w) → IsSound v.me → IsSound w.me
safe_and_Frame v w f k h =
    let s : IsSafe w =
      k (record { coherent = h.coherent; no_learn = h.no_learn; no_forward = h.no_forward }) in
    record {
      coherent = s.coherent;
      no_learn = s.no_learn;
      no_forward = s.no_forward;
      learning_flag = f.learning ∙ h.learning_flag ∙ ap is_learning (sym f.pstsm);
      forwarding_flag = f.forwarding ∙ h.forwarding_flag ∙ ap is_forwarding (sym f.pstsm);
      driver_state = f.state ∙ h.driver_state ∙ ap kernel_state (sym f.pstsm);
    }

tame_and_Frame : (v w : RoleView) → Frame v w → (IsTame v → IsTame w) → IsEasy v.me → IsEasy w.me
tame_and_Frame v w f k h =
    let t : IsTame w = k (record {
      coherent = h.coherent;
      role_tame = h.role_tame;
      selected_tame = h.selected_tame;
    }) in
    record {
      coherent = t.coherent;
      role_tame = t.role_tame;
      selected_tame = t.selected_tame;
      hello = λ e. h.hello (sym f.hello ∙ e);
      designated_hello =
          λ s e. h.designated_hello (sym f.selected ∙ s) (sym f.designated_hello ∙ e);
    }

pub transit-Moves :
    (fuel : ℕ) (c : Delays) (v w : RoleView)
    → RoleTransitions.Run.run fuel c v ≡ some w
    → Transits v w
transit-Moves fuel c v w e =
    let r = run-RoleSteps fuel c v w e in
    record {
      me = record {
        selects = r.frame.selects;
        sound = safe_and_Frame v w r.frame (λ s. run-IsSafe fuel c v w s e);
        easy = tame_and_Frame v w r.frame (λ t. run-IsTame fuel c v w t e);
      };
      alive = r.frame.alive;
      others = r.peers;
    }

-- The Topology Change machine.
abbrev pub Changes : TopologyView → TopologyView → Type 0
Changes v w = Moves v.me w.me v.port w.port v.peers w.peers

set_tc_prop_tree-Changes : (v : TopologyView) → Changes v (set_tc_prop_tree v)
unfolding set_tc_prop_tree
set_tc_prop_tree-Changes v = record {
  me = Tracks-refl v.me;
  alive = refl;
  others =
      either-Tracks v.port.restricted_tcn v.peers v.peers _ (All-Tracks v.peers)
        (All2-map Tracks _ (λ p. core-Tracks _ _ refl (λ e. e)) v.peers);
}

pub enter-Changes : (t : TcsmState) (v : TopologyView) → Changes v (TopologyChange.Enter.enter t v)
unfolding TopologyChange.Enter.enter set_fdb_flush new_tc_while
enter-Changes TcsmState.detected v =
    let a : TopologyView =
      new_tc_while (record v { me = record (v.me) { tcsm_state = TcsmState.detected } }) in
    Moves-trans {q = a.me} {b = a.port} {qs = a.peers}
      (only_me (core-Tracks _ _ refl (λ e. e)) refl)
      (Moves-trans (set_tc_prop_tree-Changes a) (only_me (core-Tracks _ _ refl (λ e. e)) refl))
enter-Changes TcsmState.notified_tc v =
    let a : TopologyView = record v {
      me = record (v.me) { tcsm_state = TcsmState.notified_tc; rcvd_tc = false };
      port = record (v.port) {
        rcvd_tcn = not (v.me.mstid == 0) && v.port.rcvd_tcn;
        tc_ack = (v.me.mstid == 0 && same_role PortRole.designated v.me.role) || v.port.tc_ack;
      };
    } in
    Moves-trans {q = a.me} {b = a.port} {qs = a.peers}
      (only_me (core-Tracks _ _ refl (λ e. e)) refl) (set_tc_prop_tree-Changes a)
enter-Changes TcsmState.inactive v = only_me (core-Tracks _ _ refl (λ e. e)) refl
enter-Changes _ v = only_me (core-Tracks _ _ refl (λ e. e)) refl

pub change-Moves :
    (fuel : ℕ) (v w : TopologyView) → TopologyChange.Run.run fuel v ≡ some w → Changes v w
unfolding TopologyChange.Run.run
change-Moves zero v w e = cc
change-Moves (suc fuel) v w e = elim (Option-cases (TopologyChange.Run.next v)) [
  | inl n ↦
      subst (λ (x : TopologyView). Changes v x)
        (Option.some-injective _ _ (rw (n, TopologyChange.Run.run) at e))
        (Moves-refl v.me v.port v.peers)
  | inr (t, n) ↦
      Moves-trans (enter-Changes t v)
        (change-Moves fuel (TopologyChange.Enter.enter t v) w (rw (n, TopologyChange.Run.run) at e))
]
