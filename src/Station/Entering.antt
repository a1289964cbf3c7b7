-- ===== src/Station/Entering.antt =====
-- mstp.c, br_state_machines_begin: the ports after PSTSM_begin.
use mstpd.Prelude.{◌≡◌, false, List, [], ◌∷◌, map, refl, ◌∙◌, Bool-cases, inl, inr, arith, All}
use mstpd.Enums.{BrState, PortRole, PrtsmState, same_br_state}
use mstpd.Types.{Bridge, Port, PerTreePort, PortNode, Output}
use mstpd.Receive
use mstpd.Migration
use mstpd.EdgeDetection
use mstpd.Transmit
use mstpd.RoleTransitions
use mstpd.StateTransition
use mstpd.StateTransition.{StateView}
use mstpd.Station.Grid.{Line, Station, entries}
use mstpd.Station.Sound.{IsSound}
use mstpd.Station.Start.{
  begin_receive, begin_migrate, begin_detect, begin_transmit, begin_info, begin_selection,
  begin_role, each_ptp, Moved, begin_states, begin_move, begin_lines,
}

-- What PRSSM_begin and PRTSM_begin leave of an entry.
record IsInit (p : PerTreePort) : Type 0 where
  state : p.prtsm_state ≡ PrtsmState.init_port
  role : p.role ≡ PortRole.disabled
  selected_role : p.selected_role ≡ PortRole.disabled
  learn : p.learn ≡ false
  forward : p.forward ≡ false

-- The entry after PSTSM_begin.
abbrev pub IsBegun : PerTreePort → Type 0
IsBegun p = IsSound p × (p.selected_role ≡ PortRole.disabled)

-- What MSTP_OUT_set_state leaves of a port that is in the bridge, asked for the state blocking.
pub record Blocked (v w : StateView) : Type 0 where
  pub state : w.me.state ≡ BrState.blocking
  pub role_state : w.me.prtsm_state ≡ v.me.prtsm_state
  pub role : w.me.role ≡ v.me.role
  pub selected_role : w.me.selected_role ≡ v.me.selected_role
  pub learn : w.me.learn ≡ v.me.learn
  pub forward : w.me.forward ≡ v.me.forward
  pub deleted : w.port.deleted ≡ v.port.deleted
  pub hello : w.me.port_times.hello_time ≡ v.me.port_times.hello_time
  pub selected : w.me.selected ≡ v.me.selected
  pub designated_hello : w.me.designated_times.hello_time ≡ v.me.designated_times.hello_time
  pub count : w.port.tx_count ≡ v.port.tx_count

pub change_state-Blocked :
    (v : StateView)
    → v.port.deleted ≡ false
    → Blocked v (StateTransition.change_state BrState.blocking v)
unfolding StateTransition.change_state StateTransition.out_set_state
change_state-Blocked v d = elim (Bool-cases (same_br_state BrState.blocking v.me.state)) [
  | inl e ↦ rw e (record {
    state = ground (arith, e);
    role_state = refl;
    role = refl;
    selected_role = refl;
    learn = refl;
    forward = refl;
    deleted = refl;
    hello = refl;
    selected = refl;
    designated_hello = refl;
    count = refl;
  })
  | inr e ↦ elim (Bool-cases (same_br_state v.me.state BrState.blocking)) [
    | inl f ↦ absurd (ground (arith, e, f))
    | inr f ↦
        rw (e, d, f)
          (record {
            state = refl;
            role_state = refl;
            role = refl;
            selected_role = refl;
            learn = refl;
            forward = refl;
            deleted = refl;
            hello = refl;
            selected = refl;
            designated_hello = refl;
            count = refl;
          })
  ]
]

IsBegun-to_discarding :
    (v : StateView)
    → v.port.deleted ≡ false
    → IsInit v.me
    → let w = StateTransition.to_discarding v in IsBegun w.me × (w.port.deleted ≡ false)
unfolding StateTransition.to_discarding
IsBegun-to_discarding v d h =
    let b = change_state-Blocked v d in
    (
      (
        record {
          coherent = rw (b.role_state, b.role, h.state, h.role) refl;
          no_learn = λ _. b.learn ∙ h.learn;
          no_forward = λ _. b.forward ∙ h.forward;
          learning_flag = refl;
          forwarding_flag = refl;
          driver_state = b.state;
        },
        b.selected_role ∙ h.selected_role,
      ),
      b.deleted ∙ d,
    )

abbrev MovedWell : Moved → Type 0
MovedWell r = All IsBegun r.entries × (r.port.deleted ≡ false)

begin_states-IsBegun :
    (ps : List PerTreePort) (prt : Port) (out : List Output)
    → prt.deleted ≡ false
    → All IsInit ps
    → MovedWell (begin_states ps prt out)
unfolding begin_states
begin_states-IsBegun [] prt out d h = (tt, d)
begin_states-IsBegun (p ∷ ps) prt out d h =
    let v : StateView = record { me = p; port = prt; out = out } in
    let (a, b) = IsBegun-to_discarding v d h.0 in
    let w = StateTransition.to_discarding v in
    let (c, e) = begin_states-IsBegun ps w.port w.out b h.1 in ((a, c), e)

-- A port whose entries have begun.
abbrev pub LineBegun : Line → Type 0
LineBegun l = (l.node.port.deleted ≡ false) × IsBegun l.node.cist × All IsBegun l.node.mstis

abbrev LineInit : Line → Type 0
LineInit l = (l.node.port.deleted ≡ false) × IsInit l.node.cist × All IsInit l.node.mstis

LineBegun-begin_move : (l : Line) → LineInit l → LineBegun (begin_move l)
unfolding begin_move begin_states
LineBegun-begin_move l (d, c, ms) =
    let (h, e) = begin_states-IsBegun (entries l.node) l.node.port l.out d (c, ms) in (e, h.0, h.1)

begin_role-IsInit :
    (br : Bridge) (n : PortNode) (p : PerTreePort) → IsInit (begin_role br n (begin_selection p))
unfolding RoleTransitions.Enter.to_init_port
begin_role-IsInit br n p = record {
  state = refl;
  role = refl;
  selected_role = refl;
  learn = refl;
  forward = refl;
}

-- The functions of a port before PRSSM_begin delete no port.
abbrev pub IsAlive : Line → Type 0
IsAlive l = l.node.port.deleted ≡ false

pub begin_ports-IsAlive :
    (br : Bridge) (l : Line)
    → IsAlive l
    → IsAlive (begin_transmit br (begin_detect (begin_migrate br (begin_receive br l))))
unfolding Receive.to_discard Receive.clear_all_rcvd_msgs Migration.to_checking_rstp
    EdgeDetection.begin EdgeDetection.to_edge EdgeDetection.to_not_edge
    Transmit.Run.to_transmit_init
begin_ports-IsAlive br l d = ground arith

begin_role-All :
    (br : Bridge) (n : PortNode) (ps : List PerTreePort)
    → All IsInit (map (begin_role br n) (map begin_selection ps))
begin_role-All br n [] = tt
begin_role-All br n (p ∷ ps) = (begin_role-IsInit br n p, begin_role-All br n ps)

begin_role-LineInit :
    (br br' : Bridge) (l : Line)
    → IsAlive l
    → LineInit
        (each_ptp (begin_role br) (each_ptp (λ n. begin_selection) (each_ptp (begin_info br') l)))
begin_role-LineInit br br' l d =
    let n = (each_ptp (λ n. begin_selection) (each_ptp (begin_info br') l)).node in
    (
      d,
      begin_role-IsInit br n (begin_info br' l.node l.node.cist),
      begin_role-All br n (map (begin_info br' l.node) l.node.mstis),
    )

pub All-map {ℓ κ} :
    {A : Type ℓ} (P : A → Type κ) (Q : A → Type κ) (f : A → A)
    → ((x : A) → P x → Q (f x))
    → (xs : List A) → All P xs
    → All Q (map f xs)
All-map P Q f h [] a = tt
All-map P Q f h (x ∷ xs) a = (h x a.0, All-map P Q f h xs a.1)

pub begin_lines-LineBegun :
    (s : Station) → All IsAlive s.lines → All LineBegun (begin_lines s).lines
unfolding begin_lines
begin_lines-LineBegun s h =
    All-map LineInit LineBegun begin_move LineBegun-begin_move _ (lines s.lines h)
  where
    lines :
        (ls : List Line)
        → All IsAlive ls
        → All LineInit (
            map (each_ptp (begin_role s.bridge)) (
              map (each_ptp (λ n. begin_selection)) (
                map (each_ptp (begin_info s.bridge)) (
                  map (begin_transmit s.bridge) (
                    map begin_detect
                      (map (begin_migrate s.bridge) (map (begin_receive s.bridge) ls)))))))
    lines [] a = tt
    lines (l ∷ ls) a = (
      begin_role-LineInit s.bridge s.bridge
          (begin_transmit s.bridge
            (begin_detect (begin_migrate s.bridge (begin_receive s.bridge l))))
          (begin_ports-IsAlive s.bridge l a.0),
      lines ls a.1,
    )
