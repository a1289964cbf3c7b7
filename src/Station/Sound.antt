-- ===== src/Station/Sound.antt =====
-- mstp.h: when the machines' states of a per-tree port, its flags and its state in the driver agree.
use mstpd.Prelude.{ℕ, Bool, ap, sym, ◌≡◌, ◌≢◌, true, false, refl, ◌∙◌, arith}
use mstpd.Enums.{PortRole, PrtsmState, PstsmState, BrState}
use mstpd.Types.{PerTreePort, PortNode}
use mstpd.RoleTransitions.Measure.{role_family, state_family}
use mstpd.RoleTransitions.Guarantees.{is_blocking_role}
use mstpd.StateTransition.Follow.{is_learning, is_forwarding, kernel_state}
use mstpd.Station.Keep.{All2}

-- The state of PRTSM belongs to the role; a port of a blocking role is told neither to learn nor to
-- forward; the flags and the driver's state are those of the state of PSTSM.
pub record IsSound (p : PerTreePort) : Type 0 where
  pub coherent : state_family p.prtsm_state ≡ role_family p.role
  pub no_learn : is_blocking_role p.role ≡ true → p.learn ≡ false
  pub no_forward : is_blocking_role p.role ≡ true → p.forward ≡ false
  pub learning_flag : p.learning ≡ is_learning p.pstsm_state
  pub forwarding_flag : p.forwarding ≡ is_forwarding p.pstsm_state
  pub driver_state : p.state ≡ kernel_state p.pstsm_state

-- Neither role is Master, and the times give the port a hello time, the designated times as soon as the
-- roles are selected: then PRTSM and PTSM come to rest.
pub record IsEasy (p : PerTreePort) : Type 0 where
  pub coherent : state_family p.prtsm_state ≡ role_family p.role
  pub role_tame : p.role ≢ PortRole.master
  pub selected_tame : p.selected_role ≢ PortRole.master
  pub hello : p.port_times.hello_time ≢ 0
  pub designated_hello : p.selected ≡ true → p.designated_times.hello_time ≢ 0

-- What all machines but PRSSM do to an entry: it stays sound and easy, with the role that is selected
-- for it.
pub record Tracks (p q : PerTreePort) : Type 0 where
  pub selects : q.selected_role ≡ p.selected_role
  pub sound : IsSound p → IsSound q
  pub easy : IsEasy p → IsEasy q

pub Tracks-refl : (p : PerTreePort) → Tracks p p
Tracks-refl p = record { selects = refl; sound = λ h. h; easy = λ h. h }

pub Tracks-trans : (p q r : PerTreePort) → Tracks p q → Tracks q r → Tracks p r
Tracks-trans p q r h k = record {
  selects = k.selects ∙ h.selects;
  sound = λ s. k.sound (h.sound s);
  easy = λ s. k.easy (h.easy s);
}

-- The fields that the invariant reads.
pub record Core : Type 0 where
  pub selected_role : PortRole
  pub role : PortRole
  pub prtsm_state : PrtsmState
  pub learn : Bool
  pub forward : Bool
  pub pstsm_state : PstsmState
  pub learning : Bool
  pub forwarding : Bool
  pub state : BrState
  pub port_hello : ℕ
  pub designated_hello : ℕ

abbrev pub core : PerTreePort → Core
core p = record {
  selected_role = p.selected_role;
  role = p.role;
  prtsm_state = p.prtsm_state;
  learn = p.learn;
  forward = p.forward;
  pstsm_state = p.pstsm_state;
  learning = p.learning;
  forwarding = p.forwarding;
  state = p.state;
  port_hello = p.port_times.hello_time;
  designated_hello = p.designated_times.hello_time;
}

pub core-IsSound : (p q : PerTreePort) → core q ≡ core p → IsSound p → IsSound q
core-IsSound p q e h = ground arith

core-IsEasy :
    (p q : PerTreePort)
    → core q ≡ core p
    → (q.selected ≡ true → p.selected ≡ true)
    → IsEasy p
    → IsEasy q
core-IsEasy p q e f h = record {
  coherent = ground (arith, h.coherent);
  role_tame = λ m. h.role_tame (sym (ap (λ (c : Core). c.role) e) ∙ m);
  selected_tame = λ m. h.selected_tame (sym (ap (λ (c : Core). c.selected_role) e) ∙ m);
  hello = λ z. h.hello (sym (ap (λ (c : Core). c.port_hello) e) ∙ z);
  designated_hello =
      λ s z. h.designated_hello (f s) (sym (ap (λ (c : Core). c.designated_hello) e) ∙ z);
}

-- An entry of which other fields are written, and that is not selected anew.
pub core-Tracks :
    (p q : PerTreePort) → core q ≡ core p → (q.selected ≡ true → p.selected ≡ true) → Tracks p q
core-Tracks p q e f = record {
  selects = ap (λ (c : Core). c.selected_role) e;
  sound = core-IsSound p q e;
  easy = core-IsEasy p q e f;
}

-- The same for a port, by a relation on its entries; no machine deletes a port.
pub record NodeBy (R : PerTreePort → PerTreePort → Type 0) (n m : PortNode) : Type 0 where
  pub alive : m.port.deleted ≡ n.port.deleted
  pub cist : R n.cist m.cist
  pub mstis : All2 R n.mstis m.mstis

abbrev pub TracksNode : PortNode → PortNode → Type 0
TracksNode n m = NodeBy Tracks n m
