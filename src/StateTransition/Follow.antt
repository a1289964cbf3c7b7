-- ===== src/StateTransition/Follow.antt =====
-- mstp.c, PSTSM_run: its flags and the driver against what the Port Role Transitions machine asks
-- for.
use mstpd.Prelude.{
  ℕ, zero, suc, ◌<◌, ◌≤◌, ◌≡◌, refl, sym, ◌∙◌, inl, inr, Bool, true, false, none, some, arith,
  Option-cases, if◌then◌else◌,
}
use mstpd.Enums.{BrState, PstsmState}
use mstpd.Types.{PerTreePort}
use mstpd.StateTransition.{StateView, next, enter, dry_run, run}

abbrev pub is_learning : PstsmState → Bool
is_learning PstsmState.discarding = false
is_learning _ = true

abbrev pub is_forwarding : PstsmState → Bool
is_forwarding PstsmState.forwarding = true
is_forwarding _ = false

-- The state of the kernel's bridge for a state of the machine.
abbrev pub kernel_state : PstsmState → BrState
kernel_state PstsmState.discarding = BrState.blocking
kernel_state PstsmState.learning = BrState.learning
kernel_state PstsmState.forwarding = BrState.forwarding

-- The flags and the driver's state are those of the machine's state.
pub record IsInStep (v : StateView) : Type 0 where
  pub learning_flag : v.me.learning ≡ is_learning v.me.pstsm_state
  pub forwarding_flag : v.me.forwarding ≡ is_forwarding v.me.pstsm_state
  pub driver_state : v.me.state ≡ kernel_state v.me.pstsm_state
  pub alive : v.port.deleted ≡ false

-- What a run leaves alone, and what it reaches.
pub record Follows (v w : StateView) : Type 0 where
  pub in_step : IsInStep w
  pub same_learn : w.me.learn ≡ v.me.learn
  pub same_forward : w.me.forward ≡ v.me.forward
  pub learns : w.me.learning ≡ v.me.learn
  pub forwards : w.me.forwarding ≡ v.me.forward
  pub quiet : dry_run w ≡ false

record Steps (v : StateView) (t : PstsmState) : Type 0 where
  in_step : IsInStep (enter t v)
  learn_eq : (enter t v).me.learn ≡ v.me.learn
  forward_eq : (enter t v).me.forward ≡ v.me.forward

enter-Steps : (v : StateView) (t : PstsmState) → IsInStep v → next v ≡ some t → Steps v t
unfolding next enter
enter-Steps v PstsmState.discarding h e = ground arith
enter-Steps v PstsmState.learning h e = ground arith
enter-Steps v PstsmState.forwarding h e = ground arith

-- The number of states that the machine still enters.
abbrev pending : PstsmState → PerTreePort → ℕ
pending PstsmState.discarding p = if p.learn then (if p.forward then 2 else 1) else 0
pending PstsmState.learning p = if p.learn then (if p.forward then 1 else 0) else 1
pending PstsmState.forwarding p = if p.forward then 0 else (if p.learn then 2 else 1)

pending-enter :
    (v : StateView) (s t : PstsmState)
    → v.me.pstsm_state ≡ s
    → next v ≡ some t
    → suc (pending (enter t v).me.pstsm_state (enter t v).me) ≤ pending s v.me
unfolding next enter
pending-enter v PstsmState.discarding t e n = ground arith
pending-enter v PstsmState.learning t e n = ground arith
pending-enter v PstsmState.forwarding t e n = ground arith

pending-le : (v : StateView) (s : PstsmState) → pending s v.me ≤ 2
pending-le v PstsmState.discarding = ground arith
pending-le v _ = ground arith

-- At rest the flags are those that were asked for, if forwarding is asked for only with learning.
at_rest :
    (v : StateView)
    → IsInStep v
    → (v.me.forward ≡ true → v.me.learn ≡ true)
    → next v ≡ none
    → (v.me.learning ≡ v.me.learn) × (v.me.forwarding ≡ v.me.forward)
unfolding next
at_rest v h f e = ground arith

run-Follows_within :
    (fuel : ℕ) (v : StateView)
    → IsInStep v
    → (v.me.forward ≡ true → v.me.learn ≡ true)
    → pending v.me.pstsm_state v.me < fuel
    → (w : StateView) × (run fuel v ≡ some w) × Follows v w
unfolding run dry_run
run-Follows_within zero v h f l = absurd (omega arith)
run-Follows_within (suc fuel) v h f l = elim (Option-cases (next v)) [
  | inl e ↦
      let r = at_rest v h f e in
      (
        v,
        rw (e, run),
        record {
          in_step = h;
          same_learn = refl;
          same_forward = refl;
          learns = r.0;
          forwards = r.1;
          quiet = rw (e, dry_run);
        },
      )
  | inr (t, e) ↦
      let s = enter-Steps v t h e in
      let f' : (enter t v).me.forward ≡ true → (enter t v).me.learn ≡ true =
        λ x. s.learn_eq ∙ f (sym s.forward_eq ∙ x) in
      let r =
        run-Follows_within fuel (enter t v) s.in_step f'
          (omega (arith, pending-enter v _ t refl e)) in
      (
        r.0,
        rw (e, run) r.1,
        record {
          in_step = r.2.in_step;
          same_learn = r.2.same_learn ∙ s.learn_eq;
          same_forward = r.2.same_forward ∙ s.forward_eq;
          learns = r.2.learns ∙ s.learn_eq;
          forwards = r.2.forwards ∙ s.forward_eq;
          quiet = r.2.quiet;
        },
      )
]

-- Three calls of `PSTSM_run` are enough: for a port that is not deleted, whose flags and driver
-- state are those of the machine's state and which is asked to forward only if it is asked to
-- learn, they end in a state in which a dry run reports no change, the port is learning and
-- forwarding exactly as asked, and the driver was left in the state that stands for it.
pub run-Follows :
    (fuel : ℕ) (v : StateView)
    → IsInStep v
    → (v.me.forward ≡ true → v.me.learn ≡ true)
    → 2 < fuel
    → (w : StateView) × (run fuel v ≡ some w) × Follows v w
run-Follows fuel v h f l =
    run-Follows_within fuel v h f (omega (arith, pending-le v v.me.pstsm_state))
