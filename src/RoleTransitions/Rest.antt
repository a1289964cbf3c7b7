-- ===== src/RoleTransitions/Rest.antt =====
-- mstp.c, PRTSM_runr: on the end of its recursion.
use mathlib.Core.Path.{subst}
use mathlib.Core.Option
use mstpd.Prelude.{
  ℕ, zero, suc, ◌<◌, ◌≤◌, ◌≡◌, refl, sym, ◌∙◌, ap, Bool, true, false, some, List, [], ◌∷◌, All,
  arith, Bool-cases, inl, inr, Option-cases, if◌then◌else◌,
}
use mstpd.Rule.{first-All}
use mstpd.Enums.{PortRole, PrtsmState}
use mstpd.RoleTransitions.View.{RoleView, Delays}
use mstpd.RoleTransitions.Enter.{enter}
use mstpd.RoleTransitions.Rules.{Rule, is_ready, role_changes, entry, when_ready, state_rules, next}
use mstpd.RoleTransitions.Run.{dry_run, run}
use mstpd.RoleTransitions.Measure.{Family, role_family, state_family, state_work, is_init, work}
use mstpd.RoleTransitions.Settle.{IsTame, Falls, Falls-within}
use mstpd.RoleTransitions.Families.{
  role_is_root, role_is_designated, designated_fall, root_fall, alternate_fall, block_fall,
  disable_fall, disabled_fall,
}

master_absurd : {v : RoleView} → IsTame v → Family.master ≡ role_family v.me.role → ⊥
master_absurd {v} h e = h.role_tame (master_role v.me.role e)
  where
    master_role : (r : PortRole) → Family.master ≡ role_family r → r ≡ PortRole.master
    master_role r e = ground arith

-- A rule without a condition, which leads to the resting state of a family.
always :
    (P : PrtsmState → Type 0) (t : PrtsmState)
    → P t
    → All (λ (r : Rule). r.0 ≡ true → P r.1) ((true, t) ∷ [])
always P t p = (λ _. p, tt)

-- The rules behind `if(!(ptp->selected && !ptp->updtInfo)) return false;`.
guarded :
    (P : PrtsmState → Type 0) (c : Delays) (v : RoleView) (rs : List Rule)
    → All (λ r. r.0 ≡ true → P r.1) rs
    → All (λ r. r.0 ≡ true → P r.1) (when_ready c v rs)
guarded P c v rs h = go (is_ready v.me)
  where
    go : (b : Bool) → All (λ r. r.0 ≡ true → P r.1) (if b then rs else [])
    go true = h
    go false = tt

module _ (c : Delays) (v : RoleView) (h : IsTame v) where
  -- From the first state the machine goes to DISABLE_PORT, whatever the selected role.
  init_fall : v.me.prtsm_state ≡ PrtsmState.init_port → Falls c v PrtsmState.disable_port
  unfolding enter work
  init_fall s = record {
    tame = record { coherent = refl; role_tame = λ m. cc; selected_tame = h.selected_tame };
    lower = rw s (ground arith);
  }

  family_of : (s : PrtsmState) → v.me.prtsm_state ≡ s → state_family s ≡ role_family v.me.role
  family_of s e = ap state_family (sym e) ∙ h.coherent

  module _ (r : role_changes v.me ≡ false) where
    -- The unconditional rules of the three families.
    to_root :
        {s : PrtsmState}
        → v.me.prtsm_state ≡ s
        → is_init s ≡ false
        → Family.root ≡ state_family s
        → state_work c (enter c PrtsmState.root_port v) PrtsmState.root_port < state_work c v s
        → Falls c v PrtsmState.root_port
    unfolding enter
    to_root s i f l =
        Falls-within c v _ _ h s i r refl refl f
          (sym (role_is_root _ (f ∙ family_of _ s)), refl, refl, refl) l

    to_designated :
        {s : PrtsmState}
        → v.me.prtsm_state ≡ s
        → is_init s ≡ false
        → Family.designated ≡ state_family s
        → state_work c (enter c PrtsmState.designated_port v) PrtsmState.designated_port
          < state_work c v s
        → Falls c v PrtsmState.designated_port
    unfolding enter
    to_designated s i f l =
        Falls-within c v _ _ h s i r refl refl f
          (sym (role_is_designated _ (f ∙ family_of _ s)), refl, refl, refl) l

    to_alternate :
        {s : PrtsmState}
        → v.me.prtsm_state ≡ s
        → is_init s ≡ false
        → Family.blocked ≡ state_family s
        → state_work c (enter c PrtsmState.alternate_port v) PrtsmState.alternate_port
          < state_work c v s
        → Falls c v PrtsmState.alternate_port
    unfolding enter
    to_alternate s i f l = Falls-within c v _ _ h s i r refl refl f (refl, refl, refl, refl) l

    state_fall :
        (s : PrtsmState)
        → v.me.prtsm_state ≡ s
        → All (λ r. r.0 ≡ true → Falls c v r.1) (state_rules c v s)
    unfolding enter
    state_fall PrtsmState.init_port s = always (Falls c v) _ (init_fall s)
    state_fall PrtsmState.disable_port s = disable_fall c v h r s
    state_fall PrtsmState.disabled_port s = disabled_fall c v h r s
    state_fall PrtsmState.master_proposed s = absurd (master_absurd h (family_of _ s))
    state_fall PrtsmState.master_agreed s = absurd (master_absurd h (family_of _ s))
    state_fall PrtsmState.master_synced s = absurd (master_absurd h (family_of _ s))
    state_fall PrtsmState.master_retired s = absurd (master_absurd h (family_of _ s))
    state_fall PrtsmState.master_forward s = absurd (master_absurd h (family_of _ s))
    state_fall PrtsmState.master_learn s = absurd (master_absurd h (family_of _ s))
    state_fall PrtsmState.master_discard s = absurd (master_absurd h (family_of _ s))
    state_fall PrtsmState.master_port s = absurd (master_absurd h (family_of _ s))
    state_fall PrtsmState.root_proposed s =
        always (Falls c v) _ (to_root s refl refl (ground arith))
    state_fall PrtsmState.root_agreed s = always (Falls c v) _ (to_root s refl refl (ground arith))
    state_fall PrtsmState.root_synced s = always (Falls c v) _ (to_root s refl refl (ground arith))
    state_fall PrtsmState.reroot s = always (Falls c v) _ (to_root s refl refl (ground arith))
    state_fall PrtsmState.root_forward s = always (Falls c v) _ (to_root s refl refl (ground arith))
    state_fall PrtsmState.root_learn s = always (Falls c v) _ (to_root s refl refl (ground arith))
    state_fall PrtsmState.rerooted s = always (Falls c v) _ (to_root s refl refl (ground arith))
    state_fall PrtsmState.root_port s =
        guarded (Falls c v) c v _ (root_fall c v h r s (role_is_root _ (family_of _ s)))
    state_fall PrtsmState.designated_propose s =
        always (Falls c v) _ (to_designated s refl refl (ground arith))
    state_fall PrtsmState.designated_agreed s =
        always (Falls c v) _ (to_designated s refl refl (ground arith))
    state_fall PrtsmState.designated_synced s =
        always (Falls c v) _ (to_designated s refl refl (ground arith))
    state_fall PrtsmState.designated_retired s =
        always (Falls c v) _ (to_designated s refl refl (ground arith))
    state_fall PrtsmState.designated_forward s =
        always (Falls c v) _ (to_designated s refl refl (ground arith))
    state_fall PrtsmState.designated_learn s =
        always (Falls c v) _ (to_designated s refl refl (ground arith))
    state_fall PrtsmState.designated_discard s =
        always (Falls c v) _ (to_designated s refl refl (ground arith))
    state_fall PrtsmState.designated_port s = guarded (Falls c v) c v _ (designated_fall c v h r s)
    state_fall PrtsmState.block_port s = block_fall c v h r s
    state_fall PrtsmState.backup_port s =
        always (Falls c v) _ (to_alternate s refl refl (ground arith))
    state_fall PrtsmState.alternate_proposed s =
        always (Falls c v) _ (to_alternate s refl refl (ground arith))
    state_fall PrtsmState.alternate_agreed s =
        always (Falls c v) _ (to_alternate s refl refl (ground arith))
    state_fall PrtsmState.alternate_port s = guarded (Falls c v) c v _ (alternate_fall c v h r s)

  -- A port that takes on its selected role has at least 32 left before, and less after.
  entry_fall :
      (role : PortRole)
      → v.me.selected_role ≡ role
      → role_changes v.me ≡ true
      → Falls c v (entry role)
  unfolding enter work
  entry_fall PortRole.master e r = absurd (h.selected_tame e)
  entry_fall PortRole.disabled e r = record { tame = ground arith; lower = ground arith }
  entry_fall _ e r = record { tame = ground arith; lower = ground arith }

  step-Falls : {t : PrtsmState} → next c v ≡ some t → Falls c v t
  unfolding next
  step-Falls {t} e = elim (Bool-cases (role_changes v.me)) [
    | inl r ↦ subst (Falls c v) (Option.some-injective _ _ (rw r at e)) (entry_fall _ refl r)
    | inr r ↦ first-All (Falls c v) _ (state_fall r _ refl) (rw r at e)
  ]

-- However long it runs, the view stays tame.
pub run-IsTame :
    (fuel : ℕ) (c : Delays) (v w : RoleView) → IsTame v → run fuel c v ≡ some w → IsTame w
unfolding run
run-IsTame zero c v w h e = cc
run-IsTame (suc fuel) c v w h e = elim (Option-cases (next c v)) [
  | inl n ↦ subst IsTame (Option.some-injective _ _ (rw (n, run) at e)) h
  | inr (t, n) ↦ run-IsTame fuel c (enter c t v) w (step-Falls c v h n).tame (rw (n, run) at e)
]

-- Resting: the run ended, no further call would enter a state, and the view is tame.
pub record Rests (fuel : ℕ) (c : Delays) (v : RoleView) : Type 0 where
  pub final : RoleView
  pub reached : run fuel c v ≡ some final
  pub quiet : dry_run c final ≡ false
  pub tame : IsTame final

run-Rests : (fuel : ℕ) (c : Delays) (v : RoleView) → IsTame v → work c v < fuel → Rests fuel c v
unfolding run dry_run
run-Rests zero c v h l = absurd (omega arith)
run-Rests (suc fuel) c v h l = elim (Option-cases (next c v)) [
  | inl e ↦ record { final = v; reached = rw (e, run); quiet = rw (e, dry_run); tame = h }
  | inr (t, e) ↦
      let f = step-Falls c v h e in
      let w = run-Rests fuel c (enter c t v) f.tame (omega (arith, f.lower)) in
      record { final = w.final; reached = rw (e, run) w.reached; quiet = w.quiet; tame = w.tame }
]

state_work-le : (c : Delays) (v : RoleView) (s : PrtsmState) → state_work c v s ≤ 64
state_work-le c v PrtsmState.init_port = omega arith
state_work-le c v _ = ground arith

two_tests : (b d : Bool) (n : ℕ) → n ≤ 64 → (if b then 64 else if d then 32 else n) ≤ 64
two_tests b d n h = ground arith

work-le : (c : Delays) (v : RoleView) → work c v ≤ 64
unfolding work
work-le c v = two_tests _ _ _ (state_work-le c v v.me.prtsm_state)

-- `PRTSM_runr` ends: from any state that belongs to the port's role, for a port whose role and
-- selected role are not Master, 65 calls are enough to reach a state in which a dry run reports no
-- change; there the state still belongs to the role and neither role is Master.
pub run_comes_to_rest :
    (fuel : ℕ) (c : Delays) (v : RoleView) → IsTame v → 64 < fuel → Rests fuel c v
run_comes_to_rest fuel c v h l = run-Rests fuel c v h (omega (arith, work-le c v))
