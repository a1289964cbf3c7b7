-- ===== src/RoleTransitions/Settle.antt =====
-- mstp.c, PRTSM_runr: on the end of its recursion, the parts that all families share.
use mstpd.Prelude.{◌<◌, ◌≡◌, ◌≢◌, sym, ◌∙◌, ap, false}
use mstpd.Enums.{PortRole, PrtsmState}
use mstpd.Types.{PerTreePort}
use mstpd.RoleTransitions.View.{RoleView, Delays}
use mstpd.RoleTransitions.Enter.{enter}
use mstpd.RoleTransitions.Rules.{role_changes}
use mstpd.RoleTransitions.Measure.{role_family, state_family, IsCoherent, state_work, is_init, work}

-- The state belongs to the role, and neither the role nor the selected role is Master.
pub record IsTame (v : RoleView) : Type 0 where
  pub coherent : IsCoherent v
  pub role_tame : v.me.role ≢ PortRole.master
  pub selected_tame : v.me.selected_role ≢ PortRole.master

-- Entering a state keeps the view tame and lowers the work.
pub record Falls (c : Delays) (v : RoleView) (t : PrtsmState) : Type 0 where
  pub tame : IsTame (enter c t v)
  pub lower : work c (enter c t v) < work c v

-- The fields by which the machine sees that the role has changed are as they were.
abbrev pub SameRole : PerTreePort → PerTreePort → Type 0
SameRole p q =
    (q.role ≡ p.role)
    × (q.selected_role ≡ p.selected_role)
    × (q.selected ≡ p.selected)
    × (q.updt_info ≡ p.updt_info)

role_changes-eq : (p q : PerTreePort) → SameRole p q → role_changes q ≡ role_changes p
role_changes-eq p q h = rw (h.0, h.1, h.2, h.3)

work-state :
    (c : Delays) (v : RoleView) (s : PrtsmState)
    → v.me.prtsm_state ≡ s
    → is_init s ≡ false
    → role_changes v.me ≡ false
    → work c v ≡ state_work c v s
unfolding work
work-state c v s e i r = rw (e, i, r)

-- A rule within a family.
pub Falls-within :
    (c : Delays) (v : RoleView) (s t : PrtsmState)
    → IsTame v
    → v.me.prtsm_state ≡ s
    → is_init s ≡ false
    → role_changes v.me ≡ false
    → (enter c t v).me.prtsm_state ≡ t
    → is_init t ≡ false
    → state_family t ≡ state_family s
    → SameRole v.me (enter c t v).me
    → state_work c (enter c t v) t < state_work c v s
    → Falls c v t
Falls-within c v s t h e i r e' i' f same l = record {
  tame = record {
    coherent =
        ap state_family e' ∙ f ∙ sym (ap state_family e) ∙ h.coherent ∙ sym (ap role_family same.0);
    role_tame = λ m. h.role_tame (sym same.0 ∙ m);
    selected_tame = λ m. h.selected_tame (sym same.1 ∙ m);
  };
  lower =
      rw (work-state c v s e i r) (
        rw (work-state c (enter c t v) t e' i' (role_changes-eq v.me (enter c t v).me same ∙ r)) l);
}
