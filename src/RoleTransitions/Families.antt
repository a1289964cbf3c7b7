-- ===== src/RoleTransitions/Families.antt =====
-- mstp.c, PRTSM_runr: on the work that each rule of a family leaves.
use mstpd.Prelude.{◌≡◌, refl, sym, true, false, All, arith}
use mstpd.Enums.{PortRole, PrtsmState}
use mstpd.RoleTransitions.View.{RoleView, Delays}
use mstpd.RoleTransitions.Enter.{enter}
use mstpd.RoleTransitions.Rules.{
  role_changes, disable_rules, disabled_rules, designated_rules, root_rules, block_rules,
  alternate_rules,
}
use mstpd.RoleTransitions.Measure.{Family, role_family}
use mstpd.RoleTransitions.Settle.{IsTame, Falls, Falls-within}

pub role_is_root : (r : PortRole) → Family.root ≡ role_family r → r ≡ PortRole.root
role_is_root r e = ground arith

pub role_is_designated :
    (r : PortRole) → Family.designated ≡ role_family r → r ≡ PortRole.designated
role_is_designated r e = ground arith

pub role_is_disabled : (r : PortRole) → Family.disabled ≡ role_family r → r ≡ PortRole.disabled
role_is_disabled r e = ground arith

module _ (c : Delays) (v : RoleView) (h : IsTame v) (r : role_changes v.me ≡ false) where
  pub designated_fall :
      v.me.prtsm_state ≡ PrtsmState.designated_port
      → All (λ r. r.0 ≡ true → Falls c v r.1) (designated_rules c v)
  unfolding enter
  designated_fall s = (
    λ g. Falls-within c v _ _ h s refl r refl refl refl (refl, refl, refl, refl) (ground arith),
    (
      λ g. Falls-within c v _ _ h s refl r refl refl refl (refl, refl, refl, refl) (ground arith),
      (
        λ g. Falls-within c v _ _ h s refl r refl refl refl (refl, refl, refl, refl) (ground arith),
        (
          λ g.
              Falls-within c v _ _ h s refl r refl refl refl (refl, refl, refl, refl)
                (ground arith),
          (
            λ g.
                Falls-within c v _ _ h s refl r refl refl refl (refl, refl, refl, refl)
                  (ground arith),
            (
              λ g.
                  Falls-within c v _ _ h s refl r refl refl refl (refl, refl, refl, refl)
                    (ground arith),
              (
                λ g.
                    Falls-within c v _ _ h s refl r refl refl refl (refl, refl, refl, refl)
                      (ground arith),
                tt,
              ),
            ),
          ),
        ),
      ),
    ),
  )

  pub root_fall :
      v.me.prtsm_state ≡ PrtsmState.root_port
      → v.me.role ≡ PortRole.root
      → All (λ r. r.0 ≡ true → Falls c v r.1) (root_rules c v)
  unfolding enter
  root_fall s e = (
    λ g. Falls-within c v _ _ h s refl r refl refl refl (refl, refl, refl, refl) (ground arith),
    (
      λ g. Falls-within c v _ _ h s refl r refl refl refl (refl, refl, refl, refl) (ground arith),
      (
        λ g. Falls-within c v _ _ h s refl r refl refl refl (refl, refl, refl, refl) (ground arith),
        (
          λ g.
              Falls-within c v _ _ h s refl r refl refl refl (refl, refl, refl, refl)
                (ground arith),
          (
            λ g.
                Falls-within c v _ _ h s refl r refl refl refl (refl, refl, refl, refl)
                  (ground arith),
            (
              λ g.
                  Falls-within c v _ _ h s refl r refl refl refl (refl, refl, refl, refl)
                    (ground arith),
              (
                λ g.
                    Falls-within c v _ _ h s refl r refl refl refl (refl, refl, refl, refl)
                      (ground arith),
                (
                  λ g.
                      Falls-within c v _ _ h s refl r refl refl refl (sym e, refl, refl, refl)
                        (ground arith),
                  tt,
                ),
              ),
            ),
          ),
        ),
      ),
    ),
  )

  pub alternate_fall :
      v.me.prtsm_state ≡ PrtsmState.alternate_port
      → All (λ r. r.0 ≡ true → Falls c v r.1) (alternate_rules c v)
  unfolding enter
  alternate_fall s = (
    λ g. Falls-within c v _ _ h s refl r refl refl refl (refl, refl, refl, refl) (ground arith),
    (
      λ g. Falls-within c v _ _ h s refl r refl refl refl (refl, refl, refl, refl) (ground arith),
      (
        λ g. Falls-within c v _ _ h s refl r refl refl refl (refl, refl, refl, refl) (ground arith),
        (
          λ g.
              Falls-within c v _ _ h s refl r refl refl refl (refl, refl, refl, refl)
                (ground arith),
          tt,
        ),
      ),
    ),
  )

  pub block_fall :
      v.me.prtsm_state ≡ PrtsmState.block_port
      → All (λ r. r.0 ≡ true → Falls c v r.1) (block_rules c v)
  unfolding enter
  block_fall s = (
    λ g. Falls-within c v _ _ h s refl r refl refl refl (refl, refl, refl, refl) (ground arith),
    tt,
  )

  pub disable_fall :
      v.me.prtsm_state ≡ PrtsmState.disable_port
      → All (λ r. r.0 ≡ true → Falls c v r.1) (disable_rules c v)
  unfolding enter
  disable_fall s = (
    λ g. Falls-within c v _ _ h s refl r refl refl refl (refl, refl, refl, refl) (ground arith),
    tt,
  )

  pub disabled_fall :
      v.me.prtsm_state ≡ PrtsmState.disabled_port
      → All (λ r. r.0 ≡ true → Falls c v r.1) (disabled_rules c v)
  unfolding enter
  disabled_fall s = (
    λ g. Falls-within c v _ _ h s refl r refl refl refl (refl, refl, refl, refl) (ground arith),
    tt,
  )
