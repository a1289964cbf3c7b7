-- ===== src/RoleTransitions/Run.antt =====
-- mstp.c: the recursion of `PRTSM_runr`.
use mstpd.Prelude.{ℕ, zero, suc, Bool, Option, none, some, is_some}
use mstpd.RoleTransitions.View.{RoleView, Delays}
use mstpd.RoleTransitions.Enter.{enter}
use mstpd.RoleTransitions.Rules.{next}

-- `PRTSM_run(ptp, true)`: would a call enter a state?
unfoldable pub dry_run : Delays → RoleView → Bool
dry_run c v = is_some (next c v)

-- `PRTSM_run(ptp, false)`. Each call of `PRTSM_runr` takes one unit of fuel; `none` means that the
-- fuel ran out before a call met no condition.
unfoldable pub run : ℕ → Delays → RoleView → Option RoleView
run zero c v = none
run (suc fuel) c v = elim (next c v) [ none ↦ some v | some t ↦ run fuel c (enter c t v) ]
