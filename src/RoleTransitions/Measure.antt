-- ===== src/RoleTransitions/Measure.antt =====
-- mstp.c, PRTSM_runr: the work that is left, as a number, and the agreement of the state with the
-- role.
use mstpd.Prelude.{
  ℕ, ◌+◌, ◌-◌, ◌*◌, ◌≡◌, Bool, true, false, not, ◌&&◌, ◌||◌, bit, ◌==◌, if◌then◌else◌,
}
use mstpd.Enums.{PortRole, PrtsmState}
use mstpd.RoleTransitions.View.{RoleView, Delays}
use mstpd.RoleTransitions.Rules.{role_changes}

-- The five groups of states.
pub data Family : Type 0 where
  disabled master root designated blocked : Family

abbrev pub role_family : PortRole → Family
role_family PortRole.disabled = Family.disabled
role_family PortRole.root = Family.root
role_family PortRole.designated = Family.designated
role_family PortRole.alternate = Family.blocked
role_family PortRole.backup = Family.blocked
role_family PortRole.master = Family.master

abbrev pub state_family : PrtsmState → Family
state_family PrtsmState.init_port = Family.disabled
state_family PrtsmState.disable_port = Family.disabled
state_family PrtsmState.disabled_port = Family.disabled
state_family PrtsmState.master_proposed = Family.master
state_family PrtsmState.master_agreed = Family.master
state_family PrtsmState.master_synced = Family.master
state_family PrtsmState.master_retired = Family.master
state_family PrtsmState.master_forward = Family.master
state_family PrtsmState.master_learn = Family.master
state_family PrtsmState.master_discard = Family.master
state_family PrtsmState.master_port = Family.master
state_family PrtsmState.root_proposed = Family.root
state_family PrtsmState.root_agreed = Family.root
state_family PrtsmState.root_synced = Family.root
state_family PrtsmState.reroot = Family.root
state_family PrtsmState.root_forward = Family.root
state_family PrtsmState.root_learn = Family.root
state_family PrtsmState.rerooted = Family.root
state_family PrtsmState.root_port = Family.root
state_family PrtsmState.block_port = Family.blocked
state_family PrtsmState.backup_port = Family.blocked
state_family PrtsmState.alternate_proposed = Family.blocked
state_family PrtsmState.alternate_agreed = Family.blocked
state_family PrtsmState.alternate_port = Family.blocked
state_family _ = Family.designated

-- The state belongs to the role that the port has.
abbrev pub IsCoherent : RoleView → Type 0
IsCoherent v = state_family v.me.prtsm_state ≡ role_family v.me.role

abbrev pub disabled_work : Delays → RoleView → ℕ
disabled_work c v =
    bit (v.me.sync || v.me.re_root || not v.me.synced || not (v.me.fd_while == c.max_age))

abbrev pub root_work : Delays → RoleView → ℕ
root_work c v =
    (if v.me.forward then bit v.me.re_root else 3 - bit v.me.re_root)
    + bit (not v.me.learn)
    + bit (not v.me.synced || v.me.sync)
    + 3 * bit v.me.proposed
    + bit (not v.me.agree)
    + bit (not (v.me.rr_while == c.fwd_delay))

-- What sends a Designated port back to discarding for as long as it lasts.
abbrev pub is_blocked : RoleView → Bool
is_blocked v =
    (v.me.sync && not v.me.synced)
    || (v.me.re_root && not (v.me.rr_while == 0))
    || v.port.ba_inconsistent

abbrev pub designated_work : RoleView → ℕ
designated_work v =
    bit v.me.re_root
    + bit (not v.me.synced || v.me.sync)
    + bit (v.me.proposed || not v.me.agree)
    + bit (not v.me.proposing)
    + bit (not v.me.learn)
    + bit (not v.me.forward)
    + 3 * bit v.me.disputed
    + 3 * bit (is_blocked v && (v.me.learn || v.me.forward))

abbrev pub blocked_work : Delays → RoleView → ℕ
blocked_work c v =
    3 * bit v.me.proposed
    + bit (not v.me.agree)
    + bit (not (v.me.rb_while == 2 * c.hello_time))
    + bit (not (v.me.fd_while == c.forward_delay) || v.me.sync || v.me.re_root || not v.me.synced)

-- The states that are left unconditionally count one more than the state that they lead to.
abbrev pub state_work : Delays → RoleView → PrtsmState → ℕ
state_work c v PrtsmState.init_port = 64
state_work c v PrtsmState.disable_port = 2 * disabled_work c v + 1
state_work c v PrtsmState.disabled_port = 2 * disabled_work c v
state_work c v PrtsmState.root_port = 2 * root_work c v
state_work c v PrtsmState.root_proposed = 2 * root_work c v + 1
state_work c v PrtsmState.root_agreed = 2 * root_work c v + 1
state_work c v PrtsmState.root_synced = 2 * root_work c v + 1
state_work c v PrtsmState.reroot = 2 * root_work c v + 1
state_work c v PrtsmState.root_forward = 2 * root_work c v + 1
state_work c v PrtsmState.root_learn = 2 * root_work c v + 1
state_work c v PrtsmState.rerooted = 2 * root_work c v + 1
state_work c v PrtsmState.designated_port = 2 * designated_work v
state_work c v PrtsmState.block_port = 2 * blocked_work c v + 1
state_work c v PrtsmState.backup_port = 2 * blocked_work c v + 1
state_work c v PrtsmState.alternate_proposed = 2 * blocked_work c v + 1
state_work c v PrtsmState.alternate_agreed = 2 * blocked_work c v + 1
state_work c v PrtsmState.alternate_port = 2 * blocked_work c v
state_work c v _ = 2 * designated_work v + 1

abbrev pub is_init : PrtsmState → Bool
is_init PrtsmState.init_port = true
is_init _ = false

unfoldable pub work : Delays → RoleView → ℕ
work c v =
    if is_init v.me.prtsm_state
    then 64
    else if role_changes v.me
    then 32
    else state_work c v v.me.prtsm_state
