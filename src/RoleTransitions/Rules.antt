-- ===== src/RoleTransitions/Rules.antt =====
-- mstp.c: the conditions of `PRTSM_runr`, state by state, in the order of the code.
use mstpd.Prelude.{
  ◌*◌, Bool, true, not, ◌&&◌, ◌||◌, Option, some, List, [], ◌∷◌, ◌==◌, all_of, if◌then◌else◌,
}
use mstpd.Rule.{first}
use mstpd.Enums.{PortRole, PrtsmState, same_role}
use mstpd.Types.{PerTreePort}
use mstpd.RoleTransitions.View.{RoleView, Delays, all_synced}

-- A branch of the switch: its condition, and the state whose function it calls.
abbrev pub Rule : Type 0
Rule = Bool × PrtsmState

-- `selected && !updtInfo`.
abbrev pub is_ready : PerTreePort → Bool
is_ready p = p.selected && not p.updt_info

-- The first test of `PRTSM_runr`: the selected role is another than the role.
abbrev pub role_changes : PerTreePort → Bool
role_changes p = not (same_role p.role p.selected_role) && is_ready p

-- The state that the first switch enters.
abbrev pub entry : PortRole → PrtsmState
entry PortRole.disabled = PrtsmState.disable_port
entry PortRole.master = PrtsmState.master_port
entry PortRole.root = PrtsmState.root_port
entry PortRole.designated = PrtsmState.designated_port
entry PortRole.alternate = PrtsmState.block_port
entry PortRole.backup = PrtsmState.block_port

-- 17.20.10 of 802.1D.
unfoldable pub re_rooted : RoleView → Bool
re_rooted v = all_of (λ p. p.rr_while == 0) v.peers

module _ (c : Delays) (v : RoleView) where
  abbrev pub disable_rules : List Rule
  disable_rules =
      (is_ready v.me && not v.me.learning && not v.me.forwarding, PrtsmState.disabled_port) ∷ []

  abbrev pub disabled_rules : List Rule
  disabled_rules =
      (
        is_ready v.me
            && (v.me.sync || v.me.re_root || not v.me.synced || not (v.me.fd_while == c.max_age)),
        PrtsmState.disabled_port,
      )
      ∷ []

  abbrev pub master_rules : List Rule
  master_rules =
      (v.me.re_root && v.me.rr_while == 0, PrtsmState.master_retired)
      ∷ (
        (not v.me.learning && not v.me.forwarding && not v.me.synced)
            || (v.me.agreed && not v.me.synced)
            || (v.port.oper_edge && not v.me.synced)
            || (v.me.sync && v.me.synced),
        PrtsmState.master_synced,
      )
      ∷ (
        (all_synced v && not v.me.agree) || (v.me.proposed && v.me.agree),
        PrtsmState.master_agreed,
      )
      ∷ (v.me.proposed && not v.me.agree, PrtsmState.master_proposed)
      ∷ (
        (v.me.fd_while == 0 || all_synced v) && v.me.learn && not v.me.forward,
        PrtsmState.master_forward,
      )
      ∷ ((v.me.fd_while == 0 || all_synced v) && not v.me.learn, PrtsmState.master_learn)
      ∷ (
        ((v.me.sync && not v.me.synced)
              || (v.me.re_root && not (v.me.rr_while == 0))
              || v.me.disputed)
            && not v.port.oper_edge
            && (v.me.learn || v.me.forward),
        PrtsmState.master_discard,
      )
      ∷ []

  abbrev pub root_may_advance : Bool
  root_may_advance = v.me.fd_while == 0 || (re_rooted v && v.me.rb_while == 0 && c.rstp)

  abbrev pub root_rules : List Rule
  root_rules =
      (not v.me.forward && not v.me.re_root, PrtsmState.reroot)
      ∷ ((v.me.agreed && not v.me.synced) || (v.me.sync && v.me.synced), PrtsmState.root_synced)
      ∷ ((all_synced v && not v.me.agree) || (v.me.proposed && v.me.agree), PrtsmState.root_agreed)
      ∷ (v.me.proposed && not v.me.agree, PrtsmState.root_proposed)
      ∷ (root_may_advance && not v.me.learn, PrtsmState.root_learn)
      ∷ (root_may_advance && v.me.learn && not v.me.forward, PrtsmState.root_forward)
      ∷ (v.me.re_root && v.me.forward, PrtsmState.rerooted)
      ∷ (not (v.me.rr_while == c.fwd_delay), PrtsmState.root_port)
      ∷ []

  abbrev pub designated_may_advance : Bool
  designated_may_advance =
      (v.me.fd_while == 0 || v.me.agreed || v.port.oper_edge)
      && (v.me.rr_while == 0 || not v.me.re_root)
      && not v.me.sync
      && not v.port.ba_inconsistent

  abbrev pub designated_rules : List Rule
  designated_rules =
      (v.me.re_root && v.me.rr_while == 0, PrtsmState.designated_retired)
      ∷ (
        (not v.me.learning && not v.me.forwarding && not v.me.synced)
            || (v.me.agreed && not v.me.synced)
            || (v.port.oper_edge && not v.me.synced)
            || (v.me.sync && v.me.synced),
        PrtsmState.designated_synced,
      )
      ∷ (all_synced v && (v.me.proposed || not v.me.agree), PrtsmState.designated_agreed)
      ∷ (
        not v.me.forward && not v.me.agreed && not v.me.proposing && not v.port.oper_edge,
        PrtsmState.designated_propose,
      )
      ∷ (designated_may_advance && not v.me.learn, PrtsmState.designated_learn)
      ∷ (designated_may_advance && v.me.learn && not v.me.forward, PrtsmState.designated_forward)
      ∷ (
        ((v.me.sync && not v.me.synced)
              || (v.me.re_root && not (v.me.rr_while == 0))
              || v.me.disputed
              || v.port.ba_inconsistent)
            && not v.port.oper_edge
            && (v.me.learn || v.me.forward),
        PrtsmState.designated_discard,
      )
      ∷ []

  abbrev pub block_rules : List Rule
  block_rules =
      (is_ready v.me && not v.me.learning && not v.me.forwarding, PrtsmState.alternate_port) ∷ []

  abbrev pub alternate_rules : List Rule
  alternate_rules =
      (
        (all_synced v && not v.me.agree) || (v.me.proposed && v.me.agree),
        PrtsmState.alternate_agreed,
      )
      ∷ (v.me.proposed && not v.me.agree, PrtsmState.alternate_proposed)
      ∷ (
        not (v.me.rb_while == 2 * c.hello_time) && same_role PortRole.backup v.me.role,
        PrtsmState.backup_port,
      )
      ∷ (
        not (v.me.fd_while == c.forward_delay) || v.me.sync || v.me.re_root || not v.me.synced,
        PrtsmState.alternate_port,
      )
      ∷ []

  -- `if(!(ptp->selected && !ptp->updtInfo)) return false;` before the rules of a state.
  abbrev pub when_ready : List Rule → List Rule
  when_ready rs = if is_ready v.me then rs else []

  -- The second switch of `PRTSM_runr`.
  abbrev pub state_rules : PrtsmState → List Rule
  state_rules PrtsmState.init_port = (true, PrtsmState.disable_port) ∷ []
  state_rules PrtsmState.disable_port = disable_rules
  state_rules PrtsmState.disabled_port = disabled_rules
  state_rules PrtsmState.master_proposed = (true, PrtsmState.master_port) ∷ []
  state_rules PrtsmState.master_agreed = (true, PrtsmState.master_port) ∷ []
  state_rules PrtsmState.master_synced = (true, PrtsmState.master_port) ∷ []
  state_rules PrtsmState.master_retired = (true, PrtsmState.master_port) ∷ []
  state_rules PrtsmState.master_forward = (true, PrtsmState.master_port) ∷ []
  state_rules PrtsmState.master_learn = (true, PrtsmState.master_port) ∷ []
  state_rules PrtsmState.master_discard = (true, PrtsmState.master_port) ∷ []
  state_rules PrtsmState.master_port = when_ready master_rules
  state_rules PrtsmState.root_proposed = (true, PrtsmState.root_port) ∷ []
  state_rules PrtsmState.root_agreed = (true, PrtsmState.root_port) ∷ []
  state_rules PrtsmState.root_synced = (true, PrtsmState.root_port) ∷ []
  state_rules PrtsmState.reroot = (true, PrtsmState.root_port) ∷ []
  state_rules PrtsmState.root_forward = (true, PrtsmState.root_port) ∷ []
  state_rules PrtsmState.root_learn = (true, PrtsmState.root_port) ∷ []
  state_rules PrtsmState.rerooted = (true, PrtsmState.root_port) ∷ []
  state_rules PrtsmState.root_port = when_ready root_rules
  state_rules PrtsmState.designated_propose = (true, PrtsmState.designated_port) ∷ []
  state_rules PrtsmState.designated_agreed = (true, PrtsmState.designated_port) ∷ []
  state_rules PrtsmState.designated_synced = (true, PrtsmState.designated_port) ∷ []
  state_rules PrtsmState.designated_retired = (true, PrtsmState.designated_port) ∷ []
  state_rules PrtsmState.designated_forward = (true, PrtsmState.designated_port) ∷ []
  state_rules PrtsmState.designated_learn = (true, PrtsmState.designated_port) ∷ []
  state_rules PrtsmState.designated_discard = (true, PrtsmState.designated_port) ∷ []
  state_rules PrtsmState.designated_port = when_ready designated_rules
  state_rules PrtsmState.block_port = block_rules
  state_rules PrtsmState.backup_port = (true, PrtsmState.alternate_port) ∷ []
  state_rules PrtsmState.alternate_proposed = (true, PrtsmState.alternate_port) ∷ []
  state_rules PrtsmState.alternate_agreed = (true, PrtsmState.alternate_port) ∷ []
  state_rules PrtsmState.alternate_port = when_ready alternate_rules

  -- The state that one call of `PRTSM_runr` enters, if any.
  unfoldable pub next : Option PrtsmState
  next =
      if role_changes v.me
      then some (entry v.me.selected_role)
      else first (state_rules v.me.prtsm_state)
