-- ===== src/PortInformation/Run.antt =====
-- mstp.c: the conditions of `PISM_run`, and its recursion.
use mstpd.Prelude.{
  ℕ, zero, suc, Bool, true, not, ◌&&◌, ◌||◌, Option, none, some, List, [], ◌∷◌, is_some, ◌==◌,
  if◌then◌else◌,
}
use mstpd.Rule.{first}
use mstpd.Enums.{PortInfo, InfoOrigin, PismState, same_origin}
use mstpd.PortInformation.View.{InfoView, is_cist, cist_of}
use mstpd.PortInformation.Enter.{enter}

-- `rcvdXstMsg` and `updtXstInfo`.
abbrev pub rcvd_xst_msg : InfoView → Bool
rcvd_xst_msg v = if is_cist v then v.me.rcvd_msg else not (cist_of v).rcvd_msg && v.me.rcvd_msg

abbrev pub updt_xst_info : InfoView → Bool
updt_xst_info v = if is_cist v then v.me.updt_info else v.me.updt_info || (cist_of v).updt_info

-- The state after RECEIVE.
abbrev pub info_state : PortInfo → PismState
info_state PortInfo.superior_designated_info = PismState.superior_designated
info_state PortInfo.repeated_designated_info = PismState.repeated_designated
info_state PortInfo.inferior_designated_info = PismState.inferior_designated
info_state PortInfo.inferior_root_alternate_info = PismState.not_designated
info_state PortInfo.other_info = PismState.other

-- The conditions of each state, in the order of the code.
abbrev pub state_rules : PismState → InfoView → List (Bool × PismState)
state_rules PismState.disabled v =
    (v.port.port_enabled, PismState.aged) ∷ (v.me.rcvd_msg, PismState.disabled) ∷ []
state_rules PismState.aged v = (v.me.selected && v.me.updt_info, PismState.update) ∷ []
state_rules PismState.current v =
    (rcvd_xst_msg v && not (updt_xst_info v), PismState.receive)
    ∷ (
      same_origin InfoOrigin.received v.me.info_is
          && v.me.rcvd_info_while == 0
          && not v.me.updt_info
          && not (rcvd_xst_msg v),
      PismState.aged,
    )
    ∷ (v.me.selected && v.me.updt_info, PismState.update)
    ∷ []
state_rules PismState.receive v = (true, info_state v.me.rcvd_info) ∷ []
state_rules _ v = (true, PismState.current) ∷ []

-- The test before the switch.
abbrev pub shuts_down : InfoView → Bool
shuts_down v = not v.port.port_enabled && not (same_origin InfoOrigin.disabled v.me.info_is)

abbrev pub all_rules : PismState → InfoView → List (Bool × PismState)
all_rules s v = if shuts_down v then (true, PismState.disabled) ∷ [] else state_rules s v

unfoldable pub next : InfoView → Option PismState
next v = first (all_rules v.me.pism_state v)

-- `PISM_run(ptp, true)`.
unfoldable pub dry_run : InfoView → Bool
dry_run v = is_some (next v)

-- `PISM_run(ptp, false)`; `none` if the fuel ran out.
unfoldable pub run : ℕ → InfoView → Option InfoView
run zero v = none
run (suc fuel) v = elim (next v) [ none ↦ some v | some t ↦ run fuel (enter t v) ]
