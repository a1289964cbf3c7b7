-- ===== src/Enums.antt =====
-- mstp.h: the enumerations of the protocol, and `==` on them.
use mstpd.Prelude.{ℕ, ◌≡◌, ◌↔◌, Bool, true, false, arith, leb}

-- BR_STATE_xxx of the kernel's bridge.
pub data BrState : Type 0 where
  disabled listening learning forwarding blocking : BrState

pub data PortInfo : Type 0 where
  other_info superior_designated_info repeated_designated_info : PortInfo
  inferior_designated_info inferior_root_alternate_info : PortInfo

pub data InfoOrigin : Type 0 where
  disabled mine aged received : InfoOrigin

pub data PortRole : Type 0 where
  disabled root designated alternate backup master : PortRole

-- `protocol_version_t` is an enumeration that also holds received octets, so a number.
abbrev pub proto_stp : ℕ
proto_stp = 0

abbrev pub proto_rstp : ℕ
proto_rstp = 2

abbrev pub proto_mstp : ℕ
proto_mstp = 3

abbrev pub bpdu_type_config : ℕ
bpdu_type_config = 0

abbrev pub bpdu_type_rst : ℕ
bpdu_type_rst = 2

abbrev pub bpdu_type_tcn : ℕ
bpdu_type_tcn = 128

pub data AdminP2p : Type 0 where
  auto force_true force_false : AdminP2p

-- 13.28, PRSM.
pub data PrsmState : Type 0 where
  discard receive : PrsmState

-- 13.29, PPMSM.
pub data PpmsmState : Type 0 where
  checking_rstp selecting_stp sensing : PpmsmState

-- 13.30, BDSM.
pub data BdsmState : Type 0 where
  edge not_edge : BdsmState

-- 13.31, PTSM.
pub data PtsmState : Type 0 where
  transmit_init transmit_config transmit_tcn transmit_rstp transmit_periodic idle : PtsmState

-- 13.32, PISM.
pub data PismState : Type 0 where
  disabled aged update superior_designated repeated_designated inferior_designated : PismState
  not_designated other current receive : PismState

-- 13.33, PRSSM.
pub data PrssmState : Type 0 where
  init_tree role_selection : PrssmState

-- 13.34, PRTSM.
pub data PrtsmState : Type 0 where
  init_port disable_port disabled_port : PrtsmState
  master_proposed master_agreed master_synced master_retired master_forward : PrtsmState
  master_learn master_discard master_port : PrtsmState
  root_proposed root_agreed root_synced reroot root_forward root_learn rerooted : PrtsmState
  root_port : PrtsmState
  designated_propose designated_agreed designated_synced designated_retired : PrtsmState
  designated_forward designated_learn designated_discard designated_port : PrtsmState
  block_port backup_port alternate_proposed alternate_agreed alternate_port : PrtsmState

-- 13.35, PSTSM.
pub data PstsmState : Type 0 where
  discarding learning forwarding : PstsmState

-- 13.36, TCSM.
pub data TcsmState : Type 0 where
  inactive learning detected notified_tcn notified_tc propagating acknowledged active : TcsmState

-- `==` on the enumerations.
abbrev pub same_br_state : BrState → BrState → Bool
same_br_state BrState.disabled BrState.disabled = true
same_br_state BrState.listening BrState.listening = true
same_br_state BrState.learning BrState.learning = true
same_br_state BrState.forwarding BrState.forwarding = true
same_br_state BrState.blocking BrState.blocking = true
same_br_state _ _ = false

abbrev pub same_role : PortRole → PortRole → Bool
same_role PortRole.disabled PortRole.disabled = true
same_role PortRole.root PortRole.root = true
same_role PortRole.designated PortRole.designated = true
same_role PortRole.alternate PortRole.alternate = true
same_role PortRole.backup PortRole.backup = true
same_role PortRole.master PortRole.master = true
same_role _ _ = false

abbrev pub same_origin : InfoOrigin → InfoOrigin → Bool
same_origin InfoOrigin.disabled InfoOrigin.disabled = true
same_origin InfoOrigin.mine InfoOrigin.mine = true
same_origin InfoOrigin.aged InfoOrigin.aged = true
same_origin InfoOrigin.received InfoOrigin.received = true
same_origin _ _ = false

pub same_br_state_iff : (a b : BrState) → (same_br_state a b ≡ true) ↔ (a ≡ b)
same_br_state_iff a b = (λ h. ground arith, λ h. ground arith)

pub same_role_iff : (a b : PortRole) → (same_role a b ≡ true) ↔ (a ≡ b)
same_role_iff a b = (λ h. ground arith, λ h. ground arith)

-- rstpVersion, at `ForceProtocolVersion`.
abbrev pub rstp_version : ℕ → Bool
rstp_version version = leb proto_rstp version
