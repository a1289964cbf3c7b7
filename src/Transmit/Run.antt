-- ===== src/Transmit/Run.antt =====
-- mstp.c: the functions `PTSM_to_X`, the conditions of `PTSM_run`, and its recursion.
use mstpd.Prelude.{
  is_some, ℕ, zero, suc, ◌+◌, ◌%◌, ◌^◌, Bool, true, false, not, ◌&&◌, ◌||◌, Option, none, some,
  List, [], ◌∷◌, any_of, ltb, ◌==◌, if◌then◌else◌,
}
use mstpd.Rule.{first}
use mstpd.Enums.{PortRole, PtsmState, same_role}
use mstpd.Types.{Bridge, Port, PerTreePort, PortNode}
use mstpd.Transmit.Message.{TransmitView, tx_config, tx_mstp, tx_tcn}

-- A Designated Port, or a Root Port that propagates a topology change.
abbrev pub speaks : PerTreePort → Bool
speaks p =
    same_role PortRole.designated p.role
    || (same_role PortRole.root p.role && not (p.tc_while == 0))

-- The changes of `newInfo`, `newInfoMsti`, `txCount`, `tcAck` and `helloWhen`, of which each state
-- makes some.
abbrev pub update_port : (Port → Port) → TransmitView → TransmitView
update_port f v = record v { node = record (v.node) { port = f v.node.port } }

unfoldable pub to_transmit_init : TransmitView → TransmitView
to_transmit_init v =
    update_port
      (λ prt. record prt {
        ptsm_state = PtsmState.transmit_init;
        new_info = true;
        new_info_msti = true;
        tx_count = 0;
      })
      v

-- `PTSM_to_TRANSMIT_INIT(prt, false, true)`.
unfoldable pub to_transmit_init_dry : Port → Bool
to_transmit_init_dry prt =
    elim prt.ptsm_state [ PtsmState.transmit_init ↦ false | _ ↦ true ]
    || not prt.new_info
    || not prt.new_info_msti
    || not (prt.tx_count == 0)

unfoldable pub to_transmit_config : TransmitView → TransmitView
to_transmit_config v =
    update_port
      (λ prt. record prt {
        ptsm_state = PtsmState.transmit_config;
        new_info = false;
        tx_count = (prt.tx_count + 1) % 2 ^ 32;
        tc_ack = false;
      })
      (tx_config v)

unfoldable pub to_transmit_tcn : TransmitView → TransmitView
to_transmit_tcn v =
    update_port
      (λ prt. record prt {
        ptsm_state = PtsmState.transmit_tcn;
        new_info = false;
        tx_count = (prt.tx_count + 1) % 2 ^ 32;
      })
      (tx_tcn v)

unfoldable pub to_transmit_rstp : TransmitView → TransmitView
to_transmit_rstp v =
    update_port
      (λ prt. record prt {
        ptsm_state = PtsmState.transmit_rstp;
        new_info = false;
        new_info_msti = false;
        tx_count = (prt.tx_count + 1) % 2 ^ 32;
        tc_ack = false;
      })
      (tx_mstp v)

unfoldable pub to_transmit_periodic : TransmitView → TransmitView
to_transmit_periodic v =
    update_port
      (λ prt. record prt {
        ptsm_state = PtsmState.transmit_periodic;
        new_info = prt.new_info || speaks v.node.cist;
        new_info_msti = prt.new_info_msti || any_of speaks v.node.mstis;
      })
      v

unfoldable pub to_idle : TransmitView → TransmitView
to_idle v =
    update_port
      (λ prt. record prt {
        ptsm_state = PtsmState.idle;
        hello_when = v.node.cist.port_times.hello_time;
      })
      v

unfoldable pub enter : PtsmState → TransmitView → TransmitView
unfolding to_transmit_init to_transmit_config to_transmit_tcn to_transmit_rstp to_transmit_periodic
    to_idle
enter PtsmState.transmit_init v = to_transmit_init v
enter PtsmState.transmit_config v = to_transmit_config v
enter PtsmState.transmit_tcn v = to_transmit_tcn v
enter PtsmState.transmit_rstp v = to_transmit_rstp v
enter PtsmState.transmit_periodic v = to_transmit_periodic v
enter PtsmState.idle v = to_idle v

-- Is the role of the port in this tree not the selected one yet?
abbrev pub is_waiting : PerTreePort → Bool
is_waiting p = not p.selected || p.updt_info

-- `assurancePort`.
abbrev pub assurance_port : Port → Bool
assurance_port prt = prt.network_port && prt.oper_point_to_point_mac && prt.send_rstp

-- The conditions of IDLE in the order of the code, behind `allTransmitReady`.
abbrev pub idle_rules : Bridge → PortNode → List (Bool × PtsmState)
idle_rules br n =
    let may_send = ltb n.port.tx_count br.transmit_hold_count && not n.port.bpdu_filter_port in
    (n.port.hello_when == 0, PtsmState.transmit_periodic)
    ∷ (
      may_send
          && n.port.send_rstp
          && (n.port.new_info
              || (n.port.new_info_msti
                  && not (any_of (λ p. same_role PortRole.master p.role) n.mstis))
              || assurance_port n.port),
      PtsmState.transmit_rstp,
    )
    ∷ (
      may_send
          && not n.port.send_rstp
          && n.port.new_info
          && same_role PortRole.designated n.cist.role,
      PtsmState.transmit_config,
    )
    ∷ (
      may_send && not n.port.send_rstp && n.port.new_info && same_role PortRole.root n.cist.role,
      PtsmState.transmit_tcn,
    )
    ∷ []

abbrev pub state_rules : PtsmState → Bridge → PortNode → List (Bool × PtsmState)
state_rules PtsmState.idle br n =
    if is_waiting n.cist || any_of is_waiting n.mstis then [] else idle_rules br n
state_rules _ br n = (true, PtsmState.idle) ∷ []

unfoldable pub next : TransmitView → Option PtsmState
next v = first (state_rules v.node.port.ptsm_state v.bridge v.node)

-- `PTSM_run(prt, true)`.
unfoldable pub dry_run : TransmitView → Bool
dry_run v =
    if not v.node.port.port_enabled then to_transmit_init_dry v.node.port else is_some (next v)

-- `PTSM_run(prt, false)` on a port that is enabled; `none` if the fuel ran out.
unfoldable pub run_enabled : ℕ → TransmitView → Option TransmitView
run_enabled zero v = none
run_enabled (suc fuel) v = elim (next v) [ none ↦ some v | some t ↦ run_enabled fuel (enter t v) ]

-- `PTSM_run(prt, false)`. No state changes `portEnabled`, so the test is made once.
unfoldable pub run : ℕ → TransmitView → Option TransmitView
run fuel v = if not v.node.port.port_enabled then some (to_transmit_init v) else run_enabled fuel v
