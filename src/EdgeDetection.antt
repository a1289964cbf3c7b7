-- ===== src/EdgeDetection.antt =====
-- mstp.c, section 13.30: the Bridge Detection state machine (BDSM).
pub mod OneCall
use mstpd.Prelude.{Bool, true, false, not, ◌&&◌, ◌||◌, ◌==◌, if◌then◌else◌}
use mstpd.Enums.{BdsmState}
use mstpd.Types.{Port, PortNode}

unfoldable pub to_edge : Port → Port
to_edge prt = record prt { bdsm_state = BdsmState.edge; oper_edge = true }

unfoldable pub to_not_edge : Port → Port
to_not_edge prt = record prt { bdsm_state = BdsmState.not_edge; oper_edge = false }

unfoldable pub begin : Port → Port
unfolding to_edge to_not_edge
begin prt = if prt.admin_edge_port then to_edge prt else to_not_edge prt

-- The condition of the state's one branch.
unfoldable pub leaves : BdsmState → PortNode → Bool
leaves BdsmState.edge n =
    ((not n.port.port_enabled || not n.port.auto_edge) && not n.port.admin_edge_port)
    || not n.port.oper_edge
leaves BdsmState.not_edge n =
    (not n.port.port_enabled && n.port.admin_edge_port)
    || (0 == n.port.edge_delay_while && n.port.auto_edge && n.port.send_rstp && n.cist.proposing)

unfoldable pub other_state : BdsmState → Port → Port
unfolding to_edge to_not_edge
other_state BdsmState.edge prt = to_not_edge prt
other_state BdsmState.not_edge prt = to_edge prt

-- `BDSM_run(prt, true)`.
unfoldable pub dry_run : PortNode → Bool
unfolding leaves
dry_run n = leaves n.port.bdsm_state n

-- `BDSM_run(prt, false)`.
unfoldable pub run : PortNode → PortNode
unfolding leaves other_state
run n =
    if leaves n.port.bdsm_state n
    then record n { port = other_state n.port.bdsm_state n.port }
    else n
