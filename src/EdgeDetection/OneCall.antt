-- ===== src/EdgeDetection/OneCall.antt =====
-- mstp.c, BDSM_run: on one call, and `operEdge` after it.
use mstpd.Prelude.{◌≡◌, ◌≢◌, ◌⊎◌, inl, inr, Bool, true, false, arith, Bool-cases}
use mstpd.Enums.{BdsmState}
use mstpd.Types.{Port, PortNode}
use mstpd.EdgeDetection.{leaves, other_state, dry_run, run}

abbrev pub is_edge : BdsmState → Bool
is_edge BdsmState.edge = true
is_edge BdsmState.not_edge = false

-- Resting, and in step with the flag.
abbrev pub IsDetected : PortNode → Type 0
IsDetected n = (dry_run n ≡ false) × (n.port.oper_edge ≡ is_edge n.port.bdsm_state)

-- The port is enabled with its edge delay running, or one of these holds and `operEdge` is set
-- exactly in EDGE.
abbrev pub IsCurrent : BdsmState → Port → Type 0
IsCurrent s p =
    ((p.port_enabled ≡ true) × (p.edge_delay_while ≢ 0))
    ⊎ ((p.oper_edge ≡ is_edge s) × ((p.port_enabled ≡ true) ⊎ (p.edge_delay_while ≢ 0)))

moves :
    (n : PortNode) (s : BdsmState)
    → leaves s n ≡ true
    → IsCurrent s n.port
    → (n.port.oper_edge ≡ true → is_edge s ≡ true)
    → IsDetected (record n { port = other_state s n.port })
unfolding leaves other_state dry_run
moves n BdsmState.edge l h o = ground arith
moves n BdsmState.not_edge l h o = ground arith

stays :
    (n : PortNode) (s : BdsmState)
    → leaves s n ≡ false
    → (n.port.oper_edge ≡ true → is_edge s ≡ true)
    → n.port.oper_edge ≡ is_edge s
unfolding leaves
stays n BdsmState.edge l o = ground arith
stays n BdsmState.not_edge l o = ground arith

-- After one call of `BDSM_run` a dry run reports no change and `operEdge` is set exactly in the
-- state EDGE; this holds if before it was set only in EDGE, and either the port is enabled with its
-- edge delay running, or one of these holds and the flag was set exactly in EDGE.
pub run_detects :
    (n : PortNode)
    → IsCurrent n.port.bdsm_state n.port
    → (n.port.oper_edge ≡ true → is_edge n.port.bdsm_state ≡ true)
    → IsDetected (run n)
unfolding run
run_detects n h o = elim (Bool-cases (leaves n.port.bdsm_state n)) [
  | inl l ↦ rw l (moves n n.port.bdsm_state l h o)
  | inr l ↦ rw l (unfold dry_run in l, stays n n.port.bdsm_state l o)
]
