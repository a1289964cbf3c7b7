-- ===== src/Station/Start.antt =====
-- mstp.c: br_state_machines_begin, prt_state_machines_begin and tree_state_machines_begin.
--
-- A machine that reads and writes only the port or the entry that it begins is a map over the list;
-- PSTSM also counts at the port and calls the driver, and TCSM reads the other ports.
use mstpd.Prelude.{
  ℕ, not, Option, none, some, List, [], ◌∷◌, map, length, ◌>>=◌, for_from, if◌then◌else◌,
}
use mstpd.Enums.{PortRole, PrssmState}
use mstpd.Types.{Bridge, Tree, Port, PerTreePort, PortNode, Output}
use mstpd.Receive
use mstpd.Migration
use mstpd.EdgeDetection
use mstpd.Transmit
use mstpd.PortInformation
use mstpd.RoleTransitions
use mstpd.RoleTransitions.View.{delays}
use mstpd.StateTransition
use mstpd.TopologyChange
use mstpd.Station.Grid.{
  Line, Station, place, entries, with_entries, entry_at, set_entry, set_at, get_at,
}
use mstpd.Station.Rows.{with_node, with_port, transmit_view}
use mstpd.Station.Cells.{topology_view, put_topology}
use mstpd.Station.Pass.{each_entry, select}
use mstpd.Station.Loop.{TimeSpec, br_state_machines_run}

-- PRSM_begin, PPMSM_begin, BDSM_begin and PTSM_begin.
abbrev pub begin_receive : Bridge → Line → Line
begin_receive br l = with_node (Receive.to_discard br l.node) l

abbrev pub begin_migrate : Bridge → Line → Line
begin_migrate br l = with_port (Migration.to_checking_rstp br l.node.port) l

abbrev pub begin_detect : Line → Line
begin_detect l = with_port (EdgeDetection.begin l.node.port) l

abbrev pub begin_transmit : Bridge → Line → Line
begin_transmit br l =
    let w = Transmit.Run.to_transmit_init (transmit_view br l) in
    record { node = w.node; out = w.out }

-- PISM_begin.
abbrev pub begin_info : Bridge → PortNode → PerTreePort → PerTreePort
begin_info br n p =
    (PortInformation.Enter.to_disabled
      (record { me = p; port = n.port; others = []; bridge = br })).me

-- PRSSM_begin, at the tree and at a port of the tree: updtRolesDisabledTree.
abbrev pub begin_tree : Tree → Tree
begin_tree t = record t { prssm_state = PrssmState.init_tree }

abbrev pub begin_selection : PerTreePort → PerTreePort
begin_selection p = record p { selected_role = PortRole.disabled }

-- PRTSM_begin.
abbrev pub begin_role : Bridge → PortNode → PerTreePort → PerTreePort
begin_role br n p =
    (RoleTransitions.Enter.to_init_port (delays br n.port n.cist)
      (record { me = p; port = n.port; peers = [] })).me

-- The entries of a port, or its entry in the tree with the given index.
abbrev pub each_ptp : (PortNode → PerTreePort → PerTreePort) → Line → Line
each_ptp f l =
    with_node (record (l.node) { cist = f l.node l.node.cist; mstis = map (f l.node) l.node.mstis })
      l

abbrev pub one_ptp : ℕ → (PortNode → PerTreePort → PerTreePort) → Line → Line
one_ptp j f l = elim (entry_at j l.node) [
  | none ↦ l
  | some p ↦ with_node (set_entry j (f l.node p) l.node) l
]

-- PSTSM_begin, at one entry after the other.
pub record Moved : Type 0 where
  pub entries : List PerTreePort
  pub port : Port
  pub out : List Output

unfoldable pub begin_states : List PerTreePort → Port → List Output → Moved
begin_states [] prt out = record { entries = []; port = prt; out = out }
begin_states (p ∷ ps) prt out =
    let w = StateTransition.to_discarding (record { me = p; port = prt; out = out }) in
    let r = begin_states ps w.port w.out in record r { entries = w.me ∷ r.entries }

unfoldable pub begin_move : Line → Line
begin_move l =
    let r = begin_states (entries l.node) l.node.port l.out in
    record { node = with_entries r.entries (record (l.node) { port = r.port }); out = r.out }

unfoldable pub begin_move_at : ℕ → Line → Line
begin_move_at j l = elim (entry_at j l.node) [
  | none ↦ l
  | some p ↦
      let w = StateTransition.to_discarding (record { me = p; port = l.node.port; out = l.out }) in
      record { node = set_entry j w.me (record (l.node) { port = w.port }); out = w.out }
]

-- TCSM_begin.
unfoldable pub begin_change : ℕ → ℕ → Station → Option Station
begin_change i j s = elim (place i s.lines) [
  | none ↦ some s
  | some q ↦ elim (entry_at j q.here.node) [
    | none ↦ some s
    | some p ↦ elim (get_at j s.trees) [
      | none ↦ some s
      | some t ↦
          some (
            put_topology i j q (TopologyChange.Enter.to_inactive (topology_view s.bridge j q p t))
              s)
    ]
  ]
]

abbrev pub map_lines : (Line → Line) → Station → Station
map_lines f s = record s { lines = map f s.lines }

-- The machines of all ports in all trees, up to PSTSM, in the order of br_state_machines_begin.
unfoldable pub begin_lines : Station → Station
begin_lines s =
    let br = s.bridge in
    let ports =
      map_lines (begin_transmit br)
        (map_lines begin_detect (map_lines (begin_migrate br) (map_lines (begin_receive br) s))) in
    let informed = map_lines (each_ptp (begin_info br)) ports in
    let selected =
      map_lines (each_ptp (λ n. begin_selection))
        (record informed { trees = map begin_tree informed.trees }) in
    map_lines begin_move (map_lines (each_ptp (begin_role br)) selected)

-- br_state_machines_begin; `none` as in br_state_machines_run.
unfoldable pub br_state_machines_begin : ℕ → TimeSpec → List TimeSpec → Station → Option Station
br_state_machines_begin fuel start tvs s =
    if not s.bridge.bridge_enabled
    then some s
    else (each_entry begin_change (begin_lines s) >>= br_state_machines_run fuel start tvs)

-- tree_state_machines_begin, for the tree with the given index.
unfoldable pub begin_tree_lines : ℕ → Station → Station
begin_tree_lines j s =
    let br = s.bridge in
    let informed = map_lines (one_ptp j (begin_info br)) s in
    let selected = map_lines (one_ptp j (λ n. begin_selection)) (elim (get_at j informed.trees) [
      | none ↦ informed
      | some t ↦ record informed { trees = set_at j (begin_tree t) informed.trees }
    ]) in
    map_lines (begin_move_at j) (map_lines (one_ptp j (begin_role br)) selected)

unfoldable pub tree_state_machines_begin :
    ℕ → ℕ → TimeSpec → List TimeSpec → Station → Option Station
tree_state_machines_begin j fuel start tvs s =
    if not s.bridge.bridge_enabled
    then some s
    else (for_from 0 (length s.lines) (λ i. begin_change i j) (begin_tree_lines j s)
        >>= br_state_machines_run fuel start tvs)

-- prt_state_machines_begin, for the port with the given index.
abbrev pub on_line : ℕ → (Line → Line) → Station → Station
on_line i f s = elim (get_at i s.lines) [
  | none ↦ s
  | some l ↦ record s { lines = set_at i (f l) s.lines }
]

abbrev pub begin_port : Bridge → Line → Line
begin_port br l =
    each_ptp (begin_info br)
      (begin_transmit br (begin_detect (begin_migrate br (begin_receive br l))))

unfoldable pub prt_state_machines_begin :
    ℕ → ℕ → TimeSpec → List TimeSpec → Station → Option Station
prt_state_machines_begin i fuel start tvs s =
    if not s.bridge.bridge_enabled
    then some s
    else (select (on_line i (begin_port s.bridge) s)
        >>= (λ t. some (on_line i (λ l. begin_move (each_ptp (begin_role s.bridge) l)) t))
        >>= (λ t. for_from 0 (length t.trees) (begin_change i) t)
        >>= br_state_machines_run fuel start tvs)
