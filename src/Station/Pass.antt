-- ===== src/Station/Pass.antt =====
-- mstp.c: __br_state_machines_run, one round over all machines of a bridge, as the actual run and as
-- the dry run.
use mstpd.Prelude.{
  ℕ, Bool, false, ◌||◌, Option, none, some, any_of, length, ◌>>=◌, traverse, for_from, any_from,
}
use mstpd.Types.{Bridge}
use mstpd.Station.Grid.{Line, Station, place, entries, entry_at, get_at}
use mstpd.Receive
use mstpd.Migration
use mstpd.EdgeDetection
use mstpd.Transmit
use mstpd.Transmit.Run.{assurance_port}
use mstpd.PortInformation
use mstpd.RoleSelection
use mstpd.RoleSelection.Roles.{TreeView}
use mstpd.RoleTransitions
use mstpd.RoleTransitions.View.{delays}
use mstpd.StateTransition
use mstpd.TopologyChange
use mstpd.Station.Rows.{
  assurance_line, loses_assurance, receive_line, migrate_line, detect_line, transmit_line,
  transmit_view, info_view, state_view, inform_line, move_line,
}
use mstpd.Station.Cells.{
  members_at, role_view, topology_view, select_tree, transit_entry, change_entry,
}

-- `FOREACH_PORT_IN_BRIDGE`.
abbrev pub each_line : (Line → Option Line) → Station → Option Station
each_line f s = elim (traverse f s.lines) [ none ↦ none | some ls ↦ some (record s { lines = ls }) ]

-- `FOREACH_PORT_IN_BRIDGE` around `FOREACH_PTP_IN_PORT`.
abbrev pub each_entry : (ℕ → ℕ → Station → Option Station) → Station → Option Station
each_entry f s = for_from 0 (length s.lines) (λ i. for_from 0 (length s.trees) (f i)) s

-- The nine loops, each with its machine, and before them the one for Bridge Assurance.
abbrev pub assure : Station → Option Station
assure s = each_line assurance_line s

abbrev pub receive : Station → Option Station
receive s = each_line (receive_line s.bridge) s

abbrev pub migrate : ℕ → Station → Option Station
migrate fuel s = each_line (migrate_line fuel s.bridge) s

abbrev pub detect : Station → Option Station
detect s = each_line detect_line s

abbrev pub transmit : ℕ → Station → Option Station
transmit fuel s = each_line (transmit_line fuel s.bridge) s

abbrev pub inform : ℕ → Station → Option Station
inform fuel s = each_line (inform_line fuel s.bridge) s

abbrev pub select : Station → Option Station
select s = for_from 0 (length s.trees) select_tree s

abbrev pub transit : ℕ → Station → Option Station
transit fuel s = each_entry (transit_entry fuel) s

abbrev pub move : ℕ → Station → Option Station
move fuel s = each_line (move_line fuel) s

abbrev pub change : ℕ → Station → Option Station
change fuel s = each_entry (change_entry fuel) s

-- `__br_state_machines_run(br, false)`; `none` if the fuel of some machine ran out.
unfoldable pub pass : ℕ → Station → Option Station
pass fuel s =
    assure s
    >>= receive
    >>= migrate fuel
    >>= detect
    >>= transmit fuel
    >>= inform fuel
    >>= select
    >>= transit fuel
    >>= move fuel
    >>= change fuel

-- The dry runs.
abbrev pub inform_dry : Bridge → ℕ → Line → Bool
inform_dry br j l = elim (place j (entries l.node)) [
  | none ↦ false
  | some q ↦ PortInformation.Run.dry_run (info_view br l q)
]

abbrev pub move_dry : ℕ → Line → Bool
move_dry j l = elim (entry_at j l.node) [
  | none ↦ false
  | some p ↦ StateTransition.dry_run (state_view l p)
]

abbrev pub select_dry : ℕ → Station → Bool
select_dry j s = elim (get_at j s.trees) [
  | none ↦ false
  | some t ↦ RoleSelection.Roles.dry_run (record { tree = t; members = members_at j s.lines })
]

abbrev pub transit_dry : ℕ → ℕ → Station → Bool
transit_dry i j s = elim (place i s.lines) [
  | none ↦ false
  | some q ↦ elim (entry_at j q.here.node) [
    | none ↦ false
    | some p ↦
        RoleTransitions.Run.dry_run (delays s.bridge q.here.node.port q.here.node.cist)
          (role_view j q p)
  ]
]

abbrev pub change_dry : ℕ → ℕ → Station → Bool
change_dry i j s = elim (place i s.lines) [
  | none ↦ false
  | some q ↦ elim (entry_at j q.here.node) [
    | none ↦ false
    | some p ↦ elim (get_at j s.trees) [
      | none ↦ false
      | some t ↦ TopologyChange.Run.dry_run (topology_view s.bridge j q p t)
    ]
  ]
]

-- Does a test hold at some port and tree?
abbrev pub any_entry : (ℕ → ℕ → Bool) → Station → Bool
any_entry f s = any_from 0 (length s.lines) (λ i. any_from 0 (length s.trees) (f i))

-- `__br_state_machines_run(br, true)`.
unfoldable pub dry_pass : Station → Bool
dry_pass s =
    any_of (λ l. loses_assurance l.node.port) s.lines
    || any_of (λ l. Receive.dry_run s.bridge l.node) s.lines
    || any_of (λ l. Migration.dry_run s.bridge l.node.port) s.lines
    || any_of (λ l. EdgeDetection.dry_run l.node) s.lines
    || any_of (λ l. Transmit.Run.dry_run (transmit_view s.bridge l)) s.lines
    || any_of (λ l. any_from 0 (length (entries l.node)) (λ j. inform_dry s.bridge j l)) s.lines
    || any_from 0 (length s.trees) (λ j. select_dry j s)
    || any_entry (λ i j. transit_dry i j s) s
    || any_of (λ l. any_from 0 (length (entries l.node)) (λ j. move_dry j l)) s.lines
    || any_entry (λ i j. change_dry i j s) s
