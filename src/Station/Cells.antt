-- ===== src/Station/Cells.antt =====
-- mstp.c: the machines of __br_state_machines_run that read or write the entries of other ports.
use mstpd.Prelude.{ℕ, zero, suc, Option, none, some, List, [], ◌∷◌, map}
use mstpd.Types.{Bridge, PerTreePort, Tree}
use mstpd.Station.Grid.{
  Line, Station, Place, rest, place, insert_at, entry_at, set_entry, column, put_column, set_at,
  get_at,
}
use mstpd.RoleSelection
use mstpd.RoleSelection.Choose.{Member}
use mstpd.RoleSelection.Roles.{TreeView}
use mstpd.RoleTransitions
use mstpd.RoleTransitions.View.{RoleView, delays}
use mstpd.TopologyChange
use mstpd.TopologyChange.View.{TopologyView}
use mstpd.Station.Rows.{with_node}

-- The Port Role Selection machine of the CIST.
abbrev pub cist_member : Line → Member
cist_member l = record {
  me = l.node.cist;
  port = l.node.port;
  cist = l.node.cist;
  mstis = l.node.mstis;
}

abbrev pub put_cist_member : Member → Line → Line
put_cist_member m l = with_node (record (l.node) { cist = m.me; mstis = m.mstis }) l

unfoldable pub put_cist_members : List Member → List Line → List Line
put_cist_members ms [] = []
put_cist_members [] ls = ls
put_cist_members (m ∷ ms) (l ∷ ls) = put_cist_member m l ∷ put_cist_members ms ls

-- The Port Role Selection machine of an MSTI.
abbrev pub msti_member : Line → PerTreePort → Member
msti_member l p = record { me = p; port = l.node.port; cist = l.node.cist; mstis = [] }

unfoldable pub msti_members : ℕ → List Line → List Member
msti_members j [] = []
msti_members j (l ∷ ls) = elim (entry_at j l.node) [
  | none ↦ msti_members j ls
  | some p ↦ msti_member l p ∷ msti_members j ls
]

abbrev pub members_at : ℕ → List Line → List Member
members_at zero ls = map cist_member ls
members_at (suc j) ls = msti_members (suc j) ls

abbrev pub member_entries : List Member → List PerTreePort
member_entries ms = map (λ m. m.me) ms

unfoldable pub select_cist : Tree → Station → Station
select_cist t s =
    let v = RoleSelection.Roles.run (record { tree = t; members = map cist_member s.lines }) in
    record s { trees = set_at 0 v.tree s.trees; lines = put_cist_members v.members s.lines }

unfoldable pub select_msti : ℕ → Tree → Station → Station
select_msti j t s =
    let v = RoleSelection.Roles.run (record { tree = t; members = msti_members j s.lines }) in
    record s {
      trees = set_at j v.tree s.trees;
      lines = put_column j (member_entries v.members) s.lines;
    }

abbrev pub select_at : ℕ → Tree → Station → Station
select_at zero t s = select_cist t s
select_at (suc j) t s = select_msti (suc j) t s

unfoldable pub select_tree : ℕ → Station → Option Station
select_tree j s = elim (get_at j s.trees) [ none ↦ some s | some t ↦ some (select_at j t s) ]

-- The Port Role Transitions machine of a port in a tree.
abbrev pub role_view : ℕ → Place Line → PerTreePort → RoleView
role_view j q p = record { me = p; port = q.here.node.port; peers = column j (rest q) }

-- A port and its peers in a tree, after a machine of that tree.
abbrev pub put_cell : ℕ → ℕ → Place Line → Line → List PerTreePort → Station → Station
put_cell i j q l peers s = record s { lines = insert_at i l (put_column j peers (rest q)) }

abbrev pub put_role : ℕ → ℕ → Place Line → RoleView → Station → Station
put_role i j q w s =
    put_cell i j q (with_node (set_entry j w.me (record (q.here.node) { port = w.port })) q.here)
      w.peers s

unfoldable pub transit_entry : ℕ → ℕ → ℕ → Station → Option Station
transit_entry fuel i j s = elim (place i s.lines) [
  | none ↦ some s
  | some q ↦ elim (entry_at j q.here.node) [
    | none ↦ some s
    | some p ↦
        elim (RoleTransitions.Run.run fuel (delays s.bridge q.here.node.port q.here.node.cist)
          (role_view j q p)) [ none ↦ none | some w ↦ some (put_role i j q w s) ]
  ]
]

-- The Topology Change machine of a port in a tree.
abbrev pub topology_view : Bridge → ℕ → Place Line → PerTreePort → Tree → TopologyView
topology_view br j q p t = record {
  me = p;
  port = q.here.node.port;
  tree = t;
  peers = column j (rest q);
  bridge = br;
  cist_hello_time = q.here.node.cist.port_times.hello_time;
  cist_forward_delay = q.here.node.cist.designated_times.forward_delay;
  out = q.here.out;
}

abbrev pub put_topology : ℕ → ℕ → Place Line → TopologyView → Station → Station
put_topology i j q w s =
    put_cell i j q
      (record { node = set_entry j w.me (record (q.here.node) { port = w.port }); out = w.out })
      w.peers (record s { trees = set_at j w.tree s.trees })

unfoldable pub change_entry : ℕ → ℕ → ℕ → Station → Option Station
change_entry fuel i j s = elim (place i s.lines) [
  | none ↦ some s
  | some q ↦ elim (entry_at j q.here.node) [
    | none ↦ some s
    | some p ↦ elim (get_at j s.trees) [
      | none ↦ some s
      | some t ↦ elim (TopologyChange.Run.run fuel (topology_view s.bridge j q p t)) [
        | none ↦ none
        | some w ↦ some (put_topology i j q w s)
      ]
    ]
  ]
]
