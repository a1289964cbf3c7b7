-- ===== src/Station/StillCells.antt =====
-- mstp.c: on the machines of a port in a tree, and of a tree, when their dry runs report no change.
use mstpd.Prelude.{ℕ, zero, suc, false, some, List, ◌≡◌, refl, ap, ◌∙◌, Option-cases, inl, inr}
use mstpd.Types.{Tree}
use mstpd.RoleSelection
use mstpd.RoleSelection.Roles.{TreeView}
use mstpd.RoleTransitions
use mstpd.RoleTransitions.View.{RoleView, Delays, delays}
use mstpd.TopologyChange
use mstpd.TopologyChange.View.{TopologyView}
use mstpd.Station.Grid.{
  set_at, put_column, Line, Station, Place, place, rest, insert_at, column, entry_at, get_at,
}
use mstpd.Station.Rows.{with_node}
use mstpd.Station.Split.{
  set_at-get_at, insert_at-place, set_entry-entry_at, put_column-column,
  put_cist_members-cist_member, member_entries-msti_members,
}
use mstpd.Station.Cells.{
  put_cell, members_at, select_at, select_cist, select_msti, role_view, topology_view, select_tree,
  transit_entry, change_entry,
}
use mstpd.Station.Pass.{select_dry, transit_dry, change_dry}
use mstpd.Station.StillRows.{is_some-none}

select_still :
    (v : TreeView) → RoleSelection.Roles.dry_run v ≡ false → RoleSelection.Roles.run v ≡ v
unfolding RoleSelection.Roles.dry_run RoleSelection.Roles.run
select_still v h = rw h refl

with_tree :
    (s : Station) (j : ℕ) {t : Tree}
    → get_at j s.trees ≡ some t
    → (ls : List Line) → ls ≡ s.lines
    → record s { trees = set_at j t s.trees; lines = ls } ≡ s
with_tree s j e ls f =
    ap (λ ts. record s { trees = ts; lines = ls }) (set_at-get_at j s.trees e)
    ∙ ap (λ ls. record s { lines = ls }) f

abbrev tree_view : ℕ → Tree → Station → TreeView
tree_view j t s = record { tree = t; members = members_at j s.lines }

select_at_still :
    (j : ℕ) (t : Tree) (s : Station)
    → get_at j s.trees ≡ some t
    → RoleSelection.Roles.dry_run (tree_view j t s) ≡ false
    → select_at j t s ≡ s
unfolding select_cist select_msti
select_at_still zero t s e h =
    rw (select_still (tree_view 0 t s) h) (with_tree s 0 e _ (put_cist_members-cist_member s.lines))
select_at_still (suc j) t s e h = rw (select_still (tree_view (suc j) t s) h) (
    with_tree s (suc j) e _ (
      ap (λ ps. put_column (suc j) ps s.lines) (member_entries-msti_members (suc j) s.lines)
      ∙ put_column-column (suc j) s.lines))

pub select_tree_still : (j : ℕ) (s : Station) → select_dry j s ≡ false → select_tree j s ≡ some s
unfolding select_tree
select_tree_still j s h = elim (Option-cases (get_at j s.trees)) [
  | inl e ↦ rw (e, select_tree)
  | inr (t, e) ↦ rw (e, select_tree) (ap some (select_at_still j t s e (rw (e, select_dry) at h)))
]

transit_still :
    (fuel : ℕ) (c : Delays) (v : RoleView)
    → RoleTransitions.Run.dry_run c v ≡ false
    → RoleTransitions.Run.run (suc fuel) c v ≡ some v
unfolding RoleTransitions.Run.dry_run RoleTransitions.Run.run
transit_still fuel c v h = rw (is_some-none _ h, RoleTransitions.Run.run)

put_cell_still :
    (i j : ℕ) (q : Place Line) (s : Station)
    → place i s.lines ≡ some q
    → put_cell i j q q.here (column j (rest q)) s ≡ s
put_cell_still i j q s e =
    ap (λ ls. record s { lines = ls })
      (ap (insert_at i q.here) (put_column-column j (rest q)) ∙ insert_at-place i s.lines e)

pub transit_entry_still :
    (fuel i j : ℕ) (s : Station)
    → transit_dry i j s ≡ false
    → transit_entry (suc fuel) i j s ≡ some s
unfolding transit_entry
transit_entry_still fuel i j s h = elim (Option-cases (place i s.lines)) [
  | inl e ↦ rw (e, transit_entry)
  | inr (q, e) ↦ elim (Option-cases (entry_at j q.here.node)) [
    | inl f ↦ rw (e, f, transit_entry)
    | inr (p, f) ↦
        rw
          (
            e,
            f,
            transit_still fuel (delays s.bridge q.here.node.port q.here.node.cist) (role_view j q p)
                (rw (e, f, transit_dry) at h),
            transit_entry,
          )
          (ap (λ n. some (put_cell i j q (with_node n q.here) (column j (rest q)) s))
              (set_entry-entry_at j q.here.node f)
            ∙ ap some (put_cell_still i j q s e))
  ]
]

change_still :
    (fuel : ℕ) (v : TopologyView)
    → TopologyChange.Run.dry_run v ≡ false
    → TopologyChange.Run.run (suc fuel) v ≡ some v
unfolding TopologyChange.Run.dry_run TopologyChange.Run.run
change_still fuel v h = rw (is_some-none _ h, TopologyChange.Run.run)

pub change_entry_still :
    (fuel i j : ℕ) (s : Station) → change_dry i j s ≡ false → change_entry (suc fuel) i j s ≡ some s
unfolding change_entry
change_entry_still fuel i j s h = elim (Option-cases (place i s.lines)) [
  | inl e ↦ rw (e, change_entry)
  | inr (q, e) ↦ elim (Option-cases (entry_at j q.here.node)) [
    | inl f ↦ rw (e, f, change_entry)
    | inr (p, f) ↦ elim (Option-cases (get_at j s.trees)) [
      | inl g ↦ rw (e, f, g, change_entry)
      | inr (t, g) ↦
          rw
            (
              e,
              f,
              g,
              change_still fuel (topology_view s.bridge j q p t) (rw (e, f, g, change_dry) at h),
              change_entry,
            )
            (ap
                (λ n. some (
                  put_cell i j q (with_node n q.here) (column j (rest q))
                    (record s { trees = set_at j t s.trees })))
                (set_entry-entry_at j q.here.node f)
              ∙ ap
                  (λ ts. some (put_cell i j q q.here (column j (rest q)) (record s { trees = ts })))
                  (set_at-get_at j s.trees g)
              ∙ ap some (put_cell_still i j q s e))
    ]
  ]
]
