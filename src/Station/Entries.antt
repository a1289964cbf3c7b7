-- ===== src/Station/Entries.antt =====
-- mstp.c, __br_state_machines_run: on the invariant of a bridge, through the machines of an entry.
use mathlib.Core.Path.{subst}
use mathlib.Core.Option
use mstpd.Prelude.{ℕ, ◌≡◌, some, List, refl, sym, Option-cases, inl, inr, length}
use mstpd.Types.{Bridge, Port, PerTreePort}
use mstpd.PortInformation
use mstpd.RoleTransitions
use mstpd.RoleTransitions.View.{delays}
use mstpd.StateTransition
use mstpd.TopologyChange
use mstpd.Station.Grid.{
  set_entry, Line, Station, Place, place, rest, entries, entry_at, get_at, column, insert_at,
  put_column,
}
use mstpd.Station.Rows.{inform_entry, inform_line, info_view, state_view, move_entry, move_line}
use mstpd.Station.Cells.{transit_entry, role_view, change_entry, topology_view}
use mstpd.Station.Keep.{All2, All2-insert_at, All2-weaken, for_from_keeps}
use mstpd.Station.Sound.{Tracks, Tracks-refl, Tracks-trans, TracksNode}
use mstpd.Station.Access.{NodeBy-refl, NodeBy-with_entries, NodeBy-set_entry, put_column-All2}
use mstpd.Station.Moves.{Moves}
use mstpd.Station.Informs.{inform-Moves}
use mstpd.Station.Steps.{transit-Moves, move-Moves, change-Moves}
use mstpd.Station.Carry.{
  TracksLine, TracksLine-refl, TracksLine-trans, Carries, Carries-refl, lines-Carries,
}

pub inform_entry-Tracks :
    (fuel : ℕ) (br : Bridge) (j : ℕ) (l m : Line)
    → inform_entry fuel br j l ≡ some m
    → TracksLine l m
unfolding inform_entry
inform_entry-Tracks fuel br j l m e d = elim (Option-cases (place j (entries l.node))) [
  | inl n ↦
      subst (λ (x : Line). TracksNode l.node x.node)
        (Option.some-injective _ _ (rw (n, inform_entry) at e))
        (NodeBy-refl Tracks Tracks-refl Tracks-trans l.node)
  | inr (q, n) ↦ elim (Option-cases (PortInformation.Run.run fuel (info_view br l q))) [
    | inl r ↦ cc (rw (n, r, inform_entry) at e)
    | inr (w, r) ↦
        let k = inform-Moves fuel (info_view br l q) w r in
        subst (λ (x : Line). TracksNode l.node x.node)
          (Option.some-injective _ _ (rw (n, r, inform_entry) at e))
          (NodeBy-with_entries Tracks Tracks-refl Tracks-trans l.node w.port
            (insert_at j w.me w.others) k.alive
            (All2-insert_at Tracks Tracks-refl Tracks-trans j (entries l.node) w.me w.others n k.me
              k.others))
  ]
]

pub inform_line-Tracks :
    (fuel : ℕ) (br : Bridge) (l m : Line) → inform_line fuel br l ≡ some m → TracksLine l m
inform_line-Tracks fuel br l m =
    for_from_keeps TracksLine TracksLine-refl TracksLine-trans (inform_entry fuel br)
      (inform_entry-Tracks fuel br) 0 (length (entries l.node)) l m

pub move_entry-Tracks : (fuel j : ℕ) (l m : Line) → move_entry fuel j l ≡ some m → TracksLine l m
unfolding move_entry
move_entry-Tracks fuel j l m e d = elim (Option-cases (entry_at j l.node)) [
  | inl n ↦
      subst (λ (x : Line). TracksNode l.node x.node)
        (Option.some-injective _ _ (rw (n, move_entry) at e))
        (NodeBy-refl Tracks Tracks-refl Tracks-trans l.node)
  | inr (p, n) ↦ elim (Option-cases (StateTransition.run fuel (state_view l p))) [
    | inl r ↦ cc (rw (n, r, move_entry) at e)
    | inr (w, r) ↦
        let k = move-Moves fuel (state_view l p) w r d in
        subst (λ (x : Line). TracksNode l.node x.node)
          (Option.some-injective _ _ (rw (n, r, move_entry) at e))
          (NodeBy-set_entry Tracks Tracks-refl Tracks-trans j l.node w.port w.me n k.0 k.1)
  ]
]

pub move_line-Tracks : (fuel : ℕ) (l m : Line) → move_line fuel l ≡ some m → TracksLine l m
move_line-Tracks fuel l m =
    for_from_keeps TracksLine TracksLine-refl TracksLine-trans (move_entry fuel)
      (move_entry-Tracks fuel) 0 (length (entries l.node)) l m

-- A write to an entry, its port and the other entries of its tree.
pub cell-Tracks :
    (i j : ℕ) (q : Place Line) (p p' : PerTreePort) (l : Line) (prt : Port)
    (peers : List PerTreePort) (ls : List Line)
    → place i ls ≡ some q
    → entry_at j q.here.node ≡ some p
    → l.node ≡ set_entry j p' (record (q.here.node) { port = prt })
    → Moves p p' q.here.node.port prt (column j (rest q)) peers
    → All2 TracksLine ls (insert_at i l (put_column j peers (rest q)))
cell-Tracks i j q p p' l prt peers ls e f g k =
    All2-insert_at TracksLine TracksLine-refl TracksLine-trans i ls l (put_column j peers (rest q))
      e
      (λ _.
        subst (λ n. TracksNode q.here.node n) (sym g)
          (NodeBy-set_entry Tracks Tracks-refl Tracks-trans j q.here.node prt p' f k.me k.alive))
      (All2-weaken (λ l m. TracksNode l.node m.node) TracksLine (λ l m h _. h) (rest q)
        (put_column j peers (rest q))
        (put_column-All2 Tracks Tracks-refl Tracks-trans j (rest q) peers k.others))

pub transit_entry-Carries :
    (fuel i j : ℕ) (s t : Station) → transit_entry fuel i j s ≡ some t → Carries s t
unfolding transit_entry
transit_entry-Carries fuel i j s t e = elim (Option-cases (place i s.lines)) [
  | inl n ↦
      subst (Carries s) (Option.some-injective _ _ (rw (n, transit_entry) at e)) (Carries-refl s)
  | inr (q, n) ↦ elim (Option-cases (entry_at j q.here.node)) [
    | inl f ↦
        subst (Carries s) (Option.some-injective _ _ (rw (n, f, transit_entry) at e))
          (Carries-refl s)
    | inr (p, f) ↦
        let c = delays s.bridge q.here.node.port q.here.node.cist in
        elim (Option-cases (RoleTransitions.Run.run fuel c (role_view j q p))) [
          | inl r ↦ cc (rw (n, f, r, transit_entry) at e)
          | inr (w, r) ↦ lines-Carries s t (
              subst (λ (x : Station). All2 TracksLine s.lines x.lines)
                (Option.some-injective _ _ (rw (n, f, r, transit_entry) at e))
                (cell-Tracks i j q p w.me _ w.port w.peers s.lines n f refl
                  (transit-Moves fuel c (role_view j q p) w r)))
        ]
  ]
]

pub change_entry-Carries :
    (fuel i j : ℕ) (s t : Station) → change_entry fuel i j s ≡ some t → Carries s t
unfolding change_entry
change_entry-Carries fuel i j s t e = elim (Option-cases (place i s.lines)) [
  | inl n ↦
      subst (Carries s) (Option.some-injective _ _ (rw (n, change_entry) at e)) (Carries-refl s)
  | inr (q, n) ↦ elim (Option-cases (entry_at j q.here.node)) [
    | inl f ↦
        subst (Carries s) (Option.some-injective _ _ (rw (n, f, change_entry) at e))
          (Carries-refl s)
    | inr (p, f) ↦ elim (Option-cases (get_at j s.trees)) [
      | inl g ↦
          subst (Carries s) (Option.some-injective _ _ (rw (n, f, g, change_entry) at e))
            (Carries-refl s)
      | inr (tr, g) ↦
          let v = topology_view s.bridge j q p tr in
          elim (Option-cases (TopologyChange.Run.run fuel v)) [
            | inl r ↦ cc (rw (n, f, g, r, change_entry) at e)
            | inr (w, r) ↦ lines-Carries s t (
                subst (λ (x : Station). All2 TracksLine s.lines x.lines)
                  (Option.some-injective _ _ (rw (n, f, g, r, change_entry) at e))
                  (cell-Tracks i j q p w.me _ w.port w.peers s.lines n f refl
                    (change-Moves fuel v w r)))
          ]
    ]
  ]
]
