-- ===== src/Station/Outset.antt =====
-- mstp.c, br_state_machines_begin: on the order of the bridge after it.
use mathlib.Core.Path.{subst}
use mathlib.Core.Option
use mstpd.Prelude.{
  ℕ, zero, suc, ◌≡◌, true, false, not, some, List, [], ◌∷◌, refl, Option-cases, inl, inr, arith,
  All, ◌>>=◌, >>=-eq-some, if◌then◌else◌,
}
use mstpd.Enums.{PortRole, TcsmState}
use mstpd.Types.{PerTreePort, PortNode}
use mstpd.TopologyChange
use mstpd.Station.Grid.{Line, Station, place, entry_at, get_at, column}
use mstpd.Station.Cells.{topology_view}
use mstpd.Station.Pass.{each_entry}
use mstpd.Station.Keep.{All2}
use mstpd.Station.Sound.{IsSound}
use mstpd.Station.Steps.{enter-Changes}
use mstpd.Station.Entries.{cell-Tracks}
use mstpd.Station.Columns.{roots}
use mstpd.Station.Carry.{
  SoundLine, IsOrderly, Carries, Carries-refl, TracksLine, lines-Carries, each_entry-Carries,
}
use mstpd.Station.Invariant.{run_keeps_order}
use mstpd.Station.Loop.{TimeSpec, br_state_machines_run}
use mstpd.Station.Entering.{IsBegun, LineBegun, begin_lines-LineBegun}
use mstpd.Station.Start.{begin_change, begin_lines, br_state_machines_begin}

-- A bridge of which no port is selected as the root port.
roots-disabled :
    (ps : List PerTreePort) → All (λ p. p.selected_role ≡ PortRole.disabled) ps → roots ps ≡ 0
roots-disabled [] h = refl
roots-disabled (p ∷ ps) h = rw (h.0, roots-disabled ps h.1) refl

get_at-All :
    (j : ℕ) (ps : List PerTreePort) (P : PerTreePort → Type 0) {p : PerTreePort}
    → All P ps
    → get_at j ps ≡ some p
    → P p
unfolding get_at
get_at-All j [] P h e = cc
get_at-All zero (p ∷ ps) P h e = subst P (Option.some-injective _ _ e) h.0
get_at-All (suc j) (p ∷ ps) P h e = get_at-All j ps P h.1 e

entry_at-IsBegun :
    (j : ℕ) (n : PortNode) (p : PerTreePort)
    → IsBegun n.cist
    → All IsBegun n.mstis
    → entry_at j n ≡ some p
    → p.selected_role ≡ PortRole.disabled
entry_at-IsBegun zero n p c ms e = (subst IsBegun (Option.some-injective _ _ e) c).1
entry_at-IsBegun (suc j) n p c ms e = (get_at-All j n.mstis IsBegun ms e).1

column-disabled :
    (j : ℕ) (ls : List Line)
    → All LineBegun ls
    → All (λ p. p.selected_role ≡ PortRole.disabled) (column j ls)
unfolding column
column-disabled j [] h = tt
column-disabled j (l ∷ ls) h = elim (Option-cases (entry_at j l.node)) [
  | inl e ↦ rw (e, column) (column-disabled j ls h.1)
  | inr (p, e) ↦
      rw (e, column) (entry_at-IsBegun j l.node p h.0.1 h.0.2 e, column-disabled j ls h.1)
]

All-first : (ps : List PerTreePort) → All IsBegun ps → All IsSound ps
All-first [] h = tt
All-first (p ∷ ps) h = (h.0.0, All-first ps h.1)

LineBegun-IsOrderly : (s : Station) → All LineBegun s.lines → IsOrderly s
LineBegun-IsOrderly s h = record {
  sound = sound s.lines h;
  one_root = λ j. omega (arith, roots-disabled (column j s.lines) (column-disabled j s.lines h));
}
  where
    sound : (ls : List Line) → All LineBegun ls → All SoundLine ls
    sound [] a = tt
    sound (l ∷ ls) a = ((a.0.0, a.0.1.0, All-first l.node.mstis a.0.2), sound ls a.1)

-- TCSM_begin keeps the order.
begin_change-Carries : (i j : ℕ) (s t : Station) → begin_change i j s ≡ some t → Carries s t
unfolding begin_change TopologyChange.Enter.enter
begin_change-Carries i j s t e = elim (Option-cases (place i s.lines)) [
  | inl n ↦
      subst (Carries s) (Option.some-injective _ _ (rw (n, begin_change) at e)) (Carries-refl s)
  | inr (q, n) ↦ elim (Option-cases (entry_at j q.here.node)) [
    | inl f ↦
        subst (Carries s) (Option.some-injective _ _ (rw (n, f, begin_change) at e))
          (Carries-refl s)
    | inr (p, f) ↦ elim (Option-cases (get_at j s.trees)) [
      | inl g ↦
          subst (Carries s) (Option.some-injective _ _ (rw (n, f, g, begin_change) at e))
            (Carries-refl s)
      | inr (tr, g) ↦
          let v = topology_view s.bridge j q p tr in
          let w = TopologyChange.Enter.to_inactive v in
          lines-Carries s t (
            subst (λ (x : Station). All2 TracksLine s.lines x.lines)
              (Option.some-injective _ _ (rw (n, f, g, begin_change) at e))
              (cell-Tracks i j q p w.me _ w.port w.peers s.lines n f refl
                (enter-Changes TcsmState.inactive v)))
    ]
  ]
]

-- When the state machines of an enabled bridge begin, whatever they did before, and run on, the
-- bridge is orderly in the end; it is asked only that no port of it is deleted.
pub begin_makes_order :
    (fuel : ℕ) (start : TimeSpec) (tvs : List TimeSpec) (s t : Station)
    → s.bridge.bridge_enabled ≡ true
    → All (λ l. l.node.port.deleted ≡ false) s.lines
    → br_state_machines_begin fuel start tvs s ≡ some t
    → IsOrderly t
unfolding br_state_machines_begin
begin_makes_order fuel start tvs s t b h e =
    let begun : (each_entry begin_change (begin_lines s) >>= br_state_machines_run fuel start tvs)
        ≡ some t =
      subst
        (λ x.
          (if not x
            then some s
            else (each_entry begin_change (begin_lines s) >>= br_state_machines_run fuel start tvs))
          ≡ some t)
        b e in
    let (u, f, g) =
      >>=-eq-some (each_entry begin_change (begin_lines s)) (br_state_machines_run fuel start tvs)
        begun in
    run_keeps_order fuel start tvs u t
      (each_entry-Carries begin_change begin_change-Carries (begin_lines s) u f
        (LineBegun-IsOrderly (begin_lines s) (begin_lines-LineBegun s h)))
      g
