-- ===== src/Station/SettlingCells.antt =====
-- mstp.c, __br_state_machines_run: on PRTSM and TCSM, on a calm bridge.
use mathlib.Core.Path.{subst}
use mathlib.Core.Option
use mstpd.Prelude.{
  ℕ, zero, suc, ◌≡◌, some, List, [], ◌∷◌, refl, sym, ◌∙◌, ap, arith, Option-cases, inl, inr, All,
  length,
}
use mstpd.Enums.{PrtsmState, TcsmState}
use mstpd.Types.{Bridge, Tree, PerTreePort, PortNode}
use mstpd.RoleTransitions
use mstpd.RoleTransitions.View.{RoleView, Delays, delays}
use mstpd.RoleTransitions.Enter.{sync_all, re_root_all}
use mstpd.RoleTransitions.Rest.{run_comes_to_rest}
use mstpd.TopologyChange
use mstpd.TopologyChange.View.{TopologyView, new_tc_while, set_fdb_flush, set_tc_prop_tree}
use mstpd.TopologyChange.Rest.{run_comes_to_a_stop}
use mstpd.Station.Grid.{
  Line, Station, Place, place, rest, insert_at, entry_at, set_entry, get_at, set_at, put_column,
}
use mstpd.Station.Split.{push-here}
use mstpd.Station.Cells.{
  role_view, put_role, transit_entry, topology_view, put_topology, change_entry,
}
use mstpd.Station.Pass.{each_entry}
use mstpd.Station.Keep.{All2, All2-refl, All2-insert_at}
use mstpd.Station.Sound.{IsEasy}
use mstpd.Station.Steps.{transit-Moves, change-Moves}
use mstpd.Station.Entries.{cell-Tracks}
use mstpd.Station.Carry.{TracksLine}
use mstpd.Station.Calm.{Gives, Gives-for, IsCalmLine, OnlyCist, IsCalm, tracks_calm}

-- Neither machine counts BPDUs.
enter-count :
    (t : PrtsmState) (c : Delays) (v : RoleView)
    → (RoleTransitions.Enter.enter c t v).port.tx_count ≡ v.port.tx_count
unfolding RoleTransitions.Enter.enter sync_all re_root_all
enter-count PrtsmState.init_port c v = refl
enter-count _ c v = ground arith

run-count :
    (fuel : ℕ) (c : Delays) (v w : RoleView)
    → RoleTransitions.Run.run fuel c v ≡ some w
    → w.port.tx_count ≡ v.port.tx_count
unfolding RoleTransitions.Run.run
run-count zero c v w e = cc
run-count (suc fuel) c v w e = elim (Option-cases (RoleTransitions.Rules.next c v)) [
  | inl n ↦
      ap (λ (x : RoleView). x.port.tx_count)
        (sym (Option.some-injective _ _ (rw (n, RoleTransitions.Run.run) at e)))
  | inr (t, n) ↦
      run-count fuel c (RoleTransitions.Enter.enter c t v) w (rw (n, RoleTransitions.Run.run) at e)
      ∙ enter-count t c v
]

-- TCSM does not change the tree's MSTID either.
pub record Same (v w : TopologyView) : Type 0 where
  pub count : w.port.tx_count ≡ v.port.tx_count
  pub mstid : w.tree.mstid ≡ v.tree.mstid

pub enter-Same : (t : TcsmState) (v : TopologyView) → Same v (TopologyChange.Enter.enter t v)
unfolding TopologyChange.Enter.enter set_fdb_flush new_tc_while set_tc_prop_tree
    TopologyChange.View.topology_settles TopologyChange.View.topology_changes
enter-Same TcsmState.inactive v = record { count = ground arith; mstid = ground arith }
enter-Same _ v = record { count = ground arith; mstid = ground arith }

change-Same : (fuel : ℕ) (v w : TopologyView) → TopologyChange.Run.run fuel v ≡ some w → Same v w
unfolding TopologyChange.Run.run
change-Same zero v w e = cc
change-Same (suc fuel) v w e = elim (Option-cases (TopologyChange.Run.next v)) [
  | inl n ↦
      subst (Same v) (Option.some-injective _ _ (rw (n, TopologyChange.Run.run) at e))
        (record { count = refl; mstid = refl })
  | inr (t, n) ↦
      let k = enter-Same t v in
      let r =
        change-Same fuel (TopologyChange.Enter.enter t v) w (rw (n, TopologyChange.Run.run) at e) in
      record { count = r.count ∙ k.count; mstid = r.mstid ∙ k.mstid }
]

-- The ports keep their counts, when entries are written.
abbrev pub SameCount : Line → Line → Type 0
SameCount l m = m.node.port.tx_count ≡ l.node.port.tx_count

SameCount-refl : (l : Line) → SameCount l l
SameCount-refl l = refl

SameCount-trans : (l m k : Line) → SameCount l m → SameCount m k → SameCount l k
SameCount-trans l m k h g = g ∙ h

pub set_entry-count :
    (j : ℕ) (p : PerTreePort) (n : PortNode) → (set_entry j p n).port.tx_count ≡ n.port.tx_count
set_entry-count zero p n = refl
set_entry-count (suc j) p n = refl

put_column-count :
    (j : ℕ) (ps : List PerTreePort) (ls : List Line) → All2 SameCount ls (put_column j ps ls)
unfolding put_column
put_column-count j ps [] = tt
put_column-count j [] (l ∷ ls) = All2-refl SameCount SameCount-refl SameCount-trans (l ∷ ls)
put_column-count j (p ∷ ps) (l ∷ ls) = elim (Option-cases (entry_at j l.node)) [
  | inl e ↦ rw (e, put_column) (refl, put_column-count j (p ∷ ps) ls)
  | inr (q, e) ↦ rw (e, put_column) (set_entry-count j p l.node, put_column-count j ps ls)
]

pub cell-count :
    (i j : ℕ) (q : Place Line) (l : Line) (peers : List PerTreePort) (ls : List Line)
    → place i ls ≡ some q
    → SameCount q.here l
    → All2 SameCount ls (insert_at i l (put_column j peers (rest q)))
cell-count i j q l peers ls e c =
    All2-insert_at SameCount SameCount-refl SameCount-trans i ls l (put_column j peers (rest q)) e c
      (put_column-count j peers (rest q))

pub calm_lines :
    (br : Bridge) (ls ms : List Line)
    → All (IsCalmLine br) ls
    → All2 TracksLine ls ms
    → All2 SameCount ls ms
    → All (IsCalmLine br) ms
calm_lines br [] [] h t c = tt
calm_lines br [] (m ∷ ms) h t c = absurd t
calm_lines br (l ∷ ls) [] h t c = absurd t
calm_lines br (l ∷ ls) (m ∷ ms) h t c =
    (tracks_calm br l m h.0 t.0 (omega (arith, c.0, h.0.counted)), calm_lines br ls ms h.1 t.1 c.1)

-- The entry that a machine finds is the CIST's, and easy.
place-calm :
    (br : Bridge) (i : ℕ) (ls : List Line) {q : Place Line}
    → All (IsCalmLine br) ls
    → place i ls ≡ some q
    → IsCalmLine br q.here
unfolding place
place-calm br i [] h e = cc
place-calm br zero (l ∷ ls) h e =
    subst (λ (q : Place Line). IsCalmLine br q.here) (Option.some-injective _ _ e) h.0
place-calm br (suc i) (l ∷ ls) h e =
    let (p, a, b) = push-here l (place i ls) e in
    subst (λ (q : Place Line). IsCalmLine br q.here) (sym b) (place-calm br i ls h.1 a)

entry-IsEasy :
    (br : Bridge) (j : ℕ) (l : Line) {p : PerTreePort}
    → IsCalmLine br l
    → entry_at j l.node ≡ some p
    → IsEasy p
unfolding get_at
entry-IsEasy br zero l h e = subst IsEasy (Option.some-injective _ _ e) h.easy
entry-IsEasy br (suc j) l {p} h e =
    let f : get_at j [] ≡ some p = subst (λ ps. get_at j ps ≡ some p) h.alone e in cc

transit_entry-IsCalm :
    (fuel i j : ℕ) (s : Station) → IsCalm fuel s → Gives (transit_entry fuel i j s) (IsCalm fuel)
unfolding transit_entry
transit_entry-IsCalm fuel i j s h = elim (Option-cases (place i s.lines)) [
  | inl n ↦ (s, rw (n, transit_entry) refl, h)
  | inr (q, n) ↦ elim (Option-cases (entry_at j q.here.node)) [
    | inl f ↦ (s, rw (n, f, transit_entry) refl, h)
    | inr (p, f) ↦
        let c = delays s.bridge q.here.node.port q.here.node.cist in
        let v = role_view j q p in
        let y = entry-IsEasy s.bridge j q.here (place-calm s.bridge i s.lines h.lines n) f in
        let r =
          run_comes_to_rest fuel c v
            (record {
              coherent = y.coherent;
              role_tame = y.role_tame;
              selected_tame = y.selected_tame;
            })
            h.enough in
        let w = r.final in
        let t = put_role i j q w s in
        (
          t,
          rw (n, f, r.reached, transit_entry) refl,
          record {
            migrate = h.migrate;
            bounded = h.bounded;
            fuelled = h.fuelled;
            enough = h.enough;
            trees = h.trees;
            lines =
                calm_lines s.bridge s.lines t.lines h.lines
                  (cell-Tracks i j q p w.me _ w.port w.peers s.lines n f refl
                    (transit-Moves fuel c v w r.reached))
                  (cell-count i j q _ w.peers s.lines n (
                    set_entry-count j w.me (record (q.here.node) { port = w.port })
                    ∙ run-count fuel c v w r.reached));
          },
        )
  ]
]

pub transit-IsCalm :
    (fuel : ℕ) (s : Station)
    → IsCalm fuel s
    → Gives (each_entry (transit_entry fuel) s) (IsCalm fuel)
transit-IsCalm fuel s =
    Gives-for (IsCalm fuel) _
      (λ i t.
        Gives-for (IsCalm fuel) (transit_entry fuel i) (transit_entry-IsCalm fuel i) 0
          (length s.trees) t)
      0 (length s.lines) s

-- The tree that TCSM writes back is the CIST still.
pub set_at-OnlyCist :
    (j : ℕ) (ts : List Tree) (t u : Tree)
    → OnlyCist ts
    → get_at j ts ≡ some t
    → u.mstid ≡ t.mstid
    → OnlyCist (set_at j u ts)
unfolding get_at set_at
set_at-OnlyCist j [] t u h e m = h
set_at-OnlyCist zero (x ∷ []) t u h e m =
    m ∙ sym (ap (λ (x : Tree). x.mstid) (Option.some-injective _ _ e)) ∙ h
set_at-OnlyCist (suc j) (x ∷ []) t u h e m = h
set_at-OnlyCist j (x ∷ y ∷ ts) t u h e m = absurd h

change_entry-IsCalm :
    (fuel i j : ℕ) (s : Station) → IsCalm fuel s → Gives (change_entry fuel i j s) (IsCalm fuel)
unfolding change_entry
change_entry-IsCalm fuel i j s h = elim (Option-cases (place i s.lines)) [
  | inl n ↦ (s, rw (n, change_entry) refl, h)
  | inr (q, n) ↦ elim (Option-cases (entry_at j q.here.node)) [
    | inl f ↦ (s, rw (n, f, change_entry) refl, h)
    | inr (p, f) ↦ elim (Option-cases (get_at j s.trees)) [
      | inl g ↦ (s, rw (n, f, g, change_entry) refl, h)
      | inr (tr, g) ↦
          let v = topology_view s.bridge j q p tr in
          let r = run_comes_to_a_stop fuel v (omega (arith, h.enough)) in
          let w = r.final in
          let k = change-Same fuel v w r.reached in
          let t = put_topology i j q w s in
          (
            t,
            rw (n, f, g, r.reached, change_entry) refl,
            record {
              migrate = h.migrate;
              bounded = h.bounded;
              fuelled = h.fuelled;
              enough = h.enough;
              trees = set_at-OnlyCist j s.trees tr w.tree h.trees g k.mstid;
              lines =
                  calm_lines s.bridge s.lines t.lines h.lines
                    (cell-Tracks i j q p w.me _ w.port w.peers s.lines n f refl
                      (change-Moves fuel v w r.reached))
                    (cell-count i j q _ w.peers s.lines n
                      (set_entry-count j w.me (record (q.here.node) { port = w.port }) ∙ k.count));
            },
          )
    ]
  ]
]

pub change-IsCalm :
    (fuel : ℕ) (s : Station)
    → IsCalm fuel s
    → Gives (each_entry (change_entry fuel) s) (IsCalm fuel)
change-IsCalm fuel s =
    Gives-for (IsCalm fuel) _
      (λ i t.
        Gives-for (IsCalm fuel) (change_entry fuel i) (change_entry-IsCalm fuel i) 0
          (length s.trees) t)
      0 (length s.lines) s
