-- ===== src/Station/Restart.antt =====
-- mstp.c, br_state_machines_begin, on bridges without MSTIs.
use mathlib.Core.Path.{subst}
use mstpd.Prelude.{
  ℕ, ◌+◌, ◌*◌, ◌^◌, ◌<◌, ◌≡◌, ◌≢◌, true, false, not, some, List, [], ◌∷◌, map, refl, sym, ◌∙◌, ap,
  All, any_of, ◌>>=◌, Option-cases, inl, inr, arith, length, if◌then◌else◌,
}
use mstpd.Enums.{TcsmState}
use mstpd.Types.{Bridge, Tree}
use mstpd.Receive
use mstpd.Transmit
use mstpd.PortInformation
use mstpd.RoleTransitions
use mstpd.StateTransition
use mstpd.StateTransition.{StateView}
use mstpd.TopologyChange
use mstpd.Station.Grid.{Line, Station, place, entry_at, get_at}
use mstpd.Station.Cells.{topology_view, put_topology}
use mstpd.Station.Pass.{each_entry}
use mstpd.Station.Sound.{IsEasy}
use mstpd.Station.Steps.{enter-Changes}
use mstpd.Station.Entries.{cell-Tracks}
use mstpd.Station.Carry.{IsOrderly}
use mstpd.Station.Loop.{TimeSpec, is_late, br_state_machines_run}
use mstpd.Station.Start.{
  begin_receive, begin_migrate, begin_detect, begin_transmit, begin_info, begin_selection,
  begin_role, begin_tree, each_ptp, begin_states, begin_move, begin_change, begin_lines,
  br_state_machines_begin,
}
use mstpd.Station.Entering.{change_state-Blocked, begin_ports-IsAlive, All-map}
use mstpd.Station.Outset.{begin_makes_order}
use mstpd.Station.Calm.{Gives, Gives-for, IsCalmLine, OnlyCist, IsCalm}
use mstpd.Station.SettlingCells.{
  calm_lines, cell-count, set_entry-count, set_at-OnlyCist, enter-Same,
}
use mstpd.Station.Returns.{run_returns}

-- A port without MSTIs that has a hello time, in whatever states its machines are.
pub record HasTimes (l : Line) : Type 0 where
  pub alive : l.node.port.deleted ≡ false
  pub alone : l.node.mstis ≡ []
  pub hello : l.node.cist.port_times.hello_time ≢ 0

-- The functions of a port, one after the other.
abbrev ported : Bridge → Line → Line
ported br l = begin_transmit br (begin_detect (begin_migrate br (begin_receive br l)))

record Ported (l m : Line) : Type 0 where
  mstis : l.node.mstis ≡ [] → m.node.mstis ≡ []
  hello : m.node.cist.port_times.hello_time ≡ l.node.cist.port_times.hello_time
  count : m.node.port.tx_count ≡ 0

ported-Ported : (br : Bridge) (l : Line) → Ported l (ported br l)
unfolding Receive.to_discard Receive.clear_all_rcvd_msgs Transmit.Run.to_transmit_init
ported-Ported br l = record { mstis = λ e. ap (map _) e; hello = refl; count = refl }

abbrev entered : Bridge → Line → Line
entered br l =
    each_ptp (begin_role br) (each_ptp (λ n. begin_selection) (each_ptp (begin_info br) l))

entered-IsEasy :
    (br : Bridge) (l : Line)
    → l.node.cist.port_times.hello_time ≢ 0
    → IsEasy (entered br l).node.cist
unfolding RoleTransitions.Enter.to_init_port PortInformation.Enter.to_disabled
entered-IsEasy br l h = record {
  coherent = refl;
  role_tame = λ e. cc;
  selected_tame = λ e. cc;
  hello = h;
  designated_hello = λ e. cc;
}

to_discarding-IsEasy :
    (v : StateView)
    → v.port.deleted ≡ false
    → IsEasy v.me
    → let w = StateTransition.to_discarding v in
      IsEasy w.me × (w.port.tx_count ≡ v.port.tx_count) × (w.port.deleted ≡ false)
unfolding StateTransition.to_discarding
to_discarding-IsEasy v d h =
    let b = change_state-Blocked v d in
    (
      record {
        coherent = rw (b.role_state, b.role) h.coherent;
        role_tame = λ e. h.role_tame (sym b.role ∙ e);
        selected_tame = λ e. h.selected_tame (sym b.selected_role ∙ e);
        hello = λ e. h.hello (sym b.hello ∙ e);
        designated_hello =
            λ s e. h.designated_hello (sym b.selected ∙ s) (sym b.designated_hello ∙ e);
      },
      b.count,
      b.deleted ∙ d,
    )

-- A port before PSTSM_begin.
record IsEntered (l : Line) : Type 0 where
  alive : l.node.port.deleted ≡ false
  alone : l.node.mstis ≡ []
  easy : IsEasy l.node.cist
  count : l.node.port.tx_count ≡ 0

begin_move-IsCalmLine : (br : Bridge) (l : Line) → IsEntered l → IsCalmLine br (begin_move l)
unfolding begin_move begin_states
begin_move-IsCalmLine br l h =
    let v : StateView = record { me = l.node.cist; port = l.node.port; out = l.out } in
    let (k, n, d) = to_discarding-IsEasy v h.alive h.easy in
    let w = StateTransition.to_discarding v in
    record {
      alive = ap (λ ps. (begin_states ps w.port w.out).port.deleted) h.alone ∙ d;
      alone = subst (λ ps. (begin_states ps w.port w.out).entries ≡ []) (sym h.alone) refl;
      easy = k;
      counted =
          omega
            (arith, ap (λ ps. (begin_states ps w.port w.out).port.tx_count) h.alone, n, h.count);
    }

entered-IsEntered : (br : Bridge) (l : Line) → HasTimes l → IsEntered (entered br (ported br l))
entered-IsEntered br l h =
    let k = ported-Ported br l in
    record {
      alive = begin_ports-IsAlive br l h.alive;
      alone =
          let m = each_ptp (λ n. begin_selection) (each_ptp (begin_info br) (ported br l)) in
          ap
            (λ ps.
              map (begin_role br m.node)
                (map begin_selection (map (begin_info br (ported br l).node) ps)))
            (k.mstis h.alone);
      easy = entered-IsEasy br (ported br l) (λ e. h.hello (sym k.hello ∙ e));
      count = k.count;
    }

begin_lines-IsCalmLine :
    (s : Station) → All HasTimes s.lines → All (IsCalmLine s.bridge) (begin_lines s).lines
unfolding begin_lines
begin_lines-IsCalmLine s h =
    All-map IsEntered (IsCalmLine s.bridge) begin_move (begin_move-IsCalmLine s.bridge) _
      (lines s.lines h)
  where
    lines :
        (ls : List Line)
        → All HasTimes ls
        → All IsEntered (
            map (each_ptp (begin_role s.bridge)) (
              map (each_ptp (λ n. begin_selection)) (
                map (each_ptp (begin_info s.bridge)) (
                  map (begin_transmit s.bridge) (
                    map begin_detect
                      (map (begin_migrate s.bridge) (map (begin_receive s.bridge) ls)))))))
    lines [] a = tt
    lines (l ∷ ls) a = (entered-IsEntered s.bridge l a.0, lines ls a.1)

begin_tree-OnlyCist : (ts : List Tree) → OnlyCist ts → OnlyCist (map begin_tree ts)
begin_tree-OnlyCist [] h = h
begin_tree-OnlyCist (t ∷ []) h = h
begin_tree-OnlyCist (t ∷ u ∷ ts) h = h

-- A bridge without MSTIs, whatever its machines and counts are, on which they will all come to rest.
pub record IsReady (fuel : ℕ) (s : Station) : Type 0 where
  pub migrate : s.bridge.migrate_time ≢ 0
  pub bounded : s.bridge.transmit_hold_count < 2 ^ 32
  pub fuelled : 2 * s.bridge.transmit_hold_count + 2 < fuel
  pub enough : 64 < fuel
  pub trees : OnlyCist s.trees
  pub lines : All HasTimes s.lines

begin_lines-IsCalm : (fuel : ℕ) (s : Station) → IsReady fuel s → IsCalm fuel (begin_lines s)
unfolding begin_lines
begin_lines-IsCalm fuel s h = record {
  migrate = h.migrate;
  bounded = h.bounded;
  fuelled = h.fuelled;
  enough = h.enough;
  trees = begin_tree-OnlyCist s.trees h.trees;
  lines = begin_lines-IsCalmLine s h.lines;
}

begin_change-IsCalm :
    (fuel i j : ℕ) (s : Station) → IsCalm fuel s → Gives (begin_change i j s) (IsCalm fuel)
unfolding begin_change TopologyChange.Enter.enter
begin_change-IsCalm fuel i j s h = elim (Option-cases (place i s.lines)) [
  | inl n ↦ (s, rw (n, begin_change) refl, h)
  | inr (q, n) ↦ elim (Option-cases (entry_at j q.here.node)) [
    | inl f ↦ (s, rw (n, f, begin_change) refl, h)
    | inr (p, f) ↦ elim (Option-cases (get_at j s.trees)) [
      | inl g ↦ (s, rw (n, f, g, begin_change) refl, h)
      | inr (tr, g) ↦
          let v = topology_view s.bridge j q p tr in
          let w = TopologyChange.Enter.to_inactive v in
          let k = enter-Same TcsmState.inactive v in
          let t = put_topology i j q w s in
          (
            t,
            rw (n, f, g, begin_change) refl,
            record {
              migrate = h.migrate;
              bounded = h.bounded;
              fuelled = h.fuelled;
              enough = h.enough;
              trees = set_at-OnlyCist j s.trees tr w.tree h.trees g k.mstid;
              lines =
                  calm_lines s.bridge s.lines t.lines h.lines
                    (cell-Tracks i j q p w.me _ w.port w.peers s.lines n f refl
                      (enter-Changes TcsmState.inactive v))
                    (cell-count i j q _ w.peers s.lines n
                      (set_entry-count j w.me (record (q.here.node) { port = w.port }) ∙ k.count));
            },
          )
    ]
  ]
]

-- When the machines of an enabled bridge without MSTIs begin, whatever states and counts they are
-- in, and also if the ports are new, they run and return, once the clock passes the second that they
-- have: with a migration time that is not 0, a hello time in `portTimes` of each port, no port
-- deleted, a hold count below 2^32, and fuel above 64 and twice the hold count and two. Then the
-- bridge is orderly and the next run returns too.
pub begin_returns :
    (fuel : ℕ) (start : TimeSpec) (tvs : List TimeSpec) (s : Station)
    → s.bridge.bridge_enabled ≡ true
    → IsReady fuel s
    → any_of (is_late (record start { sec = start.sec + 1 })) tvs ≡ true
    → (t : Station) × (br_state_machines_begin fuel start tvs s ≡ some t)
      × IsCalm fuel t
      × IsOrderly t
unfolding br_state_machines_begin
begin_returns fuel start tvs s b h l =
    let (u, e, c) =
      Gives-for (IsCalm fuel) _
        (λ i t.
          Gives-for (IsCalm fuel) (begin_change i) (begin_change-IsCalm fuel i) 0
            (length (begin_lines s).trees) t)
        0 (length (begin_lines s).lines) (begin_lines s) (begin_lines-IsCalm fuel s h) in
    let (t, g, k, o) = run_returns fuel start tvs u c l in
    let r =
      subst
        (λ x.
          (if not x
            then some s
            else (each_entry begin_change (begin_lines s) >>= br_state_machines_run fuel start tvs))
          ≡ some t)
        (sym b) (subst (λ m. (m >>= br_state_machines_run fuel start tvs) ≡ some t) (sym e) g) in
    (t, r, k, begin_makes_order fuel start tvs s t b (alive s.lines h.lines) r)
  where
    alive : (ls : List Line) → All HasTimes ls → All (λ l. l.node.port.deleted ≡ false) ls
    alive [] a = tt
    alive (l ∷ ls) a = (a.0.alive, alive ls a.1)
