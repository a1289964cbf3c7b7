-- ===== src/Station/Ticking.antt =====
-- mstp.c, MSTP_IN_one_second, on bridges without MSTIs.
use mathlib.Core.Path.{subst}
use mstpd.Prelude.{
  ℕ, ◌+◌, ◌≡◌, Bool, true, false, not, Option, some, List, [], ◌∷◌, map, refl, sym, any_of,
  Option-cases, Bool-cases, inl, inr, arith, for_from, length, ◌>>=◌, if◌then◌else◌, ◌==◌,
}
use mstpd.Types.{Bridge, Tree}
use mstpd.TopologyChange.View.{topology_settles}
use mstpd.Timers.{Entry, tick_port, tick_entry}
use mstpd.Station.Grid.{Line, Station, Place, place, rest, entry_at, set_entry, get_at, column}
use mstpd.Station.Rows.{with_port, with_node}
use mstpd.Station.Loop.{TimeSpec, is_late, br_state_machines_run}
use mstpd.Station.Second.{
  count_second, put_line, tick_line, tick_cell, age_line, age_port, second_of_port, count_seconds,
  one_second,
}
use mstpd.Station.Keep.{All2-refl, All2-insert_at, All-All2}
use mstpd.Station.Sound.{Tracks, Tracks-refl, Tracks-trans, core-Tracks}
use mstpd.Station.Access.{NodeBy-set_entry}
use mstpd.Station.Carry.{IsOrderly}
use mstpd.Station.Calm.{Gives, Gives-bind, Gives-for, IsCalmLine, OnlyCist, IsCalm, tracks_calm}
use mstpd.Station.SettlingCells.{set_at-OnlyCist, set_entry-count}
use mstpd.Station.Returns.{run_returns}
use mstpd.Station.Seconds.{one_second_keeps_order}

abbrev Calms : Bridge → Line → Line → Type 0
Calms br l m = IsCalmLine br l → IsCalmLine br m

-- A write of one port.
put_line-IsCalm :
    (fuel i : ℕ) (q : Place Line) (l : Line) (s : Station)
    → place i s.lines ≡ some q
    → Calms s.bridge q.here l
    → IsCalm fuel s
    → IsCalm fuel (put_line i q l s)
put_line-IsCalm fuel i q l s e k h = record {
  migrate = h.migrate;
  bounded = h.bounded;
  fuelled = h.fuelled;
  enough = h.enough;
  trees = h.trees;
  lines =
      All-All2 (IsCalmLine s.bridge) (Calms s.bridge) (λ l m c g. g c) s.lines _ h.lines
        (All2-insert_at (Calms s.bridge) (λ l c. c) (λ l m n f g c. g (f c)) i s.lines l (rest q) e
          k (All2-refl (Calms s.bridge) (λ l c. c) (λ l m n f g c. g (f c)) (rest q)));
}

tick_line-IsCalm : (fuel i : ℕ) (s : Station) → IsCalm fuel s → Gives (tick_line i s) (IsCalm fuel)
unfolding tick_line tick_port
tick_line-IsCalm fuel i s h = elim (Option-cases (place i s.lines)) [
  | inl n ↦ (s, rw (n, tick_line) refl, h)
  | inr (q, n) ↦
      let l = with_port (tick_port q.here.node.port) q.here in
      (
        put_line i q l s,
        rw (n, tick_line) refl,
        put_line-IsCalm fuel i q l s n
            (λ c. record {
              alive = c.alive;
              alone = c.alone;
              easy = c.easy;
              counted = ground (arith, c.counted);
            })
            h,
      )
]

-- The tree stays the CIST.
tick_entry-mstid : (e : Entry) → (tick_entry e).tree.mstid ≡ e.tree.mstid
unfolding tick_entry topology_settles
tick_entry-mstid e = ground arith

tick_cell-IsCalm :
    (fuel i j : ℕ) (s : Station) → IsCalm fuel s → Gives (tick_cell i j s) (IsCalm fuel)
unfolding tick_cell tick_entry
tick_cell-IsCalm fuel i j s h = elim (Option-cases (place i s.lines)) [
  | inl n ↦ (s, rw (n, tick_cell) refl, h)
  | inr (q, n) ↦ elim (Option-cases (entry_at j q.here.node)) [
    | inl f ↦ (s, rw (n, f, tick_cell) refl, h)
    | inr (p, f) ↦ elim (Option-cases (get_at j s.trees)) [
      | inl g ↦ (s, rw (n, f, g, tick_cell) refl, h)
      | inr (tr, g) ↦
          let x : Entry = record { me = p; tree = tr; peers = column j (rest q) } in
          let e = tick_entry x in
          let l = with_node (set_entry j e.me q.here.node) q.here in
          let k =
            put_line-IsCalm fuel i q l s n
              (λ c.
                tracks_calm s.bridge q.here l c
                  (λ _.
                    NodeBy-set_entry Tracks Tracks-refl Tracks-trans j q.here.node q.here.node.port
                      _ f (core-Tracks _ _ refl (λ e. e)) refl)
                  (omega (arith, set_entry-count j e.me q.here.node, c.counted)))
              h in
          (
            _,
            rw (n, f, g, tick_cell) refl,
            record {
              migrate = h.migrate;
              bounded = h.bounded;
              fuelled = h.fuelled;
              enough = h.enough;
              trees = set_at-OnlyCist j s.trees tr e.tree h.trees g (tick_entry-mstid x);
              lines = k.lines;
            },
          )
    ]
  ]
]

age_line-IsCalmLine : (br : Bridge) (l : Line) → Calms br l (age_line br l)
age_line-IsCalmLine br l c = elim (Bool-cases (l.node.port.rapid_ageing_while == 0)) [
  | inl e ↦ rw e c
  | inr e ↦ rw e (record { alive = c.alive; alone = c.alone; easy = c.easy; counted = c.counted })
]

age_port-IsCalm : (fuel i : ℕ) (s : Station) → IsCalm fuel s → Gives (age_port i s) (IsCalm fuel)
unfolding age_port
age_port-IsCalm fuel i s h = elim (Option-cases (place i s.lines)) [
  | inl n ↦ (s, rw (n, age_port) refl, h)
  | inr (q, n) ↦ (
    put_line i q (age_line s.bridge q.here) s,
    rw (n, age_port) refl,
    put_line-IsCalm fuel i q (age_line s.bridge q.here) s n (age_line-IsCalmLine s.bridge q.here) h,
  )
]

second_of_port-IsCalm :
    (fuel i : ℕ) (s : Station) → IsCalm fuel s → Gives (second_of_port i s) (IsCalm fuel)
unfolding second_of_port
second_of_port-IsCalm fuel i s h =
    Gives-bind (IsCalm fuel) (IsCalm fuel) _ (age_port i)
      (Gives-bind (IsCalm fuel) (IsCalm fuel) (tick_line i s) _ (tick_line-IsCalm fuel i s h)
        (Gives-for (IsCalm fuel) (tick_cell i) (tick_cell-IsCalm fuel i) 0 (length s.trees)))
      (age_port-IsCalm fuel i)

count_second-OnlyCist : (ts : List Tree) → OnlyCist ts → OnlyCist (map count_second ts)
count_second-OnlyCist [] h = h
count_second-OnlyCist (t ∷ []) h = ground (arith, h)
count_second-OnlyCist (t ∷ u ∷ ts) h = h

count_seconds-IsCalm : (fuel : ℕ) (s : Station) → IsCalm fuel s → IsCalm fuel (count_seconds s)
unfolding count_seconds
count_seconds-IsCalm fuel s h = record {
  migrate = h.migrate;
  bounded = h.bounded;
  fuelled = h.fuelled;
  enough = h.enough;
  trees = count_second-OnlyCist s.trees h.trees;
  lines = h.lines;
}

-- A second's tick on a bridge without MSTIs returns, once the clock passes the second of the run
-- that follows: with a migration time that is not 0, no port deleted, a hello time in `portTimes` of
-- each port, and in its `designatedTimes` once the roles are selected, the state of PRTSM in accord
-- with the role, no Master role, `txCount` within the hold count, the hold count below 2^32, and
-- fuel above 64 and twice the hold count and two. The bridge keeps these properties, so every later
-- second returns too, and if it was orderly it is.
pub one_second_returns :
    (fuel : ℕ) (start : TimeSpec) (tvs : List TimeSpec) (s : Station)
    → IsCalm fuel s
    → any_of (is_late (record start { sec = start.sec + 1 })) tvs ≡ true
    → (t : Station) × (one_second fuel start tvs s ≡ some t)
      × IsCalm fuel t
      × (IsOrderly s → IsOrderly t)
unfolding one_second
one_second_returns fuel start tvs s h l = elim (Bool-cases s.bridge.bridge_enabled) [
  | inl b ↦
      let (u, e, c) =
        Gives-for (IsCalm fuel) second_of_port (second_of_port-IsCalm fuel) 0 (length s.lines)
          (count_seconds s) (count_seconds-IsCalm fuel s h) in
      let (t, g, k, _) = run_returns fuel start tvs u c l in
      let r =
        switched true b
          (subst (λ m. (m >>= br_state_machines_run fuel start tvs) ≡ some t) (sym e) g) in
      (t, r, k, λ o. one_second_keeps_order fuel start tvs s t o r)
  | inr b ↦ (s, switched false b refl, h, λ o. o)
]
  where
    ticked : Option Station
    ticked =
        for_from 0 (length s.lines) second_of_port (count_seconds s)
        >>= br_state_machines_run fuel start tvs

    switched :
        (x : Bool)
        → s.bridge.bridge_enabled ≡ x
        → {t : Station} → (if not x then some s else ticked) ≡ some t
        → (if not s.bridge.bridge_enabled then some s else ticked) ≡ some t
    switched x b {t} e = subst (λ y. (if not y then some s else ticked) ≡ some t) (sym b) e
