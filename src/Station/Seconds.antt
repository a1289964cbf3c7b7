-- ===== src/Station/Seconds.antt =====
-- mstp.c, MSTP_IN_one_second: on the invariant of a bridge.
use mathlib.Core.Path.{subst}
use mathlib.Core.Option
use mstpd.Prelude.{
  ℕ, ◌≡◌, Bool, true, false, not, Option, some, List, refl, sym, Option-cases, Bool-cases, inl, inr,
  for_from, length, ◌>>=◌, >>=-eq-some, if◌then◌else◌, ◌==◌,
}
use mstpd.Types.{Bridge}
use mstpd.Timers.{tick_port, tick_entry}
use mstpd.Station.Grid.{Line, Station, Place, place, rest, insert_at, entry_at, get_at}
use mstpd.Station.Rows.{with_port}
use mstpd.Station.Loop.{TimeSpec, br_state_machines_run}
use mstpd.Station.Second.{
  tick_line, tick_cell, age_line, age_port, second_of_port, count_seconds, one_second,
}
use mstpd.Station.Keep.{All2, All2-refl, All2-insert_at, for_from_keeps, then_keeps}
use mstpd.Station.Sound.{Tracks, Tracks-refl, Tracks-trans, core-Tracks}
use mstpd.Station.Access.{NodeBy-set_entry}
use mstpd.Station.Tracks.{All-Tracks}
use mstpd.Station.Carry.{
  TracksLine, TracksLine-refl, TracksLine-trans, IsOrderly, Carries, Carries-refl, Carries-trans,
  lines-Carries,
}
use mstpd.Station.Invariant.{run_keeps_order}

-- A write of one port.
line-Carries :
    (i : ℕ) (q : Place Line) (l : Line) (s t : Station)
    → place i s.lines ≡ some q
    → TracksLine q.here l
    → t.lines ≡ insert_at i l (rest q)
    → Carries s t
line-Carries i q l s t e h f = lines-Carries s t (
    subst (λ ls. All2 TracksLine s.lines ls) (sym f)
      (All2-insert_at TracksLine TracksLine-refl TracksLine-trans i s.lines l (rest q) e h
        (All2-refl TracksLine TracksLine-refl TracksLine-trans (rest q))))

tick_line-Carries : (i : ℕ) (s t : Station) → tick_line i s ≡ some t → Carries s t
unfolding tick_line tick_port
tick_line-Carries i s t e = elim (Option-cases (place i s.lines)) [
  | inl n ↦ subst (Carries s) (Option.some-injective _ _ (rw (n, tick_line) at e)) (Carries-refl s)
  | inr (q, n) ↦ subst (Carries s) (Option.some-injective _ _ (rw (n, tick_line) at e)) (
      line-Carries i q (with_port (tick_port q.here.node.port) q.here) s _ n
        (λ _. record {
          alive = refl;
          cist = Tracks-refl q.here.node.cist;
          mstis = All-Tracks q.here.node.mstis;
        })
        refl)
]

tick_cell-Carries : (i j : ℕ) (s t : Station) → tick_cell i j s ≡ some t → Carries s t
unfolding tick_cell tick_entry
tick_cell-Carries i j s t e = elim (Option-cases (place i s.lines)) [
  | inl n ↦ subst (Carries s) (Option.some-injective _ _ (rw (n, tick_cell) at e)) (Carries-refl s)
  | inr (q, n) ↦ elim (Option-cases (entry_at j q.here.node)) [
    | inl f ↦
        subst (Carries s) (Option.some-injective _ _ (rw (n, f, tick_cell) at e)) (Carries-refl s)
    | inr (p, f) ↦ elim (Option-cases (get_at j s.trees)) [
      | inl g ↦
          subst (Carries s) (Option.some-injective _ _ (rw (n, f, g, tick_cell) at e))
            (Carries-refl s)
      | inr (tr, g) ↦ subst (Carries s) (Option.some-injective _ _ (rw (n, f, g, tick_cell) at e)) (
          line-Carries i q _ s _ n
            (λ _.
              NodeBy-set_entry Tracks Tracks-refl Tracks-trans j q.here.node q.here.node.port _ f
                (core-Tracks _ _ refl (λ e. e)) refl)
            refl)
    ]
  ]
]

either-Line :
    (b : Bool) (l m k : Line) → TracksLine l m → TracksLine l k → TracksLine l (if b then m else k)
either-Line true l m k h g = h
either-Line false l m k h g = g

age_line-Tracks : (br : Bridge) (l : Line) → TracksLine l (age_line br l)
age_line-Tracks br l =
    either-Line (l.node.port.rapid_ageing_while == 0) l l _ (TracksLine-refl l) (λ _. record {
      alive = refl;
      cist = Tracks-refl l.node.cist;
      mstis = All-Tracks l.node.mstis;
    })

age_port-Carries : (i : ℕ) (s t : Station) → age_port i s ≡ some t → Carries s t
unfolding age_port
age_port-Carries i s t e = elim (Option-cases (place i s.lines)) [
  | inl n ↦ subst (Carries s) (Option.some-injective _ _ (rw (n, age_port) at e)) (Carries-refl s)
  | inr (q, n) ↦
      subst (Carries s) (Option.some-injective _ _ (rw (n, age_port) at e))
        (line-Carries i q (age_line s.bridge q.here) s _ n (age_line-Tracks s.bridge q.here) refl)
]

second_of_port-Carries : (i : ℕ) (s t : Station) → second_of_port i s ≡ some t → Carries s t
unfolding second_of_port
second_of_port-Carries i s =
    then_keeps Carries Carries-refl Carries-trans _ (age_port i) s
      (then_keeps Carries Carries-refl Carries-trans (tick_line i s)
        (for_from 0 (length s.trees) (tick_cell i)) s (tick_line-Carries i s)
        (for_from_keeps Carries Carries-refl Carries-trans (tick_cell i) (tick_cell-Carries i) 0
          (length s.trees)))
      (age_port-Carries i)

-- A second's tick with the run of the machines that follows keeps a bridge orderly, however many
-- rounds the run makes.
pub one_second_keeps_order :
    (fuel : ℕ) (start : TimeSpec) (tvs : List TimeSpec) (s t : Station)
    → IsOrderly s
    → one_second fuel start tvs s ≡ some t
    → IsOrderly t
unfolding one_second count_seconds
one_second_keeps_order fuel start tvs s t o e = elim (Bool-cases s.bridge.bridge_enabled) [
  | inr b ↦
      subst IsOrderly
        (Option.some-injective _ _ (subst (λ x. (if not x then some s else rest_of) ≡ some t) b e))
        o
  | inl b ↦
      let (u, p, q) =
        >>=-eq-some (for_from 0 (length s.lines) second_of_port (count_seconds s))
          (br_state_machines_run fuel start tvs)
          (subst (λ x. (if not x then some s else rest_of) ≡ some t) b e) in
      run_keeps_order fuel start tvs u t
        (for_from_keeps Carries Carries-refl Carries-trans second_of_port second_of_port-Carries 0
          (length s.lines) (count_seconds s) u p
          (record { sound = o.sound; one_root = o.one_root }))
        q
]
  where
    rest_of : Option Station
    rest_of =
        for_from 0 (length s.lines) second_of_port (count_seconds s)
        >>= br_state_machines_run fuel start tvs
