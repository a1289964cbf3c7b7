-- ===== src/Station/Returns.antt =====
-- mstp.c, br_state_machines_run, on bridges without MSTIs.
use mathlib.Core.Path.{subst}
use mstpd.Prelude.{
  ℕ, ◌+◌, ◌≡◌, Bool, true, false, not, some, List, [], ◌∷◌, refl, sym, arith, Bool-cases, inl, inr,
  any_of, if◌then◌else◌,
}
use mstpd.Station.Grid.{Station}
use mstpd.Station.Rows.{
  assurance_line, receive_line, migrate_line, detect_line, transmit_line, inform_line, move_line,
}
use mstpd.Station.Pass.{
  assure, receive, migrate, detect, transmit, inform, select, transit, move, change, pass, dry_pass,
}
use mstpd.Station.Loop.{TimeSpec, is_late, loop, br_state_machines_run}
use mstpd.Station.Carry.{IsOrderly}
use mstpd.Station.Invariant.{run_keeps_order}
use mstpd.Station.Calm.{Gives, Gives-bind, IsCalm, each_line-IsCalm}
use mstpd.Station.Settling.{
  assurance_line-calm, receive_line-calm, migrate_line-calm, detect_line-calm, transmit_line-calm,
}
use mstpd.Station.SettlingEntries.{inform_line-calm, move_line-calm}
use mstpd.Station.SettlingCells.{transit-IsCalm, change-IsCalm}
use mstpd.Station.SettlingTrees.{select-IsCalm}

module _ (fuel : ℕ) where
  abbrev Calm : Station → Type 0
  Calm s = IsCalm fuel s

  -- One round ends.
  pass-Calm : (s : Station) → Calm s → Gives (pass fuel s) Calm
  unfolding pass
  pass-Calm s h =
      Gives-bind Calm Calm _ (change fuel)
        (Gives-bind Calm Calm _ (move fuel)
          (Gives-bind Calm Calm _ (transit fuel)
            (Gives-bind Calm Calm _ select
              (Gives-bind Calm Calm _ (inform fuel)
                (Gives-bind Calm Calm _ (transmit fuel)
                  (Gives-bind Calm Calm _ detect
                    (Gives-bind Calm Calm _ (migrate fuel)
                      (Gives-bind Calm Calm (assure s) receive
                        (each_line-IsCalm fuel assurance_line s h (assurance_line-calm s.bridge))
                        (λ t k.
                          each_line-IsCalm fuel (receive_line t.bridge) t k
                            (receive_line-calm t.bridge)))
                      (λ t k. each_line-IsCalm fuel (migrate_line fuel t.bridge) t k (λ l.
                        migrate_line-calm fuel t.bridge l (omega (arith, k.enough)) k.migrate)))
                    (λ t k. each_line-IsCalm fuel detect_line t k (detect_line-calm t.bridge)))
                  (λ t k.
                    each_line-IsCalm fuel (transmit_line fuel t.bridge) t k
                      (λ l. transmit_line-calm fuel t.bridge l k.bounded k.fuelled)))
                (λ t k.
                  each_line-IsCalm fuel (inform_line fuel t.bridge) t k
                    (λ l. inform_line-calm fuel t.bridge l k.enough)))
              (select-IsCalm fuel))
            (transit-IsCalm fuel))
          (λ t k.
            each_line-IsCalm fuel (move_line fuel) t k
              (λ l. move_line-calm fuel t.bridge l k.enough)))
        (change-IsCalm fuel)

  loop-Calm :
      (tv_end : TimeSpec) (tvs : List TimeSpec) (s : Station)
      → Calm s
      → any_of (is_late tv_end) tvs ≡ true
      → Gives (loop fuel tv_end tvs s) Calm
  unfolding loop
  loop-Calm tv_end [] s h l = cc
  loop-Calm tv_end (tv ∷ tvs) s h l = elim (Bool-cases (dry_pass s)) [
    | inr d ↦ (s, rw (d, loop) refl, h)
    | inl d ↦
        let (t, e, k) = pass-Calm s h in
        elim (Bool-cases (is_late tv_end tv)) [
          | inl b ↦ (t, rw (d, e, b, loop) refl, k)
          | inr b ↦
              let (u, f, m) = loop-Calm tv_end tvs t k (rw b at l) in (u, rw (d, e, b, loop) f, m)
        ]
  ]

  run-Calm :
      (start : TimeSpec) (tvs : List TimeSpec) (s : Station)
      → Calm s
      → any_of (is_late (record start { sec = start.sec + 1 })) tvs ≡ true
      → Gives (br_state_machines_run fuel start tvs s) Calm
  unfolding br_state_machines_run
  run-Calm start tvs s h l = elim (Bool-cases s.bridge.bridge_enabled) [
    | inl b ↦
        let (t, e, k) = loop-Calm (record start { sec = start.sec + 1 }) tvs s h l in
        (t, switched true b e, k)
    | inr b ↦ (s, switched false b refl, h)
  ]
    where
      switched :
          (x : Bool)
          → s.bridge.bridge_enabled ≡ x
          → {t : Station}
          → (if not x then some s else loop fuel (record start { sec = start.sec + 1 }) tvs s)
            ≡ some t
          → (if not s.bridge.bridge_enabled
              then some s
              else loop fuel (record start { sec = start.sec + 1 }) tvs s)
            ≡ some t
      switched x b {t} e =
          subst
            (λ y.
              (if not y then some s else loop fuel (record start { sec = start.sec + 1 }) tvs s)
              ≡ some t)
            (sym b) e

-- A run of the state machines of a bridge without MSTIs returns, once its clock passes the second
-- that it has: with a migration time that is not 0, no port deleted, a hello time in `portTimes` of
-- each port, and in its `designatedTimes` once the roles are selected, the state of PRTSM in accord
-- with the role, no Master role, `txCount` within the hold count, the hold count below 2^32, and
-- fuel above 64 and twice the hold count and two. The bridge keeps these properties, and if it was
-- orderly it is.
pub run_returns :
    (fuel : ℕ) (start : TimeSpec) (tvs : List TimeSpec) (s : Station)
    → IsCalm fuel s
    → any_of (is_late (record start { sec = start.sec + 1 })) tvs ≡ true
    → (t : Station) × (br_state_machines_run fuel start tvs s ≡ some t)
      × IsCalm fuel t
      × (IsOrderly s → IsOrderly t)
run_returns fuel start tvs s h l =
    let (t, e, k) = run-Calm fuel start tvs s h l in
    (t, e, k, λ o. run_keeps_order fuel start tvs s t o e)
