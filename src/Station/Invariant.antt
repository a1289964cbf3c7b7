-- ===== src/Station/Invariant.antt =====
-- mstp.c, br_state_machines_run: on the invariant of a bridge, and on a bridge at rest.
use mathlib.Core.Path.{subst}
use mathlib.Core.Option
use mstpd.Prelude.{
  ◌+◌, ℕ, ◌≡◌, true, false, not, Option, some, List, [], ◌∷◌, refl, Option-cases, Bool-cases, inl,
  inr, ◌⊎◌, if◌then◌else◌, length, ◌>>=◌, any_of,
}
use mstpd.Station.Grid.{Station}
use mstpd.Station.Rows.{
  receive_line, migrate_line, transmit_line, inform_line, assurance_line, detect_line, move_line,
}
use mstpd.Station.Cells.{select_tree, transit_entry, change_entry}
use mstpd.Station.Pass.{
  assure, receive, migrate, detect, transmit, inform, select, transit, move, change, pass, dry_pass,
}
use mstpd.Station.Loop.{TimeSpec, is_late, loop, br_state_machines_run}
use mstpd.Station.Keep.{for_from_keeps, then_keeps}
use mstpd.Station.Carry.{
  IsOrderly, Carries, Carries-refl, Carries-trans, each_line-Carries, each_entry-Carries,
  assurance_line-Tracks, receive_line-Tracks, detect_line-Tracks, migrate_line-Tracks,
  transmit_line-Tracks,
}
use mstpd.Station.Entries.{
  inform_line-Tracks, move_line-Tracks, transit_entry-Carries, change_entry-Carries,
}
use mstpd.Station.Electing.{select_tree-Carries}

abbrev next_Carries :
    (m : Option Station) (f : Station → Option Station) (s : Station)
    → ((t : Station) → m ≡ some t → Carries s t)
    → ((t u : Station) → f t ≡ some u → Carries t u)
    → (u : Station) → (m >>= f) ≡ some u
    → Carries s u
next_Carries = then_keeps Carries Carries-refl Carries-trans

pass-Carries : (fuel : ℕ) (s t : Station) → pass fuel s ≡ some t → Carries s t
unfolding pass
pass-Carries fuel s =
    next_Carries _ (change fuel) s
      (next_Carries _ (move fuel) s
        (next_Carries _ (transit fuel) s
          (next_Carries _ select s
            (next_Carries _ (inform fuel) s
              (next_Carries _ (transmit fuel) s
                (next_Carries _ detect s
                  (next_Carries _ (migrate fuel) s
                    (next_Carries (assure s) receive s
                      (each_line-Carries assurance_line assurance_line-Tracks s)
                      (λ t.
                        each_line-Carries (receive_line t.bridge) (receive_line-Tracks t.bridge) t))
                    (λ t.
                      each_line-Carries (migrate_line fuel t.bridge)
                        (migrate_line-Tracks fuel t.bridge) t))
                  (each_line-Carries detect_line detect_line-Tracks))
                (λ t.
                  each_line-Carries (transmit_line fuel t.bridge)
                    (transmit_line-Tracks fuel t.bridge) t))
              (λ t.
                each_line-Carries (inform_line fuel t.bridge) (inform_line-Tracks fuel t.bridge) t))
            (λ t.
              for_from_keeps Carries Carries-refl Carries-trans select_tree select_tree-Carries 0
                (length t.trees) t))
          (each_entry-Carries (transit_entry fuel) (transit_entry-Carries fuel)))
        (each_line-Carries (move_line fuel) (move_line-Tracks fuel)))
      (each_entry-Carries (change_entry fuel) (change_entry-Carries fuel))

loop-Carries :
    (fuel : ℕ) (tv_end : TimeSpec) (tvs : List TimeSpec) (s t : Station)
    → loop fuel tv_end tvs s ≡ some t
    → Carries s t
unfolding loop
loop-Carries fuel tv_end [] s t e = elim (Bool-cases (dry_pass s)) [
  | inl d ↦ cc (rw d at e)
  | inr d ↦ subst (Carries s) (Option.some-injective _ _ (rw d at e)) (Carries-refl s)
]
loop-Carries fuel tv_end (tv ∷ tvs) s t e = elim (Bool-cases (dry_pass s)) [
  | inr d ↦ subst (Carries s) (Option.some-injective _ _ (rw (d, loop) at e)) (Carries-refl s)
  | inl d ↦ elim (Option-cases (pass fuel s)) [
    | inl p ↦ cc (rw (d, p, loop) at e)
    | inr (u, p) ↦
        Carries-trans s u t (pass-Carries fuel s u p) (elim (Bool-cases (is_late tv_end tv)) [
          | inl k ↦
              subst (Carries u) (Option.some-injective _ _ (rw (d, p, k, loop) at e))
                (Carries-refl u)
          | inr k ↦ loop-Carries fuel tv_end tvs u t (rw (d, p, k, loop) at e)
        ])
  ]
]

-- However many rounds a run of the machines makes, and whether or not it comes to rest, it keeps a bridge orderly: in every
-- tree, the state of PRTSM belongs to the port's role, a Disabled, Alternate or Backup port is told
-- neither to learn nor to forward, the flags and the driver's state are those of PSTSM's state, and
-- one port at most is selected as the root port.
pub run_keeps_order :
    (fuel : ℕ) (start : TimeSpec) (tvs : List TimeSpec) (s t : Station)
    → IsOrderly s
    → br_state_machines_run fuel start tvs s ≡ some t
    → IsOrderly t
unfolding br_state_machines_run
run_keeps_order fuel start tvs s t o e = elim (Bool-cases s.bridge.bridge_enabled) [
  | inl b ↦ loop-Carries fuel (record start { sec = start.sec + 1 }) tvs s t (enabled b e) o
  | inr b ↦ subst IsOrderly (disabled b e) o
]
  where
    enabled :
        s.bridge.bridge_enabled ≡ true
        → br_state_machines_run fuel start tvs s ≡ some t
        → loop fuel (record start { sec = start.sec + 1 }) tvs s ≡ some t
    enabled b e =
        subst
          (λ x.
            (if not x then some s else loop fuel (record start { sec = start.sec + 1 }) tvs s)
            ≡ some t)
          b e

    disabled :
        s.bridge.bridge_enabled ≡ false → br_state_machines_run fuel start tvs s ≡ some t → s ≡ t
    disabled b e = Option.some-injective _ _ (
        subst
          (λ x.
            (if not x then some s else loop fuel (record start { sec = start.sec + 1 }) tvs s)
            ≡ some t)
          b e)

loop_ends :
    (fuel : ℕ) (tv_end : TimeSpec) (tvs : List TimeSpec) (s t : Station)
    → loop fuel tv_end tvs s ≡ some t
    → (dry_pass t ≡ false) ⊎ (any_of (is_late tv_end) tvs ≡ true)
unfolding loop
loop_ends fuel tv_end [] s t e = elim (Bool-cases (dry_pass s)) [
  | inl d ↦ cc (rw d at e)
  | inr d ↦ inl (subst (λ x. dry_pass x ≡ false) (Option.some-injective _ _ (rw d at e)) d)
]
loop_ends fuel tv_end (tv ∷ tvs) s t e = elim (Bool-cases (dry_pass s)) [
  | inr d ↦ inl (subst (λ x. dry_pass x ≡ false) (Option.some-injective _ _ (rw (d, loop) at e)) d)
  | inl d ↦ elim (Option-cases (pass fuel s)) [
    | inl p ↦ cc (rw (d, p, loop) at e)
    | inr (u, p) ↦ elim (Bool-cases (is_late tv_end tv)) [
      | inl k ↦ inr (rw k refl)
      | inr k ↦ elim (loop_ends fuel tv_end tvs u t (rw (d, p, k, loop) at e)) [
        | inl q ↦ inl q
        | inr q ↦ inr (rw k q)
      ]
    ]
  ]
]
