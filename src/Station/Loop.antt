-- ===== src/Station/Loop.antt =====
-- mstp.c: br_state_machines_run, with the readings of the clock as a list.
use mstpd.Prelude.{
  ℕ, ◌+◌, Bool, true, false, not, ◌&&◌, ◌||◌, ltb, ◌==◌, Option, none, some, List, [], ◌∷◌,
  if◌then◌else◌,
}
use mstpd.Station.Grid.{Station}
use mstpd.Station.Pass.{pass, dry_pass}

-- `struct timespec`.
pub record TimeSpec : Type 0 where
  pub sec : ℕ
  pub nsec : ℕ

-- The second that a run may take is over: `tv` is after `tv_end`.
unfoldable pub is_late : TimeSpec → TimeSpec → Bool
is_late tv_end tv = ltb tv_end.sec tv.sec || (tv_end.sec == tv.sec && ltb tv_end.nsec tv.nsec)

-- The loop, with the readings of the clock that follow; `none` if the fuel of some machine, or the
-- list of readings, ran out.
unfoldable pub loop : ℕ → TimeSpec → List TimeSpec → Station → Option Station
loop fuel tv_end [] s = if dry_pass s then none else some s
loop fuel tv_end (tv ∷ tvs) s = elim (dry_pass s) [
  | false ↦ some s
  | true ↦ elim (pass fuel s) [
    | none ↦ none
    | some t ↦ elim (is_late tv_end tv) [ true ↦ some t | false ↦ loop fuel tv_end tvs t ]
  ]
]

-- `br_state_machines_run(br)`, which reads the clock at `start` first.
unfoldable pub br_state_machines_run : ℕ → TimeSpec → List TimeSpec → Station → Option Station
br_state_machines_run fuel start tvs s =
    if not s.bridge.bridge_enabled
    then some s
    else loop fuel (record start { sec = start.sec + 1 }) tvs s
