-- ===== src/Allocation/Complete.antt =====
-- mstp.c: the calls with which the functions on the tables, the MSTIs and the identifier end.
use mstpd.Prelude.{ℕ, Option, some, List, ◌>>=◌}
use mstpd.Station.Grid.{Station}
use mstpd.Station.Loop.{TimeSpec, br_state_machines_run}
use mstpd.Station.Start.{br_state_machines_begin, tree_state_machines_begin}
use mstpd.Config.Bridge.{Call, Outcome}
use mstpd.Allocation.Tables.{Domain}

-- The machines begin or run, or nothing is called.
abbrev pub perform : Call → ℕ → TimeSpec → List TimeSpec → Station → Option Station
perform Call.begin fuel start tvs s = br_state_machines_begin fuel start tvs s
perform Call.run fuel start tvs s = br_state_machines_run fuel start tvs s
perform Call.nothing fuel start tvs s = some s
perform (Call.begin_tree j) fuel start tvs s = tree_state_machines_begin j fuel start tvs s

-- The whole of a function: its changes, and the call at its end.
unfoldable pub complete : ℕ → TimeSpec → List TimeSpec → Outcome Domain → Option Domain
complete fuel start tvs o =
    perform o.call fuel start tvs o.state.station >>= λ s. some (record (o.state) { station = s })
