-- ===== src/Station/Second.antt =====
-- mstp.c: MSTP_IN_one_second. The count of the bridge's uptime, which is only reported, is left out.
use mstpd.Prelude.{
  ℕ, ◌+◌, ◌-◌, ◌%◌, ◌^◌, not, ◌&&◌, ◌==◌, Option, none, some, List, [], ◌∷◌, ◌++◌, map, for_from,
  length, ◌>>=◌, if◌then◌else◌,
}
use mstpd.Types.{Bridge, Tree, Output}
use mstpd.Timers.{tick_port, tick_entry}
use mstpd.Station.Grid.{
  Line, Station, Place, place, rest, insert_at, entry_at, set_entry, get_at, set_at, column,
}
use mstpd.Station.Rows.{with_node, with_port}
use mstpd.Station.Loop.{TimeSpec, br_state_machines_run}

abbrev pub count_second : Tree → Tree
count_second t =
    if t.topology_change
    then t
    else record t { time_since_topology_change = (t.time_since_topology_change + 1) % 2 ^ 32 }

abbrev pub put_line : ℕ → Place Line → Line → Station → Station
put_line i q l s = record s { lines = insert_at i l (rest q) }

-- The part of PTSM_tick for the port itself.
unfoldable pub tick_line : ℕ → Station → Option Station
tick_line i s = elim (place i s.lines) [
  | none ↦ some s
  | some q ↦ some (put_line i q (with_port (tick_port q.here.node.port) q.here) s)
]

-- A round of the loop of PTSM_tick.
unfoldable pub tick_cell : ℕ → ℕ → Station → Option Station
tick_cell i j s = elim (place i s.lines) [
  | none ↦ some s
  | some q ↦ elim (entry_at j q.here.node) [
    | none ↦ some s
    | some p ↦ elim (get_at j s.trees) [
      | none ↦ some s
      | some t ↦
          let e = tick_entry (record { me = p; tree = t; peers = column j (rest q) }) in
          some (
            put_line i q (with_node (set_entry j e.me q.here.node) q.here)
              (record s { trees = set_at j e.tree s.trees }))
    ]
  ]
]

-- The rapid ageing of a port: the ageing time of the bridge is restored when the timer runs out.
abbrev pub age_line : Bridge → Line → Line
age_line br l =
    let left = l.node.port.rapid_ageing_while - 1 in
    if l.node.port.rapid_ageing_while == 0 then l else record {
      node = record (l.node) { port = record (l.node.port) { rapid_ageing_while = left } };
      out =
          l.out
          ++ (if left == 0 && not l.node.port.deleted
              then Output.set_ageing_time br.ageing_time ∷ []
              else []);
    }

unfoldable pub age_port : ℕ → Station → Option Station
age_port i s = elim (place i s.lines) [
  | none ↦ some s
  | some q ↦ some (put_line i q (age_line s.bridge q.here) s)
]

unfoldable pub second_of_port : ℕ → Station → Option Station
second_of_port i s = tick_line i s >>= for_from 0 (length s.trees) (tick_cell i) >>= age_port i

unfoldable pub count_seconds : Station → Station
count_seconds s = record s { trees = map count_second s.trees }

-- MSTP_IN_one_second, with the readings of the clock for the run of the machines.
unfoldable pub one_second : ℕ → TimeSpec → List TimeSpec → Station → Option Station
one_second fuel start tvs s =
    if not s.bridge.bridge_enabled
    then some s
    else for_from 0 (length s.lines) second_of_port (count_seconds s)
      >>= br_state_machines_run fuel start tvs
