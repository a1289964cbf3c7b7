-- ===== src/Examples/Stations.antt =====
-- Bridges, configurations and the values at which the theorems on them apply.
use mstpd.Prelude.{
  All, is_some, ℕ, zero, suc, ◌≡◌, ◌≤◌, refl, true, false, Option, none, some, List, [], ◌∷◌, arith,
}
use mstpd.Enums.{
  InfoOrigin, PortRole, PrsmState, PpmsmState, BdsmState, PtsmState, PismState, PrtsmState,
  PstsmState, TcsmState, PrssmState,
}
use mstpd.Types.{Tree, Port, PerTreePort, PortNode}
use mstpd.Station.Grid.{Line, Station, column, entries, place, get_at}
use mstpd.Receive
use mstpd.Migration
use mstpd.EdgeDetection
use mstpd.Transmit
use mstpd.PortInformation
use mstpd.RoleSelection
use mstpd.RoleTransitions
use mstpd.StateTransition
use mstpd.TopologyChange
use mstpd.Station.Pass.{pass, dry_pass}
use mstpd.Station.Loop.{TimeSpec, br_state_machines_run}
use mstpd.Station.Quiet.{pass_quiet}
use mstpd.Station.Sound.{IsSound}
use mstpd.Station.Carry.{IsOrderly}
use mstpd.Station.Columns.{roots}
use mstpd.Station.Resting.{
  Blocks, AllReady, root_ports, resting_bridge-Blocks, resting_bridge_one_root,
}
use mstpd.Station.Invariant.{run_keeps_order}
use mstpd.Station.Second.{one_second, count_seconds, second_of_port, tick_line, tick_cell, age_port}
use mstpd.Station.Seconds.{one_second_keeps_order}
use mstpd.Timers.{tick_port, tick_entry}
use mstpd.Examples.Samples.{some_times, some_bridge, some_tree, some_port, some_entry}

-- A bridge with one port that is down, in which every machine rests.
abbrev pub resting_port : Port
resting_port = record some_port {
  port_enabled = false;
  rcvd_bpdu = false;
  rcvd_rstp = false;
  rcvd_stp = false;
  edge_delay_while = some_bridge.migrate_time;
  mdelay_while = some_bridge.migrate_time;
  new_info = true;
  new_info_msti = true;
  tx_count = 0;
  oper_edge = false;
  prsm_state = PrsmState.discard;
  ppmsm_state = PpmsmState.checking_rstp;
  bdsm_state = BdsmState.not_edge;
  ptsm_state = PtsmState.transmit_init;
}

abbrev pub resting_entry : PerTreePort
resting_entry = record some_entry {
  rcvd_msg = false;
  info_is = InfoOrigin.disabled;
  reselect = false;
  selected = true;
  updt_info = false;
  role = PortRole.disabled;
  selected_role = PortRole.disabled;
  sync = false;
  re_root = false;
  synced = true;
  fd_while = some_times.max_age;
  pism_state = PismState.disabled;
  prtsm_state = PrtsmState.disabled_port;
  pstsm_state = PstsmState.discarding;
  tcsm_state = TcsmState.inactive;
}

abbrev pub resting_node : PortNode
resting_node = record { port = resting_port; cist = resting_entry; mstis = [] }

abbrev pub resting_tree : Tree
resting_tree = record some_tree { prssm_state = PrssmState.role_selection }

abbrev pub resting_station : Station
resting_station = record {
  bridge = some_bridge;
  trees = resting_tree ∷ [];
  lines = record { node = resting_node; out = [] } ∷ [];
}

resting_station_rests : dry_pass resting_station ≡ false
unfolding dry_pass Receive.dry_run Receive.any_rcvd_msg Receive.to_discard_dry Migration.dry_run
    EdgeDetection.dry_run EdgeDetection.leaves Transmit.Run.dry_run Transmit.Run.next
    Transmit.Run.to_transmit_init_dry place get_at PortInformation.Run.dry_run
    PortInformation.Run.next RoleSelection.Roles.dry_run RoleSelection.Roles.selects
    RoleTransitions.Run.dry_run RoleTransitions.Rules.next RoleTransitions.View.delays
    StateTransition.dry_run StateTransition.next TopologyChange.Run.dry_run TopologyChange.Run.next
    column
resting_station_rests = refl

resting_entry-IsSound : IsSound resting_entry
resting_entry-IsSound = record {
  coherent = refl;
  no_learn = λ _. refl;
  no_forward = λ _. refl;
  learning_flag = refl;
  forwarding_flag = refl;
  driver_state = refl;
}

resting_one_root : (j : ℕ) → roots (column j resting_station.lines) ≤ 1
unfolding column get_at
resting_one_root zero = omega arith
resting_one_root (suc j) = omega arith

pub resting_station-IsOrderly : IsOrderly resting_station
resting_station-IsOrderly = record {
  sound = ((refl, resting_entry-IsSound, tt), tt);
  one_root = resting_one_root;
}

pass_quiet_example : pass 3 resting_station ≡ some resting_station
pass_quiet_example = pass_quiet 2 resting_station resting_station_rests

resting_bridge-Blocks_example : All (λ l. All Blocks (entries l.node)) resting_station.lines
resting_bridge-Blocks_example =
    resting_bridge-Blocks resting_station resting_station-IsOrderly resting_station_rests

resting_ready : AllReady (column 0 resting_station.lines)
unfolding column
resting_ready = (refl, tt)

resting_bridge_one_root_example : root_ports (column 0 resting_station.lines) ≤ 1
resting_bridge_one_root_example =
    resting_bridge_one_root resting_station 0 resting_station-IsOrderly resting_station_rests
      (omega arith) resting_ready

-- The same bridge when a BPDU has just arrived at the port.
abbrev pub told_station : Station
told_station = record resting_station {
  lines =
      record {
        node = record resting_node { cist = record resting_entry { rcvd_msg = true } };
        out = [];
      }
      ∷ [];
}

abbrev clock : List TimeSpec
clock =
    record { sec = 5; nsec = 10 }
    ∷ record { sec = 5; nsec = 20 }
    ∷ record { sec = 5; nsec = 30 }
    ∷ record { sec = 5; nsec = 40 }
    ∷ []

abbrev told_run : Option Station
told_run = br_state_machines_run 20 (record { sec = 5; nsec = 0 }) clock told_station

abbrev pub get_or {ℓ} : {A : Type ℓ} → A → Option A → A
get_or d none = d
get_or d (some x) = x

pub some-get_or {ℓ} : {A : Type ℓ} (d : A) (o : Option A) → is_some o ≡ true → o ≡ some (get_or d o)
some-get_or d none h = cc
some-get_or d (some x) h = refl

told_run_ends : is_some told_run ≡ true
unfolding mstpd.Station.Grid.place mstpd.Station.Grid.insert_at mstpd.Station.Grid.set_at
    mstpd.Station.Grid.get_at mstpd.Station.Grid.put_column mstpd.Station.Rows.inform_entry
    mstpd.Station.Rows.move_entry mstpd.Station.Cells.put_cist_members
    mstpd.Station.Cells.select_cist mstpd.Station.Cells.select_tree
    mstpd.Station.Cells.transit_entry mstpd.Station.Cells.change_entry mstpd.Station.Pass.pass
    mstpd.Station.Pass.dry_pass mstpd.Station.Loop.is_late mstpd.Station.Loop.loop
    mstpd.Station.Loop.br_state_machines_run mstpd.PortInformation.Run.next
    mstpd.PortInformation.Run.dry_run mstpd.PortInformation.Run.run
    mstpd.PortInformation.Enter.enter mstpd.RoleSelection.Choose.consider
    mstpd.RoleSelection.Choose.choose mstpd.RoleSelection.Choose.choose_root
    mstpd.RoleSelection.Choose.new_root_times mstpd.RoleSelection.Roles.set_root
    mstpd.RoleSelection.Roles.set_designated mstpd.RoleSelection.Roles.select_role
    mstpd.RoleSelection.Roles.select_roles mstpd.RoleSelection.Roles.updt_roles_tree
    mstpd.RoleSelection.Roles.clear_reselect_tree mstpd.RoleSelection.Roles.set_selected_tree
    mstpd.RoleSelection.Roles.to_role_selection mstpd.RoleSelection.Roles.selects
    mstpd.RoleSelection.Roles.dry_run mstpd.RoleSelection.Roles.run
    mstpd.RoleTransitions.Run.dry_run mstpd.RoleTransitions.Run.run mstpd.RoleTransitions.Rules.next
    mstpd.RoleTransitions.View.delays mstpd.StateTransition.next mstpd.StateTransition.dry_run
    mstpd.StateTransition.run mstpd.TopologyChange.Run.next mstpd.TopologyChange.Run.dry_run
    mstpd.TopologyChange.Run.run mstpd.Receive.dry_run mstpd.Receive.run mstpd.Migration.dry_run
    mstpd.Migration.run mstpd.EdgeDetection.dry_run mstpd.EdgeDetection.run
    mstpd.Transmit.Run.to_transmit_init mstpd.Transmit.Run.to_transmit_init_dry
    mstpd.Transmit.Run.dry_run mstpd.Transmit.Run.run
told_run_ends = refl

told_entry-IsSound : IsSound (record resting_entry { rcvd_msg = true })
told_entry-IsSound = record {
  coherent = refl;
  no_learn = λ _. refl;
  no_forward = λ _. refl;
  learning_flag = refl;
  forwarding_flag = refl;
  driver_state = refl;
}

told_one_root : (j : ℕ) → roots (column j told_station.lines) ≤ 1
unfolding column get_at
told_one_root zero = omega arith
told_one_root (suc j) = omega arith

pub told_station-IsOrderly : IsOrderly told_station
told_station-IsOrderly = record {
  sound = ((refl, told_entry-IsSound, tt), tt);
  one_root = told_one_root;
}

run_keeps_order_example : IsOrderly (get_or resting_station told_run)
run_keeps_order_example =
    run_keeps_order 20 (record { sec = 5; nsec = 0 }) clock told_station
      (get_or resting_station told_run) told_station-IsOrderly
      (some-get_or resting_station told_run told_run_ends)

abbrev told_second : Option Station
told_second = one_second 20 (record { sec = 5; nsec = 0 }) clock told_station

told_second_ends : is_some told_second ≡ true
unfolding one_second Receive.to_discard_dry Receive.to_discard Receive.clear_all_rcvd_msgs
    mstpd.RoleTransitions.Enter.enter count_seconds second_of_port tick_line tick_cell age_port
    tick_port tick_entry mstpd.Station.Grid.place mstpd.Station.Grid.insert_at
    mstpd.Station.Grid.set_at mstpd.Station.Grid.get_at mstpd.Station.Grid.put_column
    mstpd.Station.Rows.inform_entry mstpd.Station.Rows.move_entry
    mstpd.Station.Cells.put_cist_members mstpd.Station.Cells.select_cist
    mstpd.Station.Cells.select_tree mstpd.Station.Cells.transit_entry
    mstpd.Station.Cells.change_entry mstpd.Station.Pass.pass mstpd.Station.Pass.dry_pass
    mstpd.Station.Loop.is_late mstpd.Station.Loop.loop mstpd.Station.Loop.br_state_machines_run
    mstpd.PortInformation.Run.next mstpd.PortInformation.Run.dry_run mstpd.PortInformation.Run.run
    mstpd.PortInformation.Enter.enter mstpd.RoleSelection.Choose.consider
    mstpd.RoleSelection.Choose.choose mstpd.RoleSelection.Choose.choose_root
    mstpd.RoleSelection.Choose.new_root_times mstpd.RoleSelection.Roles.set_root
    mstpd.RoleSelection.Roles.set_designated mstpd.RoleSelection.Roles.select_role
    mstpd.RoleSelection.Roles.select_roles mstpd.RoleSelection.Roles.updt_roles_tree
    mstpd.RoleSelection.Roles.clear_reselect_tree mstpd.RoleSelection.Roles.set_selected_tree
    mstpd.RoleSelection.Roles.to_role_selection mstpd.RoleSelection.Roles.selects
    mstpd.RoleSelection.Roles.dry_run mstpd.RoleSelection.Roles.run
    mstpd.RoleTransitions.Run.dry_run mstpd.RoleTransitions.Run.run mstpd.RoleTransitions.Rules.next
    mstpd.RoleTransitions.View.delays mstpd.StateTransition.next mstpd.StateTransition.dry_run
    mstpd.StateTransition.run mstpd.TopologyChange.Run.next mstpd.TopologyChange.Run.dry_run
    mstpd.TopologyChange.Run.run mstpd.Receive.dry_run mstpd.Receive.run mstpd.Migration.dry_run
    mstpd.Migration.run mstpd.EdgeDetection.dry_run mstpd.EdgeDetection.run
    mstpd.Transmit.Run.to_transmit_init mstpd.Transmit.Run.to_transmit_init_dry
    mstpd.Transmit.Run.dry_run mstpd.Transmit.Run.run
told_second_ends = refl

one_second_keeps_order_example : IsOrderly (get_or resting_station told_second)
one_second_keeps_order_example =
    one_second_keeps_order 20 (record { sec = 5; nsec = 0 }) clock told_station
      (get_or resting_station told_second) told_station-IsOrderly
      (some-get_or resting_station told_second told_second_ends)
