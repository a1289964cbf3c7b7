-- ===== src/Examples/Settings.antt =====
-- Configurations at which the theorems on them apply.
use mstpd.Prelude.{◌≤◌, refl, inr, true, false, none, some, arith}
use mstpd.Config.Bridge.{CistBridgeConfig, set_cist_bridge_config}
use mstpd.Config.Port.{
  CistPortConfig, MstiPortConfig, compute_pcost, max_path_cost, set_cist_port_config,
  set_msti_port_config,
}
use mstpd.Config.Allowed.{InRange, Judges, port_configs_judged}
use mstpd.Config.Ranges.{IsConfigured, set_cist_bridge_config-IsConfigured, compute_pcost_bounds}
use mstpd.Config.Reselect.{Asks, AsksCist, port_configs_ask_selection}
use mstpd.Examples.Samples.{some_entry, some_node}
use mstpd.Examples.Stations.{resting_station}

-- A lower hold count and longer times.
abbrev some_config : CistBridgeConfig
some_config = record {
  bridge_max_age = some 28;
  bridge_forward_delay = none;
  protocol_version = some 2;
  tx_hold_count = some 3;
  max_hops = none;
  bridge_hello_time = some 2;
  bridge_ageing_time = none;
}

abbrev some_port_config : CistPortConfig
some_port_config = record {
  admin_external_port_path_cost = some 200;
  admin_p2p = none;
  admin_edge_port = some true;
  auto_edge_port = none;
  restricted_role = none;
  restricted_tcn = none;
  bpdu_guard_port = none;
  network_port = some false;
  dont_txmt = none;
  bpdu_filter_port = none;
}

abbrev some_msti_config : MstiPortConfig
some_msti_config = record { port_priority = some 16; admin_internal_port_path_cost = some 20 }

port_configs_judged_example :
    Judges
      (InRange 0 max_path_cost (some 200))
      some_node
      (set_cist_port_config some_port_config 1000 true some_node)
    × Judges
        (InRange 0 15 (some 16) × InRange 0 max_path_cost (some 20))
        some_entry
        (set_msti_port_config some_msti_config 1000 (some_node.port) some_entry)
port_configs_judged_example =
    port_configs_judged some_port_config some_msti_config 1000 true some_node some_entry

resting_station-IsConfigured : IsConfigured resting_station
resting_station-IsConfigured = record {
  ranges = record {
    max_age = omega arith;
    forward_delay = omega arith;
    times = omega arith;
    version = inr (inr refl);
    hold_count = omega arith;
    hops = omega arith;
    ageing_time = omega arith;
  };
  tree_times = (refl, tt);
  paced = (omega arith, tt);
}

set_cist_bridge_config-IsConfigured_example :
    IsConfigured (set_cist_bridge_config some_config resting_station).state
set_cist_bridge_config-IsConfigured_example =
    set_cist_bridge_config-IsConfigured some_config resting_station resting_station-IsConfigured

compute_pcost_bounds_example :
    (1 ≤ compute_pcost 100)
    × (compute_pcost 100 ≤ max_path_cost)
    × (compute_pcost 1000 ≤ compute_pcost 100)
compute_pcost_bounds_example = compute_pcost_bounds 100 1000 (omega arith)

port_configs_ask_selection_example :
    AsksCist some_node (set_cist_port_config some_port_config 1000 true some_node)
    × Asks some_node.port.port_enabled some_entry
        (set_msti_port_config some_msti_config 1000 (some_node.port) some_entry)
port_configs_ask_selection_example =
    port_configs_ask_selection some_port_config some_msti_config 1000 true some_node some_entry
