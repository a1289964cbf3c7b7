-- ===== src/Examples.antt =====
-- Concrete runs and values at which the theorems apply.
mod Samples
mod Stations
mod Settings
mod Domains
use mstpd.Prelude.{
  All, ℕ, ◌+◌, ◌*◌, ◌≡◌, ◌≤◌, ◌↔◌, ◌⊎◌, refl, Bool, true, false, not, ◌&&◌, Option, none, some,
  List, [], ◌∷◌, arith, length, inl, inr, ◌||◌, ◌==◌, if◌then◌else◌,
}
use mstpd.Vector.{better_or_same_priority, same_priority_and_timers}
use mstpd.Vector.Order.{
  LexLe, key, better_or_same_priority_iff, better_or_same_priority_trans,
  better_or_same_priority_total, same_priority_of_both,
}
use mstpd.Enums.{
  InfoOrigin, BrState, PortInfo, PortRole, PrtsmState, PstsmState, TcsmState, rstp_version,
}
use mstpd.Types.{PortNode}
use mstpd.RoleTransitions
use mstpd.RoleTransitions.View.{RoleView, Delays, delays}
use mstpd.RoleTransitions.Settle.{IsTame}
use mstpd.RoleTransitions.Rest.{run_comes_to_rest}
use mstpd.RoleTransitions.Guarantees.{IsSafe, run_keeps_blocking, resting_designated_decides}
use mstpd.RoleTransitions.Livelock.{IsTorn, torn_never_ends}
use mstpd.StateTransition
use mstpd.StateTransition.Follow.{Follows, run-Follows}
use mstpd.Receive
use mstpd.Receive.OneCall.{run_quiet, dry_run_iff}
use mstpd.Migration
use mstpd.Migration.Settle.{settled, run_settles}
use mstpd.EdgeDetection
use mstpd.EdgeDetection.OneCall.{IsDetected, run_detects}
use mstpd.TopologyChange.View.{TopologyView}
use mstpd.TopologyChange
use mstpd.TopologyChange.Rest.{IsHandled, run_comes_to_a_stop, rest_handles}
use mstpd.PortInformation
use mstpd.PortInformation.View.{InfoView, message_info, same_sender, reading}
use mstpd.PortInformation.Rest.{IsSettled, run_settles_information, quiet_information}
use mstpd.PortInformation.Classify.{designated_message_info, rcv_info_never_repeated}
use mstpd.Transmit
use mstpd.Transmit.Message.{TransmitView, msti_flags, mst_bpdu_size_wo_msti_msgs}
use mstpd.Transmit.Limit.{IsLimited, run_within_limit}
use mstpd.Transmit.Flags.{Tells, msti_flags_roundtrip}
use mstpd.Transmit.Silent.{silent_sends_nothing}
use mstpd.BpduReceipt.{validate, rx_bpdu}
use mstpd.BpduReceipt.Accept.{
  OwnAccepted, IsWellFormed, own_bpdus_accepted, validate_ignores_size, rx_bpdu-IsWellFormed,
}
use mstpd.RoleSelection.Choose.{Member, choose_root}
use mstpd.RoleSelection
use mstpd.RoleSelection.Best.{IsBest, choose_root-IsBest}
use mstpd.RoleSelection.OneRoot.{root_count, one_root_port, selection_quiet}
use mstpd.Timers.{TimerView, tick_timers}
use mstpd.Timers.Marks.{IsMarked, tick_timers-IsMarked}
use mstpd.Examples.Samples.{
  vector_of, some_times, some_bpdu, some_bridge, some_tree, some_port, some_entry, some_node,
}

abbrev root_view : RoleView
root_view = record { me = some_entry; port = some_port; peers = [] }

abbrev sample_delays : Delays
sample_delays = record {
  max_age = 20;
  fwd_delay = 15;
  forward_delay = 2;
  hello_time = 2;
  migrate_time = 3;
  rstp = true;
}

run_comes_to_rest_example : RoleTransitions.Rest.Rests 65 sample_delays root_view
run_comes_to_rest_example =
    run_comes_to_rest 65 sample_delays root_view
      (record { coherent = refl; role_tame = λ e. ground arith; selected_tame = λ e. ground arith })
      (omega arith)

abbrev blocked_view : RoleView
blocked_view = record (root_view) {
  me = record (some_entry) {
    role = PortRole.alternate;
    selected_role = PortRole.alternate;
    prtsm_state = PrtsmState.block_port;
  };
}

run_keeps_blocking_example :
    (w : RoleView) × (RoleTransitions.Run.run 65 sample_delays blocked_view ≡ some w) × IsSafe w
run_keeps_blocking_example =
    run_keeps_blocking 65 sample_delays blocked_view
      (record { coherent = refl; role_tame = λ e. ground arith; selected_tame = λ e. ground arith })
      (record { coherent = refl; no_learn = λ _. refl; no_forward = λ _. refl }) (omega arith)

abbrev disputed_view : RoleView
disputed_view = record (root_view) {
  me = record (some_entry) {
    role = PortRole.designated;
    selected_role = PortRole.designated;
    prtsm_state = PrtsmState.designated_port;
    disputed = true;
    agree = true;
    fd_while = 15;
    synced = true;
    proposing = true;
  };
}

resting_designated_decides_example :
    (disputed_view.port.oper_edge ≡ false
      → (disputed_view.me.disputed
          || disputed_view.port.ba_inconsistent
          || disputed_view.me.sync
          || (disputed_view.me.re_root && not (disputed_view.me.rr_while == 0)))
        ≡ true
      → (disputed_view.me.learn ≡ false) × (disputed_view.me.forward ≡ false))
    × (((disputed_view.me.fd_while == 0 || disputed_view.me.agreed || disputed_view.port.oper_edge)
            && (disputed_view.me.rr_while == 0 || not disputed_view.me.re_root)
            && not disputed_view.me.sync
            && not disputed_view.port.ba_inconsistent)
          ≡ true
        → (disputed_view.me.learn ≡ true) × (disputed_view.me.forward ≡ true))
unfolding RoleTransitions.Run.dry_run RoleTransitions.Rules.next RoleTransitions.View.all_synced
resting_designated_decides_example =
    resting_designated_decides sample_delays disputed_view refl refl refl

abbrev torn_view : RoleView
torn_view = record (root_view) {
  me = record (some_entry) {
    role = PortRole.master;
    selected_role = PortRole.master;
    prtsm_state = PrtsmState.master_port;
    synced = true;
    agree = true;
    re_root = true;
    rr_while = 15;
  };
}

torn_never_ends_example : RoleTransitions.Run.run 100 sample_delays torn_view ≡ none
torn_never_ends_example = torn_never_ends 100 sample_delays torn_view (record {
  in_master = refl;
  role_master = refl;
  selected_master = refl;
  selected = refl;
  no_update = refl;
  synced = refl;
  no_sync = refl;
  agree = refl;
  not_proposed = refl;
  re_root = refl;
  recent_root = λ e. omega arith;
  not_edge = refl;
  peers_synced = refl;
})

abbrev learning_view : StateTransition.StateView
learning_view = record {
  me = record (some_entry) { learn = true; forward = true };
  port = some_port;
  out = [];
}

run-Follows_example :
    (w : StateTransition.StateView) × (StateTransition.run 3 learning_view ≡ some w)
    × Follows learning_view w
run-Follows_example =
    run-Follows 3 learning_view
      (record { learning_flag = refl; forwarding_flag = refl; driver_state = refl; alive = refl })
      (λ _. refl) (omega arith)

run_settles_example :
    (Migration.run 3 some_bridge some_port
      ≡ some (settled some_bridge some_port.ppmsm_state some_port))
    × (Migration.dry_run some_bridge (settled some_bridge some_port.ppmsm_state some_port) ≡ false)
    × (((settled some_bridge some_port.ppmsm_state some_port).send_rstp
          && not (rstp_version some_bridge.force_protocol_version))
        ≡ false)
run_settles_example = run_settles 0 some_bridge some_port (λ e. omega arith) (λ _. refl)

abbrev topology_view : TopologyView
topology_view = record {
  me = record (some_entry) { rcvd_tc = true; forward = true };
  port = some_port;
  tree = some_tree;
  peers = some_entry ∷ [];
  bridge = some_bridge;
  cist_hello_time = 2;
  cist_forward_delay = 15;
  out = [];
}

run_comes_to_a_stop_example : TopologyChange.Rest.Rests 17 topology_view
run_comes_to_a_stop_example = run_comes_to_a_stop 17 topology_view (omega arith)

abbrev calm_view : TopologyView
calm_view = record (topology_view) { me = record (some_entry) { tcsm_state = TcsmState.active } }

rest_handles_example : IsHandled calm_view
unfolding TopologyChange.Run.dry_run TopologyChange.Run.next
rest_handles_example = rest_handles calm_view (λ e. ground arith) refl

abbrev info_view : InfoView
info_view = record {
  me = some_entry;
  port = record (some_port) { rcvd_internal = true };
  others = record (some_entry) { mstid = 1 } ∷ [];
  bridge = some_bridge;
}

run_settles_information_example : PortInformation.Rest.Rests 13 info_view
run_settles_information_example = run_settles_information 13 info_view (omega arith)

abbrev current_view : InfoView
current_view = record (info_view) { me = record (some_entry) { rcvd_msg = false } }

designated_message_info_example : message_info true some_entry (vector_of 1) some_times ≡ (
    if not
        (better_or_same_priority some_entry.port_priority (vector_of 1) 0 0 (some_entry.mstid == 0))
      || same_sender (vector_of 1) some_entry.port_priority
    then PortInfo.superior_designated_info
    else PortInfo.inferior_designated_info)
designated_message_info_example = designated_message_info some_entry (vector_of 1) some_times

abbrev transmit_view : TransmitView
transmit_view = record { node = some_node; bridge = some_bridge; out = [] }

run_within_limit_example : IsLimited 15 transmit_view
run_within_limit_example =
    run_within_limit 15 transmit_view
      (record { hello = λ e. omega arith; counted = omega arith; bounded = omega arith })
      (omega arith)

abbrev mute_view : TransmitView
mute_view = record (transmit_view) {
  node = record (some_node) { port = record (some_port) { dont_txmt_bpdu = true; tx_count = 5 } };
}

-- The RSTP state is entered, but nothing is sent.
abbrev mute_end : TransmitView
mute_end = record (mute_view) {
  node = record (some_node) {
    port = record (some_port) { dont_txmt_bpdu = true; tx_count = 6; new_info = false };
  };
}

mute_run : Transmit.Run.run 9 mute_view ≡ some mute_end
unfolding Transmit.Run.run Transmit.Run.run_enabled Transmit.Run.next Transmit.Run.enter
    Transmit.Message.tx_mstp
mute_run = refl

msti_flags_roundtrip_example : Tells (msti_flags some_entry) some_entry
msti_flags_roundtrip_example = msti_flags_roundtrip some_entry

own_bpdus_accepted_example : OwnAccepted some_bridge some_node
own_bpdus_accepted_example = own_bpdus_accepted some_bridge some_node (omega arith)

rx_bpdu-IsWellFormed_example :
    IsWellFormed (rx_bpdu some_bridge some_entry some_bpdu 118 some_port).0
rx_bpdu-IsWellFormed_example =
    rx_bpdu-IsWellFormed some_bridge some_entry some_bpdu 118 some_port
      (record { version = inr (inr refl); at_most = λ _. omega arith; exactly = λ _. refl })

better_or_same_priority_iff_example :
    (better_or_same_priority (vector_of 1) (vector_of 2) 0 0 true ≡ true)
    ↔ LexLe (key true (vector_of 1) 0) (key true (vector_of 2) 0)
better_or_same_priority_iff_example =
    better_or_same_priority_iff (vector_of 1) (vector_of 2) 0 0 true

-- A port that has received the vector of a better bridge.
abbrev some_member : Member
some_member = record {
  me = record (some_entry) { info_is = InfoOrigin.received; reselect = true };
  port = some_port;
  cist = some_entry;
  mstis = record (some_entry) { mstid = 1 } ∷ [];
}

abbrev some_members : List Member
some_members = some_member ∷ some_member ∷ []

choose_root-IsBest_example : IsBest some_tree some_members (choose_root some_tree some_members)
choose_root-IsBest_example = choose_root-IsBest some_tree some_members

abbrev tree_view : RoleSelection.Roles.TreeView
tree_view = record { tree = some_tree; members = some_members }

one_root_port_example : root_count (RoleSelection.Roles.to_role_selection tree_view).members ≤ 1
one_root_port_example = one_root_port tree_view

abbrev timer_view : TimerView
timer_view = record {
  port = record (some_port) { tx_count = 6 };
  entries =
      record {
        me = record (some_entry) { tc_while = 2 };
        tree = record (some_tree) { topology_change = true };
        peers = some_entry ∷ [];
      }
      ∷ [];
}

tick_timers-IsMarked_example : All IsMarked (tick_timers timer_view).entries
tick_timers-IsMarked_example = tick_timers-IsMarked timer_view (refl, tt)
