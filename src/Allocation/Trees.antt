-- ===== src/Allocation/Trees.antt =====
-- mstp.c: create_tree, create_ptp, MSTP_IN_get_mstilist, MSTP_IN_create_msti and MSTP_IN_delete_msti.
--
-- Memory is taken to be there: the branches of a failed `calloc` are left out. What `calloc` leaves
-- zero is written out; the fields of a BPDU stand for a received message that is not there yet.
use mstpd.Prelude.{
  ℕ, zero, suc, ◌+◌, ◌*◌, ◌%◌, ◌^◌, true, false, ◌||◌, Option, none, some, List, [], ◌∷◌, map, ltb,
  ◌==◌, length, if◌then◌else◌,
}
use mstpd.Vector.{PriorityVector, Times, mac_address}
use mstpd.Enums.{
  BrState, PortInfo, InfoOrigin, PortRole, PismState, PrssmState, PrtsmState, PstsmState, TcsmState,
}
use mstpd.Types.{Bridge, Tree, Port, PerTreePort, MstiMessage}
use mstpd.Station.Grid.{Line, Station, entries, with_entries, entry_at, insert_at}
use mstpd.Config.Bridge.{Call, Outcome, reject}
use mstpd.Config.Port.{compute_pcost}
use mstpd.Allocation.Tables.{Domain, max_mstid, max_fid, mstids, has_mstid, some_from}

abbrev pub max_implementation_mstis : ℕ
max_implementation_mstis = 63

abbrev pub no_vector : PriorityVector
no_vector = record {
  r_root_id = 0;
  int_root_path_cost = 0;
  designated_bridge_id = 0;
  designated_port_id = 0;
  root_id = 0;
  ext_root_path_cost = 0;
}

abbrev pub no_times : Times
no_times = record {
  remaining_hops = 0;
  forward_delay = 0;
  max_age = 0;
  message_age = 0;
  hello_time = 0;
}

abbrev no_message : MstiMessage
no_message = record {
  flags = 0;
  msti_r_root_id = 0;
  msti_int_root_path_cost = 0;
  bridge_identifier_priority = 0;
  port_identifier_priority = 0;
  remaining_hops = 0;
}

-- create_tree, with tree_default_internal_vars.
unfoldable pub create_tree : Bridge → ℕ → ℕ → Tree
create_tree br macaddr mstid =
    let id = (2 ^ 15 + mstid) * 2 ^ 48 + macaddr in
    record {
      mstid = mstid;
      bridge_identifier = id;
      root_port_id = 0;
      root_priority = no_vector;
      bridge_priority = record no_vector {
        root_id = id;
        r_root_id = id;
        designated_bridge_id = id;
      };
      bridge_times = record {
        remaining_hops = br.max_hops;
        forward_delay = br.forward_delay;
        max_age = br.max_age;
        message_age = 0;
        hello_time = br.hello_time;
      };
      root_times = no_times;
      time_since_topology_change = 0;
      topology_change_count = 0;
      topology_change = false;
      prssm_state = PrssmState.init_tree;
    }

-- create_ptp, with ptp_default_internal_vars.
unfoldable pub create_ptp : Tree → ℕ → Port → PerTreePort
create_ptp t speed prt = record {
  mstid = t.mstid;
  state = BrState.disabled;
  fd_while = 0;
  rr_while = 0;
  rb_while = 0;
  tc_while = 0;
  rcvd_info_while = 0;
  agree = false;
  agreed = false;
  disputed = false;
  forward = false;
  forwarding = false;
  learn = false;
  learning = false;
  rcvd_info = PortInfo.other_info;
  info_is = InfoOrigin.disabled;
  proposed = false;
  proposing = false;
  rcvd_msg = false;
  rcvd_tc = false;
  re_root = false;
  reselect = false;
  selected = false;
  fdb_flush = false;
  tc_prop = false;
  updt_info = false;
  sync = false;
  synced = false;
  port_id = 2 ^ 15 + prt.port_number % 2 ^ 15;
  role = PortRole.disabled;
  selected_role = PortRole.disabled;
  designated_priority = no_vector;
  msg_priority = no_vector;
  port_priority = t.bridge_priority;
  designated_times = no_times;
  msg_times = no_times;
  port_times = t.bridge_times;
  master = false;
  mastered = false;
  internal_port_path_cost = compute_pcost speed;
  admin_internal_port_path_cost = 0;
  pism_state = PismState.disabled;
  prtsm_state = PrtsmState.init_port;
  pstsm_state = PstsmState.discarding;
  tcsm_state = TcsmState.inactive;
  called_from_flush_routine = false;
  rcvd_msti_config = no_message;
}

-- `tree_after`: the last tree of the list whose MSTID is smaller.
unfoldable pub tree_after : ℕ → ℕ → Option ℕ → List ℕ → Option ℕ
tree_after m i last [] = last
tree_after m i last (k ∷ ks) = tree_after m (suc i) (if ltb k m then some i else last) ks

-- A port gets its entry for the new tree after the one for the tree before.
unfoldable pub add_entry : ℕ → Tree → (Port → ℕ) → Line → Line
add_entry k t speed l = elim (entry_at k l.node) [
  | none ↦ l
  | some _ ↦ record l {
    node =
        with_entries
          (insert_at (suc k) (create_ptp t (speed l.node.port) l.node.port) (entries l.node))
          l.node;
  }
]

-- The MAC address of the CIST, GET_CIST_TREE.
abbrev pub cist_address : List Tree → ℕ
cist_address [] = 0
cist_address (t ∷ ts) = mac_address t.bridge_identifier

unfoldable pub add_tree : (Port → ℕ) → ℕ → ℕ → Station → Station
add_tree speed k m s =
    let t = create_tree s.bridge (cist_address s.trees) m in
    record s { trees = insert_at (suc k) t s.trees; lines = map (add_entry k t speed) s.lines }

-- MSTP_IN_create_msti; `speed` is GET_PORT_SPEED.
unfoldable pub create_msti : (Port → ℕ) → ℕ → Domain → Outcome Domain
create_msti speed m d =
    if ltb m 1 || ltb max_mstid m
    then reject d
    else if has_mstid m (mstids d.station)
    then record { accepted = true; state = d; call = Call.nothing }
    else elim (tree_after m 0 none (mstids d.station)) [
      | none ↦ reject d
      | some k ↦
          if ltb max_implementation_mstis (length d.station.trees) then reject d else record {
            accepted = true;
            state = record d { station = add_tree speed k m d.station };
            call = Call.begin_tree (suc k);
          }
    ]

-- The list without the element that has the given index.
unfoldable pub remove_at {ℓ} : {A : Type ℓ} → ℕ → List A → List A
remove_at i [] = []
remove_at zero (x ∷ xs) = xs
remove_at (suc i) (x ∷ xs) = x ∷ remove_at i xs

unfoldable pub index_of : ℕ → ℕ → List ℕ → Option ℕ
index_of m i [] = none
index_of m i (k ∷ ks) = if k == m then some i else index_of m (suc i) ks

abbrev pub remove_entry : ℕ → Line → Line
remove_entry k l = record l { node = with_entries (remove_at k (entries l.node)) l.node }

unfoldable pub remove_tree : ℕ → Station → Station
remove_tree k s = record s { trees = remove_at k s.trees; lines = map (remove_entry k) s.lines }

-- MSTP_IN_delete_msti.
unfoldable pub delete_msti : ℕ → Domain → Outcome Domain
delete_msti m d =
    if ltb m 1 || ltb max_mstid m || some_from 0 (max_fid + 1) (λ fid. d.fid2mstid fid == m)
    then reject d
    else elim (index_of m 0 (mstids d.station)) [
      | none ↦ record { accepted = true; state = d; call = Call.nothing }
      | some k ↦ record {
        accepted = true;
        state = record d { station = remove_tree k d.station };
        call = Call.run;
      }
    ]

-- MSTP_IN_get_mstilist: at most one MSTID more than MSTIs are allowed, for the CIST.
unfoldable pub take {ℓ} : {A : Type ℓ} → ℕ → List A → List A
take zero xs = []
take (suc n) [] = []
take (suc n) (x ∷ xs) = x ∷ take n xs

unfoldable pub get_mstilist : Station → List ℕ
get_mstilist s = take (suc max_implementation_mstis) (mstids s)
