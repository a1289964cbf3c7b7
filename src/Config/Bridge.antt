-- ===== src/Config/Bridge.antt =====
-- mstp.c: MSTP_IN_set_cist_bridge_config and MSTP_IN_set_msti_bridge_config.
use mstpd.Prelude.{
  ℕ, ◌+◌, ◌*◌, ◌%◌, ◌/◌, ◌^◌, Bool, true, false, not, ◌&&◌, ◌||◌, Option, none, some, List, map,
  ltb, ◌==◌, is_some, if◌then◌else◌,
}
use mstpd.Vector.{Times, set_priority_in_bridge_id}
use mstpd.Enums.{proto_stp, proto_rstp, proto_mstp}
use mstpd.Types.{Bridge, Tree, PerTreePort}
use mstpd.Station.Grid.{Line, Station, column, put_column, get_at, set_at}

-- What a function does at its end: `br_state_machines_begin`, `tree_state_machines_begin` for the tree
-- with the given index, `br_state_machines_run`, or nothing.
pub data Call : Type 0 where
  begin run nothing : Call
  begin_tree : ℕ → Call

-- `accepted` is false where the code returns -1.
pub record Outcome {ℓ} (S : Type ℓ) : Type ℓ where
  pub accepted : Bool
  pub state : S
  pub call : Call

abbrev pub reject {ℓ} : {S : Type ℓ} → S → Outcome S
reject s = record { accepted = false; state = s; call = Call.nothing }

-- CIST_BridgeConfig.
pub record CistBridgeConfig : Type 0 where
  pub bridge_max_age : Option ℕ
  pub bridge_forward_delay : Option ℕ
  pub protocol_version : Option ℕ
  pub tx_hold_count : Option ℕ
  pub max_hops : Option ℕ
  pub bridge_hello_time : Option ℕ
  pub bridge_ageing_time : Option ℕ

abbrev pub or_else : ℕ → Option ℕ → ℕ
or_else d none = d
or_else d (some n) = n

-- Is the value, if it is set, from `low` to `high`?
abbrev pub within : ℕ → ℕ → Option ℕ → Bool
within low high none = true
within low high (some n) = not (ltb n low || ltb high n)

abbrev pub known_version : Option ℕ → Bool
known_version none = true
known_version (some v) = v == proto_stp || v == proto_rstp || v == proto_mstp

-- `2 * (new_forward_delay - 1) < new_max_age`, on signed numbers, is false.
abbrev pub times_fit : ℕ → ℕ → Bool
times_fit max_age forward_delay = not (ltb (2 * forward_delay) (max_age + 2))

-- The validation.
unfoldable pub accepts : CistBridgeConfig → Bridge → Bool
accepts cfg br =
    within 6 40 cfg.bridge_max_age
    && within 4 30 cfg.bridge_forward_delay
    && (not (is_some cfg.bridge_max_age || is_some cfg.bridge_forward_delay)
        || times_fit (or_else br.max_age cfg.bridge_max_age)
            (or_else br.forward_delay cfg.bridge_forward_delay))
    && known_version cfg.protocol_version
    && within 1 10 cfg.tx_hold_count
    && within 6 100 cfg.max_hops
    && within 2 2 cfg.bridge_hello_time
    && within 10 1000000 cfg.bridge_ageing_time

-- `changedBridgeTimes`, and the condition under which the times are not what they were.
abbrev pub changes_times : CistBridgeConfig → Bridge → Bool
changes_times cfg br =
    not (or_else br.max_age cfg.bridge_max_age == br.max_age)
    || not (or_else br.forward_delay cfg.bridge_forward_delay == br.forward_delay)
    || not (or_else br.max_hops cfg.max_hops == br.max_hops)

abbrev pub changes_version : CistBridgeConfig → Bridge → Bool
changes_version cfg br =
    not (or_else br.force_protocol_version cfg.protocol_version == br.force_protocol_version)

abbrev pub changes_hold_count : CistBridgeConfig → Bridge → Bool
changes_hold_count cfg br =
    not (or_else br.transmit_hold_count cfg.tx_hold_count == br.transmit_hold_count)

-- The parameters after the second part; the hello time is checked and not written.
unfoldable pub configure : CistBridgeConfig → Bridge → Bridge
configure cfg br = record br {
  max_age = or_else br.max_age cfg.bridge_max_age;
  forward_delay = or_else br.forward_delay cfg.bridge_forward_delay;
  force_protocol_version = or_else br.force_protocol_version cfg.protocol_version;
  transmit_hold_count = or_else br.transmit_hold_count cfg.tx_hold_count;
  max_hops = or_else br.max_hops cfg.max_hops;
  ageing_time = or_else br.ageing_time cfg.bridge_ageing_time;
}

abbrev pub bridge_times_of : Bridge → Times → Times
bridge_times_of br t = record t {
  remaining_hops = br.max_hops;
  forward_delay = br.forward_delay;
  max_age = br.max_age;
  hello_time = br.hello_time;
}

abbrev pub update_tree : Bridge → Tree → Tree
update_tree br t = record t { bridge_times = bridge_times_of br t.bridge_times }

abbrev pub ask_reselect : PerTreePort → PerTreePort
ask_reselect p = record p { selected = false; reselect = true }

abbrev pub update_entry : ℕ → PerTreePort → PerTreePort
update_entry hello_time p = record p {
  selected = false;
  reselect = true;
  port_times = record (p.port_times) { hello_time = hello_time };
}

abbrev pub with_times : Bridge → Line → Line
with_times br l = record l {
  node = record (l.node) {
    cist = update_entry br.hello_time l.node.cist;
    mstis = map (update_entry br.hello_time) l.node.mstis;
  };
}

abbrev pub clear_tx_count : Line → Line
clear_tx_count l = record l {
  node = record (l.node) { port = record (l.node.port) { tx_count = 0 } };
}

abbrev pub map_if {ℓ} : {A : Type ℓ} → Bool → (A → A) → List A → List A
map_if true f xs = map f xs
map_if false f xs = xs

abbrev pub cist_call : CistBridgeConfig → Bridge → Call
cist_call cfg br =
    if (changes_times cfg br || changes_version cfg br || changes_hold_count cfg br)
      && br.bridge_enabled
    then (if changes_version cfg br then Call.begin else Call.run)
    else Call.nothing

-- The second and the third part.
unfoldable pub apply_cist_config : CistBridgeConfig → Station → Station
apply_cist_config cfg s =
    let br = configure cfg s.bridge in
    record {
      bridge = br;
      trees = map_if (changes_times cfg s.bridge) (update_tree br) s.trees;
      lines =
          map_if (changes_times cfg s.bridge) (with_times br)
            (map_if (changes_hold_count cfg s.bridge) clear_tx_count s.lines);
    }

-- MSTP_IN_set_cist_bridge_config.
unfoldable pub set_cist_bridge_config : CistBridgeConfig → Station → Outcome Station
set_cist_bridge_config cfg s =
    if not (accepts cfg s.bridge)
    then reject s
    else record { accepted = true; state = apply_cist_config cfg s; call = cist_call cfg s.bridge }

-- GET_PRIORITY_FROM_IDENTIFIER at a bridge identifier.
abbrev pub bridge_priority_of : ℕ → ℕ
bridge_priority_of id = id / 2 ^ 60 % 16 * 16

abbrev pub with_identifier : ℕ → Tree → Tree
with_identifier id t = record t {
  bridge_identifier = id;
  bridge_priority = record (t.bridge_priority) {
    root_id = id;
    r_root_id = id;
    designated_bridge_id = id;
  };
}

abbrev pub set_tree : ℕ → Tree → Station → Station
set_tree j t s = record s {
  trees = set_at j t s.trees;
  lines = put_column j (map ask_reselect (column j s.lines)) s.lines;
}

-- MSTP_IN_set_msti_bridge_config, for the tree with the given index. It ends without a call of the
-- state machines.
unfoldable pub set_msti_bridge_config : ℕ → ℕ → Station → Outcome Station
set_msti_bridge_config j bridge_priority s = elim (get_at j s.trees) [
  | none ↦ reject s
  | some t ↦
      if ltb 15 bridge_priority
      then reject s
      else if bridge_priority_of t.bridge_identifier == bridge_priority * 16 % 256
      then record { accepted = true; state = s; call = Call.nothing }
      else record {
        accepted = true;
        state =
            set_tree j
              (with_identifier
                (set_priority_in_bridge_id (bridge_priority * 16 % 256) t.bridge_identifier) t)
              s;
        call = Call.nothing;
      }
]
