-- ===== src/RoleTransitions/View.antt =====
-- mstp.c: what the Port Role Transitions machine of one port in one tree reads and writes.
use mstpd.Prelude.{ℕ, Bool, true, false, not, ◌&&◌, ◌||◌, List, all_of, if◌then◌else◌}
use mstpd.Enums.{PortRole, same_role, rstp_version}
use mstpd.Types.{PerTreePort, Port, Bridge}

-- `ptp`, `ptp->port`, and the other per-tree ports of `ptp->tree` in the tree's order.
pub record RoleView : Type 0 where
  pub me : PerTreePort
  pub port : Port
  pub peers : List PerTreePort

-- The static variables that the first call of a chain computes, and what the machine reads of the
-- bridge.
pub record Delays : Type 0 where
  pub max_age : ℕ
  pub fwd_delay : ℕ
  pub forward_delay : ℕ
  pub hello_time : ℕ
  pub migrate_time : ℕ
  pub rstp : Bool

-- The variables as computed where `recursive_call` is false; `cist` is the port's CIST entry.
unfoldable pub delays : Bridge → Port → PerTreePort → Delays
delays br prt cist = record {
  max_age = cist.designated_times.max_age;
  fwd_delay = cist.designated_times.forward_delay;
  forward_delay =
      if prt.send_rstp then cist.port_times.hello_time else cist.designated_times.forward_delay;
  hello_time = cist.port_times.hello_time;
  migrate_time = br.migrate_time;
  rstp = rstp_version br.force_protocol_version;
}

-- 13.25.1 a): the role of this port is settled.
abbrev pub is_settled : PerTreePort → Bool
is_settled p = p.selected && same_role p.role p.selected_role && not p.updt_info

-- 13.25.1 b) at another port of the tree, by the role of the port that asks.
abbrev pub peer_synced : PortRole → PerTreePort → Bool
peer_synced PortRole.root p = same_role PortRole.root p.role || p.synced
peer_synced PortRole.alternate p = same_role PortRole.root p.role || p.synced
peer_synced PortRole.designated p = p.synced
peer_synced PortRole.master p = p.synced
peer_synced _ p = false

-- 13.25.1 b) at the port itself.
abbrev pub self_synced : PortRole → Bool → Bool
self_synced PortRole.alternate synced = synced
self_synced PortRole.root synced = true
self_synced PortRole.designated synced = true
self_synced PortRole.master synced = true
self_synced _ synced = false

-- The loop that computes `allSynced`; its answer does not depend on the order of the ports.
unfoldable pub all_synced : RoleView → Bool
all_synced v =
    is_settled v.me
    && self_synced v.me.role v.me.synced
    && all_of (λ p. is_settled p && peer_synced v.me.role p) v.peers
