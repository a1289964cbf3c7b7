-- ===== src/RoleSelection/Choose.antt =====
-- mstp.c, updtRolesTree: the first loop, which chooses the root port.
use mstpd.Prelude.{
  ℕ, suc, ◌+◌, ◌-◌, ◌%◌, ◌^◌, Bool, not, ◌&&◌, Option, none, some, List, [], ◌∷◌, ltb, ◌==◌,
  if◌then◌else◌,
}
use mstpd.Vector.{PriorityVector, Times, better_or_same_priority}
use mstpd.Enums.{InfoOrigin, same_origin}
use mstpd.Types.{Tree, Port, PerTreePort}

-- A port of the tree: `me` is `ptp`, `port` its port, and `cist` the port's entry in the CIST, which
-- is read if the tree is an MSTI. `mstis` are the port's entries in the MSTIs, which are written if
-- the tree is the CIST.
pub record Member : Type 0 where
  pub me : PerTreePort
  pub port : Port
  pub cist : PerTreePort
  pub mstis : List PerTreePort

abbrev pub is_cist_tree : Tree → Bool
is_cist_tree t = t.mstid == 0

-- Adding a path cost stops at UINT32_MAX.
abbrev pub add_cost : ℕ → ℕ → ℕ
add_cost cost port_cost = if ltb (2 ^ 32 - 1 - port_cost) cost then 2 ^ 32 - 1 else cost + port_cost

-- Does the port offer a path to the root?
abbrev pub is_candidate : Tree → Member → Bool
is_candidate t m =
    same_origin InfoOrigin.received m.me.info_is
    && not m.port.restricted_role
    && not (m.me.port_priority.designated_bridge_id == t.bridge_identifier)

unfoldable pub root_path_priority : Tree → Member → PriorityVector
root_path_priority t m =
    let p = m.me.port_priority in
    let outside = not m.port.rcvd_internal && is_cist_tree t in
    record p {
      r_root_id = if outside then t.bridge_identifier else p.r_root_id;
      int_root_path_cost =
          if m.port.rcvd_internal
          then add_cost p.int_root_path_cost m.me.internal_port_path_cost
          else if outside
          then 0
          else p.int_root_path_cost;
      ext_root_path_cost =
          if outside
          then add_cost p.ext_root_path_cost m.port.external_port_path_cost
          else p.ext_root_path_cost;
    }

-- `root_ptp`, with its place in the list of the tree's ports.
pub record Root : Type 0 where
  pub index : ℕ
  pub member : Member

-- The local variables of the loop: `rootPriority`, `rootPortId` and `root_ptp`.
pub record Choice : Type 0 where
  pub priority : PriorityVector
  pub port_id : ℕ
  pub root : Option Root

abbrev pub is_better : Tree → Member → Choice → Bool
is_better t m c =
    is_candidate t m
    && better_or_same_priority (root_path_priority t m) c.priority m.me.port_id c.port_id
        (is_cist_tree t)

abbrev pub with_root : Tree → ℕ → Member → Choice
with_root t i m = record {
  priority = root_path_priority t m;
  port_id = m.me.port_id;
  root = some (record { index = i; member = m });
}

-- One round of the loop.
unfoldable pub consider : Tree → ℕ → Member → Choice → Choice
consider t i m c = if is_better t m c then with_root t i m else c

-- The loop, from the port at place `i`.
unfoldable pub choose : Tree → ℕ → List Member → Choice → Choice
choose t i [] c = c
choose t i (m ∷ ms) c = choose t (suc i) ms (consider t i m c)

abbrev pub no_root : Tree → Choice
no_root t = record { priority = t.bridge_priority; port_id = 0; root = none }

-- a), b): the new root priority vector, root port identifier and root port.
unfoldable pub choose_root : Tree → List Member → Choice
choose_root t ms = choose t 0 ms (no_root t)

-- c).
unfoldable pub new_root_times : Tree → Option Root → Times
new_root_times t none = t.bridge_times
new_root_times t (some r) = record (r.member.me.port_times) {
  remaining_hops =
      if r.member.port.rcvd_internal
      then r.member.me.port_times.remaining_hops - 1
      else r.member.me.port_times.remaining_hops;
  message_age =
      if r.member.port.rcvd_internal
      then r.member.me.port_times.message_age
      else (r.member.me.port_times.message_age + 1) % 2 ^ 8;
}
