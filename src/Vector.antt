-- ===== src/Vector.antt =====
-- mstp.h and mstp.c: bridge and port identifiers, priority vectors, times, and the two helper
-- functions that compare them.
--
-- An identifier or a cost is kept in the C code in network byte order and compared by `memcmp`,
-- which on big-endian bytes is the order of the numbers. So an identifier is here the number that
-- its bytes stand for: a bridge identifier is below 2 ^ 64 (a priority of 16 bits above a MAC
-- address of 48), a port identifier below 2 ^ 16, a path cost below 2 ^ 32.
pub mod Order
use mstpd.Prelude.{
  ℕ, ◌+◌, ◌*◌, ◌/◌, ◌%◌, ◌^◌, Bool, true, false, ◌&&◌, ltb, leb, ◌==◌, if◌then◌else◌,
}

pub record PriorityVector : Type 0 where
  pub r_root_id : ℕ
  pub int_root_path_cost : ℕ
  pub designated_bridge_id : ℕ
  pub designated_port_id : ℕ
  pub root_id : ℕ
  pub ext_root_path_cost : ℕ

pub record Times : Type 0 where
  pub remaining_hops : ℕ
  pub forward_delay : ℕ
  pub max_age : ℕ
  pub message_age : ℕ
  pub hello_time : ℕ

-- `s.mac_address` of a bridge identifier.
abbrev pub mac_address : ℕ → ℕ
mac_address id = id % 2 ^ 48

-- Writes `s.priority`, the first two octets of a bridge identifier.
abbrev pub set_bridge_priority : ℕ → ℕ → ℕ
set_bridge_priority pri id = pri * 2 ^ 48 + id % 2 ^ 48

-- GET_PRIORITY_FROM_IDENTIFIER at a bridge identifier: the high nibble of the first octet.
abbrev pub get_priority_from_bridge_id : ℕ → ℕ
get_priority_from_bridge_id id = id / 2 ^ 60 % 16 * 16

-- GET_PRIORITY_FROM_IDENTIFIER at a port identifier.
abbrev pub get_priority_from_port_id : ℕ → ℕ
get_priority_from_port_id id = id / 2 ^ 12 % 16 * 16

-- SET_PRIORITY_IN_IDENTIFIER at a bridge identifier: keeps the low nibble of the first octet and
-- takes the high nibble of `pri`.
abbrev pub set_priority_in_bridge_id : ℕ → ℕ → ℕ
set_priority_in_bridge_id pri id = pri / 16 % 16 * 2 ^ 60 + id % 2 ^ 60

-- SET_PRIORITY_IN_IDENTIFIER at a port identifier.
abbrev pub set_priority_in_port_id : ℕ → ℕ → ℕ
set_priority_in_port_id pri id = pri / 16 % 16 * 2 ^ 12 + id % 2 ^ 12

unfoldable pub same_priority_and_timers :
    PriorityVector → PriorityVector → Times → Times → Bool → Bool
same_priority_and_timers vec1 vec2 time1 time2 cist =
    (if cist
      then time1.forward_delay == time2.forward_delay
        && time1.max_age == time2.max_age
        && time1.message_age == time2.message_age
        && time1.hello_time == time2.hello_time
        && vec1.root_id == vec2.root_id
        && vec1.ext_root_path_cost == vec2.ext_root_path_cost
      else true)
    && time1.remaining_hops == time2.remaining_hops
    && vec1.r_root_id == vec2.r_root_id
    && vec1.int_root_path_cost == vec2.int_root_path_cost
    && vec1.designated_bridge_id == vec2.designated_bridge_id
    && vec1.designated_port_id == vec2.designated_port_id

-- One step of the ladder: `false` if `a` is worse, `true` if it is better, else what follows.
abbrev pub rank : ℕ → ℕ → Bool → Bool
rank a b rest = if ltb b a then false else if ltb a b then true else rest

-- The part of the ladder that the CIST and the MSTIs share.
pub better_or_same_internal : PriorityVector → PriorityVector → ℕ → ℕ → Bool
better_or_same_internal vec1 vec2 p_id1 p_id2 = rank vec1.r_root_id vec2.r_root_id (
    rank vec1.int_root_path_cost vec2.int_root_path_cost (
      rank vec1.designated_bridge_id vec2.designated_bridge_id
        (rank vec1.designated_port_id vec2.designated_port_id (leb p_id1 p_id2))))

unfoldable pub better_or_same_priority : PriorityVector → PriorityVector → ℕ → ℕ → Bool → Bool
unfolding better_or_same_internal
better_or_same_priority vec1 vec2 p_id1 p_id2 cist =
    if cist
    then rank vec1.root_id vec2.root_id (
        rank vec1.ext_root_path_cost vec2.ext_root_path_cost
          (better_or_same_internal vec1 vec2 p_id1 p_id2))
    else better_or_same_internal vec1 vec2 p_id1 p_id2
