-- ===== src/RoleSelection/Roles.antt =====
-- mstp.c, updtRolesTree: the designated vectors and the roles; and the machine PRSSM.
use mstpd.Prelude.{
  ℕ, suc, Bool, true, false, not, ◌&&◌, ◌||◌, Option, none, some, List, [], ◌∷◌, map, any_of, ◌==◌,
  if◌then◌else◌,
}
use mstpd.Vector.{same_priority_and_timers, better_or_same_priority}
use mstpd.Enums.{PortRole, InfoOrigin, PrssmState, same_role, same_origin}
use mstpd.Types.{Tree, PerTreePort}
use mstpd.RoleSelection.Choose.{Member, Root, Choice, is_cist_tree, choose_root, new_root_times}

pub record TreeView : Type 0 where
  pub tree : Tree
  pub members : List Member

-- a) to c), in the tree.
unfoldable pub set_root : Tree → Choice → Tree
set_root t c = record t {
  root_priority = c.priority;
  root_port_id = c.port_id;
  root_times = new_root_times t c.root;
}

-- d), e), with the tree as set_root leaves it.
unfoldable pub set_designated : Tree → Member → Member
set_designated t m = record m {
  me = record (m.me) {
    designated_priority = record (t.root_priority) {
      designated_bridge_id = t.bridge_identifier;
      designated_port_id = m.me.port_id;
      r_root_id =
          if is_cist_tree t && not m.port.send_rstp
          then t.bridge_identifier
          else t.root_priority.r_root_id;
    };
    designated_times = record (t.root_times) { hello_time = m.me.port_times.hello_time };
  };
}

-- 13.26.18, for the MSTIs of one port.
unfoldable pub sync_master : Member → Member
sync_master m = record m {
  mstis =
      if m.port.info_internal
      then map
          (λ (p : PerTreePort). record p {
            agree = false;
            agreed = false;
            synced = false;
            sync = true;
          })
          m.mstis
      else m.mstis;
}

-- The condition of syncMaster: `old` is the tree before the choice, `t` the tree after it.
abbrev pub root_moves : Tree → Tree → Bool
root_moves old t =
    is_cist_tree t
    && not (t.root_priority.r_root_id == old.root_priority.r_root_id)
    && (not (t.root_priority.ext_root_path_cost == 0)
        || not (old.root_priority.ext_root_path_cost == 0))

-- `root_ptp == ptp`, for the port at place `i`.
abbrev pub is_root : Option Root → ℕ → Bool
is_root none i = false
is_root (some r) i = r.index == i

-- A port of an MSTI at the boundary of the region.
abbrev pub is_boundary : Tree → Member → Bool
is_boundary t m =
    not (is_cist_tree t)
    && same_origin InfoOrigin.received m.cist.info_is
    && not m.port.info_internal

abbrev pub differs : Bool → PerTreePort → Bool
differs cist p = not (
    same_priority_and_timers p.port_priority p.designated_priority p.port_times p.designated_times
      cist)

-- g).
abbrev pub boundary_role : PortRole → PortRole
boundary_role PortRole.root = PortRole.master
boundary_role r = r

-- j) to m), where the port's vector is better than the designated one or not, and names another
-- bridge or not.
abbrev pub received_role : Bool → Bool → Bool → PortRole
received_role true better other = PortRole.root
received_role false true true = PortRole.alternate
received_role false true false = PortRole.backup
received_role false false other = PortRole.designated

-- The port's vector against the designated one, in j) to m).
abbrev pub is_blocked : Tree → PerTreePort → Bool
is_blocked t p = better_or_same_priority p.port_priority p.designated_priority 0 0 (is_cist_tree t)

-- h) to m): the role, by the origin of the information.
abbrev pub origin_role : Tree → Bool → PerTreePort → InfoOrigin → PortRole
origin_role t root p InfoOrigin.disabled = PortRole.disabled
origin_role t root p InfoOrigin.aged = PortRole.designated
origin_role t root p InfoOrigin.mine = PortRole.designated
origin_role t root p InfoOrigin.received =
    received_role root (is_blocked t p)
      (not (p.port_priority.designated_bridge_id == t.bridge_identifier))

abbrev pub origin_update : Tree → Bool → PerTreePort → InfoOrigin → Bool
origin_update t root p InfoOrigin.disabled = p.updt_info
origin_update t root p InfoOrigin.aged = true
origin_update t root p InfoOrigin.mine = p.updt_info || differs (is_cist_tree t) p
origin_update t root p InfoOrigin.received = not root && not (is_blocked t p)

-- Does clause g) choose the role? A port without information is Disabled before.
abbrev pub follows_cist : Tree → Member → Bool
follows_cist t m = is_boundary t m && not (same_origin InfoOrigin.disabled m.me.info_is)

abbrev pub selected_role_of : Tree → Bool → Member → PortRole
selected_role_of t root m =
    if follows_cist t m
    then boundary_role m.cist.selected_role
    else origin_role t root m.me m.me.info_is

-- f) to m), with reselectMSTIs.
unfoldable pub select_role : Tree → Bool → Member → Member
select_role t root m = record m {
  me = record (m.me) {
    selected_role = selected_role_of t root m;
    updt_info =
        if follows_cist t m
        then m.me.updt_info || differs false m.me
        else origin_update t root m.me m.me.info_is;
  };
  mstis =
      if is_cist_tree t
        && same_origin InfoOrigin.received m.me.info_is
        && not (same_role (selected_role_of t root m) m.me.role)
      then map (λ (p : PerTreePort). record p { reselect = true }) m.mstis
      else m.mstis;
}

-- The last loop, from the port at place `i`.
unfoldable pub select_roles : Tree → Option Root → ℕ → List Member → List Member
select_roles t r i [] = []
select_roles t r i (m ∷ ms) = select_role t (is_root r i) m ∷ select_roles t r (suc i) ms

-- 13.26.23.
unfoldable pub updt_roles_tree : TreeView → TreeView
updt_roles_tree v =
    let c = choose_root v.tree v.members in
    let t = set_root v.tree c in
    let ms = map (set_designated t) v.members in
    let synced = if root_moves v.tree t then map sync_master ms else ms in
    record { tree = t; members = select_roles t c.root 0 synced }

-- 13.26.3 and 13.26.14.
unfoldable pub clear_reselect_tree : List Member → List Member
clear_reselect_tree ms =
    map (λ (m : Member). record m { me = record (m.me) { reselect = false } }) ms

unfoldable pub set_selected_tree : List Member → List Member
set_selected_tree ms = map (λ (m : Member). record m { me = record (m.me) { selected = true } }) ms

unfoldable pub to_role_selection : TreeView → TreeView
to_role_selection v =
    let w = updt_roles_tree (record {
      tree = record (v.tree) { prssm_state = PrssmState.role_selection };
      members = clear_reselect_tree v.members;
    }) in
    record w { members = set_selected_tree w.members }

-- 13.26.24 and PRSSM_to_INIT_TREE.
abbrev pub to_init_tree : TreeView → TreeView
to_init_tree v = record {
  tree = record (v.tree) { prssm_state = PrssmState.init_tree };
  members =
      map (λ (m : Member). record m { me = record (m.me) { selected_role = PortRole.disabled } })
        v.members;
}

-- The conditions of PRSSM_run, which are its dry run.
unfoldable pub selects : PrssmState → List Member → Bool
selects PrssmState.init_tree ms = true
selects PrssmState.role_selection ms = any_of (λ m. m.me.reselect) ms

unfoldable pub dry_run : TreeView → Bool
dry_run v = selects v.tree.prssm_state v.members

unfoldable pub run : TreeView → TreeView
run v = if selects v.tree.prssm_state v.members then to_role_selection v else v
