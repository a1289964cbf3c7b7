-- ===== src/Station/Selection.antt =====
-- mstp.c: on what the Port Role Selection machine does to the entries of a tree and their ports.
use mathlib.Core.Path.{subst}
use mstpd.Prelude.{
  ℕ, suc, ◌≤◌, ◌≡◌, Bool, true, false, Option, List, [], ◌∷◌, map, refl, sym, Bool-cases, inl, inr,
  if◌then◌else◌, ◌&&◌, not,
}
use mstpd.Enums.{PrssmState, InfoOrigin, same_role, same_origin}
use mstpd.Types.{Tree, PerTreePort}
use mstpd.RoleSelection
use mstpd.RoleSelection.Choose.{Member, Root, choose_root, is_cist_tree}
use mstpd.RoleSelection.Roles.{
  TreeView, select_role, select_roles, updt_roles_tree, clear_reselect_tree, set_selected_tree,
  to_role_selection, selects, sync_master, set_designated, set_root, root_moves, is_root,
  selected_role_of,
}
use mstpd.RoleSelection.OneRoot.{root_count, one_root_port}
use mstpd.Station.Keep.{All2, All2-refl, All2-trans, All2-map}
use mstpd.Station.Sound.{core-IsSound, IsSound, Tracks, core-Tracks}
use mstpd.Station.Tracks.{All-Tracks, either-Tracks, All-Tracks-trans}

-- An entry that stays sound, whatever role is selected for it.
pub record Stays (p q : PerTreePort) : Type 0 where
  pub sound : IsSound p → IsSound q

-- A port of the tree, with its entries in the MSTIs.
pub record MemberStays (m k : Member) : Type 0 where
  pub me : IsSound m.me → IsSound k.me
  pub mstis : All2 Tracks m.mstis k.mstis

MemberStays-refl : (m : Member) → MemberStays m m
MemberStays-refl m = record { me = λ h. h; mstis = All-Tracks m.mstis }

MemberStays-trans : (m k l : Member) → MemberStays m k → MemberStays k l → MemberStays m l
MemberStays-trans m k l h g = record {
  me = λ s. g.me (h.me s);
  mstis = All-Tracks-trans m.mstis k.mstis l.mstis h.mstis g.mstis;
}

select_role-MemberStays : (t : Tree) (r : Bool) (m : Member) → MemberStays m (select_role t r m)
unfolding select_role
select_role-MemberStays t r m = record {
  me = λ h. record {
    coherent = h.coherent;
    no_learn = h.no_learn;
    no_forward = h.no_forward;
    learning_flag = h.learning_flag;
    forwarding_flag = h.forwarding_flag;
    driver_state = h.driver_state;
  };
  mstis =
      either-Tracks
        (is_cist_tree t
          && same_origin InfoOrigin.received m.me.info_is
          && not (same_role (selected_role_of t r m) m.me.role))
        m.mstis _ _ (All2-map Tracks _ (λ p. core-Tracks _ _ refl (λ e. e)) m.mstis)
        (All-Tracks m.mstis);
}

sync_master-MemberStays : (m : Member) → MemberStays m (sync_master m)
unfolding sync_master
sync_master-MemberStays m = record {
  me = λ h. h;
  mstis =
      either-Tracks m.port.info_internal m.mstis _ _
        (All2-map Tracks _ (λ p. core-Tracks _ _ refl (λ e. e)) m.mstis) (All-Tracks m.mstis);
}

AllStays-trans :
    (ms ks ls : List Member)
    → All2 MemberStays ms ks
    → All2 MemberStays ks ls
    → All2 MemberStays ms ls
AllStays-trans = All2-trans MemberStays MemberStays-refl MemberStays-trans

select_roles-Stays :
    (t : Tree) (r : Option Root) (i : ℕ) (ms : List Member)
    → All2 MemberStays ms (select_roles t r i ms)
unfolding select_roles
select_roles-Stays t r i [] = tt
select_roles-Stays t r i (m ∷ ms) =
    (select_role-MemberStays t (is_root r i) m, select_roles-Stays t r (suc i) ms)

-- A change of fields that the invariant does not read.
me-MemberStays :
    (m k : Member) → (IsSound m.me → IsSound k.me) → k.mstis ≡ m.mstis → MemberStays m k
me-MemberStays m k h e = record {
  me = h;
  mstis = subst (λ ps. All2 Tracks m.mstis ps) (sym e) (All-Tracks m.mstis);
}

synced-Stays :
    (b : Bool) (ms : List Member) → All2 MemberStays ms (if b then map sync_master ms else ms)
synced-Stays true ms = All2-map MemberStays sync_master sync_master-MemberStays ms
synced-Stays false ms = All2-refl MemberStays MemberStays-refl MemberStays-trans ms

-- The designated times keep the hello time of the port.
pub set_designated-Tracks : (t : Tree) (m : Member) → Tracks m.me (set_designated t m).me
unfolding set_designated
set_designated-Tracks t m = record {
  selects = refl;
  sound = λ h. record {
    coherent = h.coherent;
    no_learn = h.no_learn;
    no_forward = h.no_forward;
    learning_flag = h.learning_flag;
    forwarding_flag = h.forwarding_flag;
    driver_state = h.driver_state;
  };
  easy = λ h. record {
    coherent = h.coherent;
    role_tame = h.role_tame;
    selected_tame = h.selected_tame;
    hello = h.hello;
    designated_hello = λ _. h.hello;
  };
}

updt_roles_tree-Stays : (v : TreeView) → All2 MemberStays v.members (updt_roles_tree v).members
unfolding updt_roles_tree set_designated
updt_roles_tree-Stays v =
    let c = choose_root v.tree v.members in
    let t = set_root v.tree c in
    let ms = map (set_designated t) v.members in
    let moved = root_moves v.tree t in
    let synced = if moved then map sync_master ms else ms in
    AllStays-trans v.members ms _
      (All2-map MemberStays _
        (λ m. me-MemberStays m (set_designated t m) (set_designated-Tracks t m).sound refl)
        v.members)
      (AllStays-trans ms synced _ (synced-Stays moved ms) (select_roles-Stays t c.root 0 synced))

clear_reselect_tree-Stays : (ms : List Member) → All2 MemberStays ms (clear_reselect_tree ms)
unfolding clear_reselect_tree
clear_reselect_tree-Stays = All2-map MemberStays _ (λ (m : Member).
    me-MemberStays m (record m { me = record (m.me) { reselect = false } }) (core-IsSound _ _ refl)
      refl)

set_selected_tree-Stays : (ms : List Member) → All2 MemberStays ms (set_selected_tree ms)
unfolding set_selected_tree
set_selected_tree-Stays = All2-map MemberStays _ (λ (m : Member).
    me-MemberStays m (record m { me = record (m.me) { selected = true } }) (core-IsSound _ _ refl)
      refl)

to_role_selection-Stays : (v : TreeView) → All2 MemberStays v.members (to_role_selection v).members
unfolding to_role_selection
to_role_selection-Stays v =
    let ms = clear_reselect_tree v.members in
    let u : TreeView = record {
      tree = record (v.tree) { prssm_state = PrssmState.role_selection };
      members = ms;
    } in
    AllStays-trans v.members ms _ (clear_reselect_tree-Stays v.members) (
      AllStays-trans ms (updt_roles_tree u).members _ (updt_roles_tree-Stays u)
        (set_selected_tree-Stays (updt_roles_tree u).members))

-- PRSSM keeps the entries sound, and leaves one root port in the tree at most.
pub record Selects (v w : TreeView) : Type 0 where
  pub stays : All2 MemberStays v.members w.members
  pub one_root : root_count v.members ≤ 1 → root_count w.members ≤ 1

pub run-Selects : (v : TreeView) → Selects v (RoleSelection.Roles.run v)
unfolding RoleSelection.Roles.run
run-Selects v = elim (Bool-cases (selects v.tree.prssm_state v.members)) [
  | inl h ↦ rw h (record { stays = to_role_selection-Stays v; one_root = λ _. one_root_port v })
  | inr h ↦ rw h (record {
    stays = All2-refl MemberStays MemberStays-refl MemberStays-trans v.members;
    one_root = λ r. r;
  })
]
