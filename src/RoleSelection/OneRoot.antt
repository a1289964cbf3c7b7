-- ===== src/RoleSelection/OneRoot.antt =====
-- mstp.c, updtRolesTree and PRSSM_run: on the number of root ports, and on rest.
use mstpd.Prelude.{
  ℕ, suc, ◌+◌, ◌≤◌, ◌≡◌, refl, Bool, true, false, not, Option, none, some, List, [], ◌∷◌, map, bit,
  arith, Bool-cases, inl, inr, ◌==◌, if◌then◌else◌, any_of, ap, ◌∙◌, ltb, ◌||◌,
}
use mstpd.Enums.{PortRole, InfoOrigin, PrssmState, same_role}
use mstpd.Types.{Tree, PerTreePort}
use mstpd.RoleSelection.Choose.{Member, Root, choose_root}
use mstpd.RoleSelection.Roles.{
  TreeView, boundary_role, origin_role, follows_cist, select_role, select_roles, updt_roles_tree,
  clear_reselect_tree, set_selected_tree, to_role_selection, selects, dry_run, run, sync_master,
  set_designated, set_root, root_moves,
}

-- The number of ports whose selected role is Root.
abbrev pub root_count : List Member → ℕ
root_count [] = 0
root_count (m ∷ ms) = bit (same_role PortRole.root m.me.selected_role) + root_count ms

origin_role-root :
    (t : Tree) (r : Bool) (p : PerTreePort) (o : InfoOrigin)
    → same_role PortRole.root (origin_role t r p o) ≡ true
    → r ≡ true
origin_role-root t r p InfoOrigin.received h = ground arith
origin_role-root t r p _ h = absurd (ground arith)

-- Only the port that was chosen takes the role of the root port.
select_role-root :
    (t : Tree) (r : Bool) (m : Member)
    → same_role PortRole.root (select_role t r m).me.selected_role ≡ true
    → r ≡ true
unfolding select_role
select_role-root t r m h = elim (Bool-cases (follows_cist t m)) [
  | inl f ↦ absurd (never (m.cist.selected_role) (rw f at h))
  | inr f ↦ origin_role-root t r m.me m.me.info_is (rw f at h)
]
  where
    never : (c : PortRole) → same_role PortRole.root (boundary_role c) ≡ true → ⊥
    never c h = ground arith

-- The place of the root port, or a place behind all ports.
abbrev is_at_or_after : Option Root → ℕ → Bool
is_at_or_after none i = false
is_at_or_after (some r) i = not (ltb r.index i)

root_count-select :
    (t : Tree) (r : Option Root) (i : ℕ) (ms : List Member)
    → root_count (select_roles t r i ms) ≤ bit (is_at_or_after r i)
unfolding select_roles
root_count-select t r i [] = ground arith
root_count-select t none i (m ∷ ms) =
    let h = select_role-root t false m in ground (arith, root_count-select t none (suc i) ms)
root_count-select t (some r) i (m ∷ ms) =
    let h = select_role-root t (r.index == i) m in
    ground (arith, root_count-select t (some r) (suc i) ms)

bit-le : (b : Bool) → bit b ≤ 1
bit-le b = ground arith

root_count-set_selected_tree :
    (ms : List Member) → root_count (set_selected_tree ms) ≡ root_count ms
unfolding set_selected_tree
root_count-set_selected_tree [] = refl
root_count-set_selected_tree (m ∷ ms) =
    ap (λ n. bit (same_role PortRole.root m.me.selected_role) + n) (root_count-set_selected_tree ms)

root_count-updt_roles_tree : (v : TreeView) → root_count (updt_roles_tree v).members ≤ 1
unfolding updt_roles_tree
root_count-updt_roles_tree v = omega (
  arith,
  root_count-select _ (choose_root v.tree v.members).root 0 _,
  bit-le (is_at_or_after (choose_root v.tree v.members).root 0),
)

-- PRSSM_to_ROLE_SELECTION gives the Root role to one port of the tree at most.
pub one_root_port : (v : TreeView) → root_count (to_role_selection v).members ≤ 1
unfolding to_role_selection
one_root_port v = omega (arith, root_count-set_selected_tree _, root_count-updt_roles_tree _)

-- Does some port ask for a new selection?
abbrev asks : List Member → Bool
asks ms = any_of (λ m. m.me.reselect) ms

asks-map :
    (f : Member → Member)
    → ((m : Member) → (f m).me.reselect ≡ m.me.reselect)
    → (ms : List Member) → asks (map f ms) ≡ asks ms
asks-map f h [] = refl
asks-map f h (m ∷ ms) = rw (h m, asks-map f h ms) refl

asks-clear_reselect_tree : (ms : List Member) → asks (clear_reselect_tree ms) ≡ false
unfolding clear_reselect_tree
asks-clear_reselect_tree [] = refl
asks-clear_reselect_tree (m ∷ ms) = asks-clear_reselect_tree ms

asks-select_roles :
    (t : Tree) (r : Option Root) (i : ℕ) (ms : List Member) → asks (select_roles t r i ms) ≡ asks ms
unfolding select_roles select_role
asks-select_roles t r i [] = refl
asks-select_roles t r i (m ∷ ms) = ap (λ b. m.me.reselect || b) (asks-select_roles t r (suc i) ms)

asks-either : (b : Bool) (ms : List Member) → asks (if b then map sync_master ms else ms) ≡ asks ms
unfolding sync_master
asks-either true ms = asks-map sync_master (λ m. refl) ms
asks-either false ms = refl

asks-updt_roles_tree : (v : TreeView) → asks (updt_roles_tree v).members ≡ asks v.members
unfolding updt_roles_tree set_designated
asks-updt_roles_tree v =
    let c = choose_root v.tree v.members in
    let t = set_root v.tree c in
    let ms = map (set_designated t) v.members in
    let moved = root_moves v.tree t in
    asks-select_roles t c.root 0 (if moved then map sync_master ms else ms)
    ∙ asks-either moved ms
    ∙ asks-map (set_designated t) (λ m. refl) v.members

asks-set_selected_tree : (ms : List Member) → asks (set_selected_tree ms) ≡ asks ms
unfolding set_selected_tree
asks-set_selected_tree [] = refl
asks-set_selected_tree (m ∷ ms) = ap (λ b. m.me.reselect || b) (asks-set_selected_tree ms)

-- The tree as PRSSM_to_ROLE_SELECTION hands it to updtRolesTree.
abbrev cleared : TreeView → TreeView
cleared v = record {
  tree = record (v.tree) { prssm_state = PrssmState.role_selection };
  members = clear_reselect_tree v.members;
}

asks-to_role_selection : (v : TreeView) → asks (to_role_selection v).members ≡ false
unfolding to_role_selection
asks-to_role_selection v =
    asks-set_selected_tree (updt_roles_tree (cleared v)).members
    ∙ asks-updt_roles_tree (cleared v)
    ∙ asks-clear_reselect_tree v.members

to_role_selection-state :
    (v : TreeView) → (to_role_selection v).tree.prssm_state ≡ PrssmState.role_selection
unfolding to_role_selection updt_roles_tree set_root
to_role_selection-state v = refl

to_role_selection-quiet : (v : TreeView) → dry_run (to_role_selection v) ≡ false
unfolding dry_run selects
to_role_selection-quiet v =
    ap (λ s. selects s (to_role_selection v).members) (to_role_selection-state v)
    ∙ asks-to_role_selection v

-- After one call of PRSSM_run a dry run reports no change.
pub selection_quiet : (v : TreeView) → dry_run (run v) ≡ false
unfolding run dry_run
selection_quiet v = elim (Bool-cases (selects v.tree.prssm_state v.members)) [
  | inl h ↦ rw h (unfold dry_run in to_role_selection-quiet v)
  | inr h ↦ rw h h
]
