-- ===== src/Station/Resting.antt =====
-- mstp.c, br_state_machines_run: on a bridge in which a dry run over all machines reports no change.
use mathlib.Core.Path.{subst}
use mathlib.Core.Option
use mstpd.Prelude.{
  ◌+◌, ℕ, zero, suc, ◌≤◌, ◌<◌, ◌≡◌, Bool, true, false, none, some, List, [], ◌∷◌, refl, sym, ◌∙◌,
  ap, arith, Option-cases, Bool-cases, inl, inr, ◌⊎◌, length, any_of, any_from, All, bit,
}
use mstpd.Enums.{PortRole, BrState, PstsmState, same_role}
use mstpd.Types.{PerTreePort, PortNode}
use mstpd.StateTransition
use mstpd.RoleTransitions
use mstpd.RoleTransitions.View.{RoleView, Delays, delays}
use mstpd.RoleTransitions.Rules.{role_changes, is_ready}
use mstpd.RoleTransitions.Guarantees.{is_blocking_role}
use mstpd.Station.Grid.{Line, Station, Place, place, push, entries, entry_at, get_at, column}
use mstpd.Station.Cells.{role_view}
use mstpd.Station.Pass.{dry_pass, move_dry, transit_dry}
use mstpd.Station.StillRows.{or-left, or-right, is_some-none}
use mstpd.Station.Quiet.{dry_pass-IsQuiet}
use mstpd.Station.Sound.{IsSound}
use mstpd.Station.Carry.{IsOrderly, SoundLine}
use mstpd.Station.Columns.{roots}

any_from-false : (d : ℕ → Bool) (i n k : ℕ) → any_from i n d ≡ false → k < n → d (i + k) ≡ false
any_from-false d i zero k h l = absurd (omega arith)
any_from-false d i (suc n) zero h l =
    subst (λ x. d x ≡ false) (omega arith) (or-left (d i) (any_from (suc i) n d) h)
any_from-false d i (suc n) (suc k) h l =
    subst (λ x. d x ≡ false) (omega arith)
      (any_from-false d (suc i) n k (or-right (d i) (any_from (suc i) n d) h) (omega arith))

any_below-false : (d : ℕ → Bool) (n k : ℕ) → any_from 0 n d ≡ false → k < n → d k ≡ false
any_below-false d n k h l = subst (λ x. d x ≡ false) (omega arith) (any_from-false d 0 n k h l)

any_of-false {ℓ} :
    {A : Type ℓ} (d : A → Bool) (xs : List A) → any_of d xs ≡ false → All (λ x. d x ≡ false) xs
any_of-false d [] h = tt
any_of-false d (x ∷ xs) h =
    (or-left (d x) (any_of d xs) h, any_of-false d xs (or-right (d x) (any_of d xs) h))

All-get_at {ℓ} :
    {A : Type ℓ} (P : A → Type 0) (xs : List A)
    → ((k : ℕ) (x : A) → k < length xs → get_at k xs ≡ some x → P x)
    → All P xs
unfolding get_at
All-get_at P [] h = tt
All-get_at P (x ∷ xs) h =
    (h 0 x (omega arith) refl, All-get_at P xs (λ k y l e. h (suc k) y (omega arith) e))

get_at-All {ℓ} :
    {A : Type ℓ} (P : A → Type 0) (xs : List A)
    → All P xs
    → (k : ℕ) (x : A) → get_at k xs ≡ some x
    → P x
unfolding get_at
get_at-All P [] h k x e = cc
get_at-All P (y ∷ ys) h zero x e = subst P (Option.some-injective _ _ e) h.0
get_at-All P (y ∷ ys) h (suc k) x e = get_at-All P ys h.1 k x e

-- The port neither learns nor forwards, and neither does the driver's port.
abbrev pub IsBlocked : PerTreePort → Type 0
IsBlocked p = (p.learning ≡ false) × (p.forwarding ≡ false) × (p.state ≡ BrState.blocking)

-- Every port of a blocking role is so.
abbrev pub Blocks : PerTreePort → Type 0
Blocks p = (is_blocking_role p.role ≡ false) ⊎ IsBlocked p

still-IsBlocked :
    (s : PstsmState) (p : PerTreePort)
    → p.pstsm_state ≡ s
    → IsSound p
    → StateTransition.next_state s p ≡ none
    → is_blocking_role p.role ≡ true
    → IsBlocked p
unfolding StateTransition.next_state
still-IsBlocked PstsmState.discarding p e h n b = ground arith
still-IsBlocked PstsmState.learning p e h n b = ground arith
still-IsBlocked PstsmState.forwarding p e h n b = ground arith

still-Blocks :
    (p : PerTreePort) → IsSound p → StateTransition.next_state p.pstsm_state p ≡ none → Blocks p
still-Blocks p h n = elim (Bool-cases (is_blocking_role p.role)) [
  | inl b ↦ inr (still-IsBlocked p.pstsm_state p refl h n b)
  | inr b ↦ inl b
]

move_dry-Blocks :
    (j : ℕ) (l : Line) (p : PerTreePort)
    → entry_at j l.node ≡ some p
    → IsSound p
    → move_dry j l ≡ false
    → Blocks p
unfolding StateTransition.dry_run StateTransition.next
move_dry-Blocks j l p e h d = still-Blocks p h (is_some-none _ (rw (e, move_dry) at d))

-- The entries of a port are those of its list.
entry_at-get_at : (j : ℕ) (n : PortNode) → entry_at j n ≡ get_at j (entries n)
unfolding get_at
entry_at-get_at zero n = refl
entry_at-get_at (suc j) n = refl

resting_line :
    (l : Line)
    → SoundLine l
    → any_from 0 (length (entries l.node)) (λ j. move_dry j l) ≡ false
    → All Blocks (entries l.node)
resting_line l (d, c, ms) h = All-get_at Blocks (entries l.node) (λ j p lt e.
    move_dry-Blocks j l p (entry_at-get_at j l.node ∙ e) (sound j p e)
      (any_below-false (λ j. move_dry j l) (length (entries l.node)) j h lt))
  where
    sound : (j : ℕ) (p : PerTreePort) → get_at j (entries l.node) ≡ some p → IsSound p
    sound = get_at-All IsSound (entries l.node) (c, ms)

resting_lines :
    (ls : List Line)
    → All SoundLine ls
    → All (λ l. any_from 0 (length (entries l.node)) (λ j. move_dry j l) ≡ false) ls
    → All (λ l. All Blocks (entries l.node)) ls
resting_lines [] s h = tt
resting_lines (l ∷ ls) s h = (resting_line l s.0 h.0, resting_lines ls s.1 h.1)

-- When an orderly bridge is at rest, every port whose role in a tree is Disabled, Alternate or Backup
-- neither learns nor forwards in that tree, and the driver was left in the state blocking.
pub resting_bridge-Blocks :
    (s : Station)
    → IsOrderly s
    → dry_pass s ≡ false
    → All (λ l. All Blocks (entries l.node)) s.lines
resting_bridge-Blocks s o h =
    resting_lines s.lines o.sound (any_of-false _ s.lines (dry_pass-IsQuiet s h).moved)

-- The roles of a tree's ports, when no machine has anything to do.
pub record HasSelectedRole (p : PerTreePort) : Type 0 where
  pub same : is_ready p ≡ true → p.role ≡ p.selected_role

role_changes-false :
    (p : PerTreePort) → role_changes p ≡ false → is_ready p ≡ true → p.role ≡ p.selected_role
role_changes-false p h r = ground arith

next-none :
    (c : Delays) (v : RoleView)
    → RoleTransitions.Run.dry_run c v ≡ false
    → role_changes v.me ≡ false
unfolding RoleTransitions.Run.dry_run RoleTransitions.Rules.next
next-none c v h = elim (Bool-cases (role_changes v.me)) [ inl e ↦ cc (rw e at h) | inr e ↦ e ]

All-place {ℓ} :
    {A : Type ℓ} (P : A → Type 0) (xs : List A)
    → ((k : ℕ) (q : Place A) → k < length xs → place k xs ≡ some q → P q.here)
    → All P xs
unfolding place
All-place P [] h = tt
All-place P (x ∷ xs) h = (
  h 0 _ (omega arith) refl,
  All-place P xs
      (λ k q l e. h (suc k) (record q { before = x ∷ q.before }) (omega arith) (ap (push x) e)),
)

-- The number of ports with the role Root, and whether the roles of all ports are settled.
abbrev pub root_ports : List PerTreePort → ℕ
root_ports [] = 0
root_ports (p ∷ ps) = bit (same_role PortRole.root p.role) + root_ports ps

abbrev pub AllReady : List PerTreePort → Type 0
AllReady ps = All (λ p. is_ready p ≡ true) ps

root_ports-roots :
    (ps : List PerTreePort) → All HasSelectedRole ps → AllReady ps → root_ports ps ≡ roots ps
root_ports-roots [] h r = refl
root_ports-roots (p ∷ ps) h r = rw (h.0.same r.0, root_ports-roots ps h.1 r.1) refl

transit_dry-same :
    (i j : ℕ) (s : Station) (q : Place Line) (p : PerTreePort)
    → place i s.lines ≡ some q
    → entry_at j q.here.node ≡ some p
    → transit_dry i j s ≡ false
    → HasSelectedRole p
transit_dry-same i j s q p e f h = record {
  same = role_changes-false p (
      next-none (delays s.bridge q.here.node.port q.here.node.cist) (role_view j q p)
        (rw (e, f, transit_dry) at h));
}

column_of :
    (j : ℕ) (P : PerTreePort → Type 0) (ls : List Line)
    → All (λ l. (p : PerTreePort) → entry_at j l.node ≡ some p → P p) ls
    → All P (column j ls)
unfolding column
column_of j P [] h = tt
column_of j P (l ∷ ls) h = elim (Option-cases (entry_at j l.node)) [
  | inl e ↦ rw (e, column) (column_of j P ls h.1)
  | inr (p, e) ↦ rw (e, column) (h.0 p e, column_of j P ls h.1)
]

-- When an orderly bridge is at rest, a tree all of whose ports have a settled selection has one Root
-- Port at most.
pub resting_bridge_one_root :
    (s : Station) (j : ℕ)
    → IsOrderly s
    → dry_pass s ≡ false
    → j < length s.trees
    → AllReady (column j s.lines)
    → root_ports (column j s.lines) ≤ 1
resting_bridge_one_root s j o h l r =
    let same = column_of j HasSelectedRole s.lines (
      All-place _ s.lines (λ i q lt e p f. transit_dry-same i j s q p e f (
        any_below-false (λ j. transit_dry i j s) (length s.trees) j
          (any_below-false (λ i. any_from 0 (length s.trees) (λ j. transit_dry i j s))
            (length s.lines) i (dry_pass-IsQuiet s h).transited lt)
          l))) in
    subst (λ n. n ≤ 1) (sym (root_ports-roots (column j s.lines) same r)) (o.one_root j)
