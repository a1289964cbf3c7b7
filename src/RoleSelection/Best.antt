-- ===== src/RoleSelection/Best.antt =====
-- mstp.c, updtRolesTree: on the choice of the root path.
use mstpd.Prelude.{
  ℕ, suc, ◌≡◌, refl, Bool, true, false, ◌&&◌, Option, none, some, List, [], ◌∷◌, All, arith,
  Bool-cases, inl, inr,
}
use mstpd.Vector.{PriorityVector, better_or_same_priority}
use mstpd.Vector.Order.{better_or_same_priority_trans, better_or_same_priority_total}
use mstpd.Types.{Tree}
use mstpd.RoleSelection.Choose.{
  Member, Root, Choice, is_cist_tree, is_candidate, is_better, with_root, root_path_priority,
  consider, choose, no_root, choose_root,
}

-- The choice is better than or the same as a vector with a port identifier.
abbrev pub Beats : Tree → Choice → PriorityVector → ℕ → Type 0
Beats t c v id = better_or_same_priority c.priority v c.port_id id (is_cist_tree t) ≡ true

-- The choice is better than or the same as the root path of a port that offers one.
abbrev pub BeatsMember : Tree → Choice → Member → Type 0
BeatsMember t c m = is_candidate t m ≡ true → Beats t c (root_path_priority t m) m.me.port_id

-- The choice is the bridge itself, or the root path of a port that offers one.
abbrev pub IsAttained : Tree → Choice → Option Root → Type 0
IsAttained t c none = (c.priority ≡ t.bridge_priority) × (c.port_id ≡ 0)
IsAttained t c (some r) =
    (is_candidate t r.member ≡ true)
    × (c.priority ≡ root_path_priority t r.member)
    × (c.port_id ≡ r.member.me.port_id)

Beats-refl : (t : Tree) (c : Choice) → Beats t c c.priority c.port_id
Beats-refl t c =
    elim (better_or_same_priority_total c.priority c.priority c.port_id c.port_id
      (is_cist_tree t)) [ inl h ↦ h | inr h ↦ h ]

and-right : (a b : Bool) → (a && b) ≡ true → b ≡ true
and-right a b h = ground arith

and-false : (a b : Bool) → (a && b) ≡ false → a ≡ true → b ≡ false
and-false a b h k = ground arith

-- A round of the loop keeps what was chosen or finds something better.
consider-Beats :
    (t : Tree) (i : ℕ) (m : Member) (c : Choice) → Beats t (consider t i m c) c.priority c.port_id
unfolding consider
consider-Beats t i m c = elim (Bool-cases (is_better t m c)) [
  | inl h ↦ rw h (and-right (is_candidate t m) _ h)
  | inr h ↦ rw h (Beats-refl t c)
]

consider-BeatsMember :
    (t : Tree) (i : ℕ) (m : Member) (c : Choice) → BeatsMember t (consider t i m c) m
unfolding consider
consider-BeatsMember t i m c k = elim (Bool-cases (is_better t m c)) [
  | inl h ↦ rw h (Beats-refl t (with_root t i m))
  | inr h ↦
      rw h
        (elim (better_or_same_priority_total c.priority (root_path_priority t m) c.port_id
          m.me.port_id (is_cist_tree t)) [
            | inl g ↦ g
            | inr g ↦ let q = and-false (is_candidate t m) _ h k in absurd (ground arith)
          ])
]

choose-Beats :
    (t : Tree) (i : ℕ) (ms : List Member) (c : Choice)
    → Beats t (choose t i ms c) c.priority c.port_id
unfolding choose
choose-Beats t i [] c = Beats-refl t c
choose-Beats t i (m ∷ ms) c =
    let d = consider t i m c in
    let e = choose t (suc i) ms d in
    better_or_same_priority_trans e.priority d.priority c.priority e.port_id d.port_id c.port_id
      (is_cist_tree t) (choose-Beats t (suc i) ms d) (consider-Beats t i m c)

choose-BeatsMember :
    (t : Tree) (i : ℕ) (ms : List Member) (c : Choice) → All (BeatsMember t (choose t i ms c)) ms
unfolding choose
choose-BeatsMember t i [] c = tt
choose-BeatsMember t i (m ∷ ms) c =
    let d = consider t i m c in
    let e = choose t (suc i) ms d in
    (
      λ k.
          better_or_same_priority_trans e.priority d.priority (root_path_priority t m) e.port_id
            d.port_id m.me.port_id (is_cist_tree t) (choose-Beats t (suc i) ms d)
            (consider-BeatsMember t i m c k),
      choose-BeatsMember t (suc i) ms d,
    )

and-left : (a b : Bool) → (a && b) ≡ true → a ≡ true
and-left a b h = ground arith

consider-IsAttained :
    (t : Tree) (i : ℕ) (m : Member) (c : Choice)
    → IsAttained t c c.root
    → IsAttained t (consider t i m c) (consider t i m c).root
unfolding consider
consider-IsAttained t i m c a = elim (Bool-cases (is_better t m c)) [
  | inl h ↦ rw h (and-left _ _ h, refl, refl)
  | inr h ↦ rw h a
]

choose-IsAttained :
    (t : Tree) (i : ℕ) (ms : List Member) (c : Choice)
    → IsAttained t c c.root
    → IsAttained t (choose t i ms c) (choose t i ms c).root
unfolding choose
choose-IsAttained t i [] c a = a
choose-IsAttained t i (m ∷ ms) c a =
    choose-IsAttained t (suc i) ms (consider t i m c) (consider-IsAttained t i m c a)

-- What the choice of a root promises.
pub record IsBest (t : Tree) (ms : List Member) (c : Choice) : Type 0 where
  pub bridge : Beats t c t.bridge_priority 0
  pub ports : All (BeatsMember t c) ms
  pub attained : IsAttained t c c.root

-- The first loop of updtRolesTree chooses the best: its vector is better than or the same as the
-- bridge's own and as the root path of every port that offers one, port identifiers included, and it
-- is the bridge's own if there is no root port, else the root path of the root port.
pub choose_root-IsBest : (t : Tree) (ms : List Member) → IsBest t ms (choose_root t ms)
unfolding choose_root
choose_root-IsBest t ms = record {
  bridge = choose-Beats t 0 ms (no_root t);
  ports = choose-BeatsMember t 0 ms (no_root t);
  attained = choose-IsAttained t 0 ms (no_root t) (refl, refl);
}
