-- ===== src/Vector/Order.antt =====
-- The order of priority vectors by which mstp.c chooses the better information: the ladder of
-- `betterorsamePriority` against the lexicographic order of the vector's components.
use mstpd.Prelude.{ℕ, ◌<◌, ◌≡◌, ◌⊎◌, ◌↔◌, Bool, true, false, List, [], ◌∷◌, arith, leb}
use mstpd.Vector.{
  PriorityVector, Times, same_priority_and_timers, rank, better_or_same_internal,
  better_or_same_priority,
}

-- The lexicographic order on lists of numbers of one length.
abbrev pub LexLe : List ℕ → List ℕ → Type 0
LexLe [] ys = Unit
LexLe (x ∷ xs) [] = ⊥
LexLe (x ∷ xs) (y ∷ ys) = (x < y) ⊎ ((x ≡ y) × LexLe xs ys)

-- The components of a vector, the most significant first, with the tie-breaker.
abbrev pub internal_key : PriorityVector → ℕ → List ℕ
internal_key v p =
    v.r_root_id ∷ v.int_root_path_cost ∷ v.designated_bridge_id ∷ v.designated_port_id ∷ p ∷ []

abbrev pub key : Bool → PriorityVector → ℕ → List ℕ
key false v p = internal_key v p
key true v p = v.root_id ∷ v.ext_root_path_cost ∷ internal_key v p

rank→lex :
    (a b : ℕ) (rest : Bool) {P : Type 0}
    → (rest ≡ true → P)
    → rank a b rest ≡ true
    → (a < b) ⊎ ((a ≡ b) × P)
rank→lex a b rest f h = ground arith

lex→rank :
    (a b : ℕ) (rest : Bool) {P : Type 0}
    → (P → rest ≡ true)
    → (a < b) ⊎ ((a ≡ b) × P)
    → rank a b rest ≡ true
lex→rank a b rest f h = ground arith

-- One rung of the ladder is one component of the lexicographic order.
rank_iff :
    (a b : ℕ) {rest : Bool} {P : Type 0}
    → (rest ≡ true) ↔ P
    → (rank a b rest ≡ true) ↔ ((a < b) ⊎ ((a ≡ b) × P))
rank_iff a b {rest = rest} e = (rank→lex a b rest e.0, lex→rank a b rest e.1)

last_iff : (a b : ℕ) → (leb a b ≡ true) ↔ LexLe (a ∷ []) (b ∷ [])
last_iff a b = (λ h. ground arith, λ h. ground arith)

internal_iff :
    (v w : PriorityVector) (p q : ℕ)
    → (better_or_same_internal v w p q ≡ true) ↔ LexLe (internal_key v p) (internal_key w q)
unfolding better_or_same_internal
internal_iff v w p q = rank_iff v.r_root_id w.r_root_id (
    rank_iff v.int_root_path_cost w.int_root_path_cost (
      rank_iff v.designated_bridge_id w.designated_bridge_id
        (rank_iff v.designated_port_id w.designated_port_id (last_iff p q))))

-- `betterorsamePriority` answers true exactly when the first vector's components, with its port
-- identifier last, are lexicographically at most the second's; for the CIST the root identifier
-- and the external cost come first, for an MSTI they are not looked at.
pub better_or_same_priority_iff :
    (v w : PriorityVector) (p q : ℕ) (cist : Bool)
    → (better_or_same_priority v w p q cist ≡ true) ↔ LexLe (key cist v p) (key cist w q)
unfolding better_or_same_priority
better_or_same_priority_iff v w p q true =
    rank_iff v.root_id w.root_id
      (rank_iff v.ext_root_path_cost w.ext_root_path_cost (internal_iff v w p q))
better_or_same_priority_iff v w p q false = internal_iff v w p q

LexLe-trans : (xs ys zs : List ℕ) → LexLe xs ys → LexLe ys zs → LexLe xs zs
LexLe-trans [] ys zs h k = tt
LexLe-trans (x ∷ xs) [] zs h k = absurd h
LexLe-trans (x ∷ xs) (y ∷ ys) [] h k = absurd k
LexLe-trans (x ∷ xs) (y ∷ ys) (z ∷ zs) h k = ground (arith, LexLe-trans xs ys zs)

-- No cycle of preferences: of three vectors compared under one tree, if the first is better than
-- or the same as the second, and the second as the third, then the first is as the third.
pub better_or_same_priority_trans :
    (u v w : PriorityVector) (p q r : ℕ) (cist : Bool)
    → better_or_same_priority u v p q cist ≡ true
    → better_or_same_priority v w q r cist ≡ true
    → better_or_same_priority u w p r cist ≡ true
better_or_same_priority_trans u v w p q r cist h k = (better_or_same_priority_iff u w p r cist).1 (
    LexLe-trans (key cist u p) (key cist v q) (key cist w r)
      ((better_or_same_priority_iff u v p q cist).0 h)
      ((better_or_same_priority_iff v w q r cist).0 k))

rank_total :
    (a b : ℕ) (s t : Bool) → (s ≡ true) ⊎ (t ≡ true) → (rank a b s ≡ true) ⊎ (rank b a t ≡ true)
rank_total a b s t h = ground arith

leb_total : (a b : ℕ) → (leb a b ≡ true) ⊎ (leb b a ≡ true)
leb_total a b = ground arith

internal_total :
    (v w : PriorityVector) (p q : ℕ)
    → (better_or_same_internal v w p q ≡ true) ⊎ (better_or_same_internal w v q p ≡ true)
unfolding better_or_same_internal
internal_total v w p q = rank_total v.r_root_id w.r_root_id _ _ (
    rank_total v.int_root_path_cost w.int_root_path_cost _ _ (
      rank_total v.designated_bridge_id w.designated_bridge_id _ _
        (rank_total v.designated_port_id w.designated_port_id _ _ (leb_total p q))))

-- Of any two vectors under one tree, one is better than or the same as the other.
pub better_or_same_priority_total :
    (v w : PriorityVector) (p q : ℕ) (cist : Bool)
    → (better_or_same_priority v w p q cist ≡ true) ⊎ (better_or_same_priority w v q p cist ≡ true)
unfolding better_or_same_priority
better_or_same_priority_total v w p q true =
    rank_total v.root_id w.root_id _ _
      (rank_total v.ext_root_path_cost w.ext_root_path_cost _ _ (internal_total v w p q))
better_or_same_priority_total v w p q false = internal_total v w p q

rank_antisymm :
    (a b : ℕ) (s t : Bool)
    → rank a b s ≡ true
    → rank b a t ≡ true
    → (a ≡ b) × (s ≡ true) × (t ≡ true)
rank_antisymm a b s t h k = ground arith

-- The components that `betterorsamePriority` looks at agree.
pub record Agrees (cist : Bool) (v w : PriorityVector) : Type 0 where
  pub root : cist ≡ true → v.root_id ≡ w.root_id
  pub ext_cost : cist ≡ true → v.ext_root_path_cost ≡ w.ext_root_path_cost
  pub r_root : v.r_root_id ≡ w.r_root_id
  pub int_cost : v.int_root_path_cost ≡ w.int_root_path_cost
  pub bridge : v.designated_bridge_id ≡ w.designated_bridge_id
  pub port : v.designated_port_id ≡ w.designated_port_id

internal_antisymm :
    (v w : PriorityVector) (p q : ℕ)
    → better_or_same_internal v w p q ≡ true
    → better_or_same_internal w v q p ≡ true
    → Agrees false v w
unfolding better_or_same_internal
internal_antisymm v w p q h k =
    let (r, h1, k1) = rank_antisymm _ _ _ _ h k in
    let (i, h2, k2) = rank_antisymm _ _ _ _ h1 k1 in
    let (b, h3, k3) = rank_antisymm _ _ _ _ h2 k2 in
    let (d, h4, k4) = rank_antisymm _ _ _ _ h3 k3 in
    record { root = λ e. cc; ext_cost = λ e. cc; r_root = r; int_cost = i; bridge = b; port = d }

pub better_antisymm :
    (v w : PriorityVector) (p q : ℕ) (cist : Bool)
    → better_or_same_priority v w p q cist ≡ true
    → better_or_same_priority w v q p cist ≡ true
    → Agrees cist v w
unfolding better_or_same_priority
better_antisymm v w p q false h k = internal_antisymm v w p q h k
better_antisymm v w p q true h k =
    let (r, h1, k1) = rank_antisymm _ _ _ _ h k in
    let (e, h2, k2) = rank_antisymm _ _ _ _ h1 k1 in
    let a = internal_antisymm v w p q h2 k2 in
    record {
      root = λ _. r;
      ext_cost = λ _. e;
      r_root = a.r_root;
      int_cost = a.int_cost;
      bridge = a.bridge;
      port = a.port;
    }

-- What `rcvInfo` relies on: if neither of two vectors is worse than the other, and the times are
-- the same, then `samePriorityAndTimers` answers true.
pub same_priority_of_both :
    (v w : PriorityVector) (t : Times) (p q : ℕ) (cist : Bool)
    → better_or_same_priority v w p q cist ≡ true
    → better_or_same_priority w v q p cist ≡ true
    → same_priority_and_timers v w t t cist ≡ true
unfolding same_priority_and_timers
same_priority_of_both v w t p q cist h k = ground (arith, better_antisymm v w p q cist h k)
