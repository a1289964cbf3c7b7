-- ===== src/Allocation/Ordered.antt =====
-- mstp.c: on the list of trees, sorted by MSTID, when an MSTI is created or deleted.
use mathlib.Core.Path.{subst}
use mathlib.Core.Option
use mstpd.Prelude.{
  ℕ, zero, suc, ◌+◌, ◌≤◌, ◌<◌, ◌≡◌, ◌≢◌, true, false, not, ◌&&◌, ◌||◌, Option, none, some, List, [],
  ◌∷◌, map, refl, sym, ◌∙◌, ap, ltb, ◌==◌, Bool-cases, inl, inr, arith, length, if◌then◌else◌,
}
use mstpd.Station.Grid.{insert_at}
use mstpd.Allocation.Tables.{has_mstid}
use mstpd.Allocation.Trees.{tree_after, remove_at, index_of}

-- The MSTIDs of a list that is sorted, after the given one.
abbrev pub Above : ℕ → List ℕ → Type 0
Above x [] = Unit
Above x (y ∷ ys) = (x < y) × Above y ys

-- First the CIST, then the MSTIs, each of them once.
abbrev pub IsSorted : List ℕ → Type 0
IsSorted [] = ⊥
IsSorted (x ∷ xs) = (x ≡ 0) × Above x xs

-- How many MSTIDs at the start of a list are smaller.
lower : ℕ → List ℕ → ℕ
lower m [] = 0
lower m (x ∷ xs) = if ltb x m then suc (lower m xs) else 0

after-none-lower :
    (m i x : ℕ) (last : Option ℕ) (xs : List ℕ) → m < x → Above x xs → tree_after m i last xs ≡ last
unfolding tree_after
after-none-lower m i x last [] h a = refl
after-none-lower m i x last (y ∷ ys) h a =
    ground (arith, after-none-lower m (suc i) y last ys (omega arith) a.1)

tree_after-lower :
    (m a x : ℕ) (xs : List ℕ)
    → Above x xs
    → has_mstid m xs ≡ false
    → tree_after m (suc a) (some a) xs ≡ some (a + lower m xs)
unfolding tree_after lower
tree_after-lower m a x [] h n = ap some (omega arith)
tree_after-lower m a x (y ∷ ys) h n = elim (Bool-cases (ltb y m)) [
  | inl e ↦ rw e (tree_after-lower m (suc a) y ys h.1 (ground (arith, n)) ∙ ap some (omega arith))
  | inr e ↦ rw e (
      after-none-lower m (suc (suc a)) y (some a) ys (ground (arith, n, e)) h.1
      ∙ ap some (omega arith))
]

Above-insert_at :
    (m x : ℕ) (xs : List ℕ)
    → x < m
    → Above x xs
    → has_mstid m xs ≡ false
    → Above x (insert_at (lower m xs) m xs)
unfolding lower insert_at
Above-insert_at m x [] l h n = (l, tt)
Above-insert_at m x (y ∷ ys) l h n = elim (Bool-cases (ltb y m)) [
  | inl e ↦ rw e (h.0, Above-insert_at m y ys (ground (arith, e)) h.1 (ground (arith, n)))
  | inr e ↦ rw e (l, (ground (arith, n, e), h.1))
]

lower-le : (m : ℕ) (xs : List ℕ) → lower m xs ≤ length xs
unfolding lower
lower-le m [] = omega arith
lower-le m (x ∷ xs) = ground (arith, lower-le m xs)

-- The MSTI is put in its place.
pub tree_after-IsSorted :
    (m k : ℕ) (xs : List ℕ)
    → 1 ≤ m
    → IsSorted xs
    → has_mstid m xs ≡ false
    → tree_after m 0 none xs ≡ some k
    → IsSorted (insert_at (suc k) m xs) × (k < length xs)
unfolding tree_after insert_at
tree_after-IsSorted m k [] l h n e = absurd h
tree_after-IsSorted m k (x ∷ xs) l h n e =
    let small : x < m = omega (arith, h.0) in
    let below : ltb x m ≡ true = ground (arith, small) in
    let step : tree_after m 1 (some 0) xs ≡ some k =
      subst (λ b. tree_after m 1 (if b then some 0 else none) xs ≡ some k) below e in
    let other : has_mstid m xs ≡ false = ground (arith, n) in
    let place : k ≡ lower m xs =
      Option.some-injective _ _ (sym step ∙ tree_after-lower m 0 x xs h.1 other) ∙ omega arith in
    (
      (
        h.0,
        subst (λ j. Above x (insert_at j m xs)) (sym place)
            (Above-insert_at m x xs small h.1 other),
      ),
      omega (arith, place, lower-le m xs),
    )

pub has_mstid-insert_at :
    (i m k : ℕ) (xs : List ℕ) → has_mstid i xs ≡ true → has_mstid i (insert_at k m xs) ≡ true
unfolding insert_at
has_mstid-insert_at i m zero xs h = ground (arith, h)
has_mstid-insert_at i m (suc k) [] h = cc
has_mstid-insert_at i m (suc k) (x ∷ xs) h = ground (arith, has_mstid-insert_at i m k xs)

module _ {ℓ κ} {A : Type ℓ} {B : Type κ} (f : A → B) where
  pub map-insert_at :
      (k : ℕ) (x : A) (xs : List A) → map f (insert_at k x xs) ≡ insert_at k (f x) (map f xs)
  unfolding insert_at
  map-insert_at zero x xs = refl
  map-insert_at (suc k) x [] = refl
  map-insert_at (suc k) x (y ∷ ys) = ap (λ t. f y ∷ t) (map-insert_at k x ys)

  pub map-remove_at : (k : ℕ) (xs : List A) → map f (remove_at k xs) ≡ remove_at k (map f xs)
  unfolding remove_at
  map-remove_at k [] = refl
  map-remove_at zero (x ∷ xs) = refl
  map-remove_at (suc k) (x ∷ xs) = ap (λ t. f x ∷ t) (map-remove_at k xs)

pub length-insert_at {ℓ} :
    {A : Type ℓ} (k : ℕ) (x : A) (xs : List A) → length (insert_at k x xs) ≡ suc (length xs)
unfolding insert_at
length-insert_at zero x xs = refl
length-insert_at (suc k) x [] = refl
length-insert_at (suc k) x (y ∷ ys) = ap suc (length-insert_at k x ys)

pub length-remove_at {ℓ} : {A : Type ℓ} (k : ℕ) (xs : List A) → length (remove_at k xs) ≤ length xs
unfolding remove_at
length-remove_at k [] = omega arith
length-remove_at zero (x ∷ xs) = omega arith
length-remove_at (suc k) (x ∷ xs) = omega (arith, length-remove_at k xs)

-- What is left when an MSTI is taken out.
Above-le : (x y : ℕ) (ys : List ℕ) → x ≤ y → Above y ys → Above x ys
Above-le x y [] l h = tt
Above-le x y (z ∷ zs) l h = (omega arith, h.1)

Above-remove_at : (k x : ℕ) (xs : List ℕ) → Above x xs → Above x (remove_at k xs)
unfolding remove_at
Above-remove_at k x [] h = tt
Above-remove_at zero x (y ∷ ys) h = Above-le x y ys (omega arith) h.1
Above-remove_at (suc k) x (y ∷ ys) h = (h.0, Above-remove_at k y ys h.1)

index_of-ge : (m i k : ℕ) (xs : List ℕ) → index_of m i xs ≡ some k → i ≤ k
unfolding index_of
index_of-ge m i k [] h = cc
index_of-ge m i k (x ∷ xs) h = elim (Bool-cases (x == m)) [
  | inl e ↦ ground (arith, rw e at h)
  | inr e ↦
      let g : index_of m (suc i) xs ≡ some k = rw e at h in
      omega (arith, index_of-ge m (suc i) k xs g)
]

index_of-shift :
    (m i k : ℕ) (xs : List ℕ) → index_of m (suc i) xs ≡ some (suc k) → index_of m i xs ≡ some k
unfolding index_of
index_of-shift m i k [] h = cc
index_of-shift m i k (x ∷ xs) h = elim (Bool-cases (x == m)) [
  | inl e ↦ rw e (ground (arith, rw e at h))
  | inr e ↦ rw e (index_of-shift m (suc i) k xs (rw e at h))
]

pub index_of-IsSorted :
    (m k : ℕ) (xs : List ℕ)
    → 1 ≤ m
    → IsSorted xs
    → index_of m 0 xs ≡ some k
    → IsSorted (remove_at k xs) × (1 ≤ k)
unfolding index_of remove_at
index_of-IsSorted m k [] l h e = absurd h
index_of-IsSorted m k (x ∷ xs) l h e =
    let other : (x == m) ≡ false = ground (arith, h.0, l) in
    let step : index_of m 1 xs ≡ some k =
      subst (λ b. (if b then some 0 else index_of m 1 xs) ≡ some k) other e in
    later k (index_of-ge m 1 k xs step)
  where
    later : (k : ℕ) → 1 ≤ k → IsSorted (remove_at k (x ∷ xs)) × (1 ≤ k)
    later zero g = absurd (omega arith)
    later (suc k) g = ((h.0, Above-remove_at k x xs h.1), g)

-- The other trees stay.
pub has_mstid-remove_at :
    (i m k : ℕ) (xs : List ℕ)
    → index_of m 0 xs ≡ some k
    → i ≢ m
    → has_mstid i xs ≡ true
    → has_mstid i (remove_at k xs) ≡ true
unfolding index_of remove_at
has_mstid-remove_at i m k [] e n h = cc
has_mstid-remove_at i m zero (x ∷ xs) e n h = elim (Bool-cases (x == m)) [
  | inl q ↦ ground (arith, h, q, n)
  | inr q ↦
      let g : index_of m 1 xs ≡ some 0 = rw q at e in absurd (omega (arith, index_of-ge m 1 0 xs g))
]
has_mstid-remove_at i m (suc k) (x ∷ xs) e n h = elim (Bool-cases (x == m)) [
  | inl q ↦ ground (arith, rw q at e)
  | inr q ↦ ground (arith, h, has_mstid-remove_at i m k xs (index_of-shift m 0 k xs (rw q at e)) n)
]

-- The list as a set.
pub has_mstid-insert :
    (i m k : ℕ) (xs : List ℕ) → has_mstid i (insert_at k m xs) ≡ (m == i || has_mstid i xs)
unfolding insert_at
has_mstid-insert i m zero xs = refl
has_mstid-insert i m (suc k) [] = refl
has_mstid-insert i m (suc k) (x ∷ xs) = ground (arith, has_mstid-insert i m k xs)

Above-absent : (m x : ℕ) (xs : List ℕ) → m ≤ x → Above x xs → has_mstid m xs ≡ false
Above-absent m x [] l h = refl
Above-absent m x (y ∷ ys) l h = ground (arith, Above-absent m y ys)

has_mstid-remove :
    (i m k x : ℕ) (xs : List ℕ)
    → Above x xs
    → index_of m 0 xs ≡ some k
    → has_mstid i (remove_at k xs) ≡ (not (m == i) && has_mstid i xs)
unfolding index_of remove_at
has_mstid-remove i m k x [] a e = cc
has_mstid-remove i m zero x (y ∷ ys) a e = elim (Bool-cases (y == m)) [
  | inl q ↦ ground (arith, q, Above-absent i y ys)
  | inr q ↦
      let g : index_of m 1 ys ≡ some 0 = rw q at e in absurd (omega (arith, index_of-ge m 1 0 ys g))
]
has_mstid-remove i m (suc k) x (y ∷ ys) a e = elim (Bool-cases (y == m)) [
  | inl q ↦ ground (arith, rw q at e)
  | inr q ↦ ground (arith, q, has_mstid-remove i m k y ys a.1 (index_of-shift m 0 k ys (rw q at e)))
]

pub IsSorted-remove :
    (i m k : ℕ) (xs : List ℕ)
    → 1 ≤ m
    → IsSorted xs
    → index_of m 0 xs ≡ some k
    → has_mstid i (remove_at k xs) ≡ (not (m == i) && has_mstid i xs)
unfolding index_of remove_at
IsSorted-remove i m k [] l h e = absurd h
IsSorted-remove i m zero (x ∷ xs) l h e =
    absurd (omega (arith, (index_of-IsSorted m 0 (x ∷ xs) l h e).1))
IsSorted-remove i m (suc k) (x ∷ xs) l h e =
    let other : (x == m) ≡ false = ground (arith, h.0, l) in
    let step : index_of m 1 xs ≡ some (suc k) =
      subst (λ b. (if b then some 0 else index_of m 1 xs) ≡ some (suc k)) other e in
    ground (arith, other, has_mstid-remove i m k x xs h.1 (index_of-shift m 0 k xs step))

pub index_of-absent : (m i : ℕ) (xs : List ℕ) → index_of m i xs ≡ none → has_mstid m xs ≡ false
unfolding index_of
index_of-absent m i [] e = refl
index_of-absent m i (x ∷ xs) e = elim (Bool-cases (x == m)) [
  | inl q ↦ cc (rw q at e)
  | inr q ↦ rw q (index_of-absent m (suc i) xs (rw q at e))
]

-- A sorted list has a tree before every MSTI that is not in it.
pub tree_after-some :
    (m : ℕ) (xs : List ℕ)
    → 1 ≤ m
    → IsSorted xs
    → has_mstid m xs ≡ false
    → tree_after m 0 none xs ≢ none
unfolding tree_after
tree_after-some m [] l h n e = absurd h
tree_after-some m (x ∷ xs) l h n e =
    let below : ltb x m ≡ true = ground (arith, h.0) in
    let step : tree_after m 1 (some 0) xs ≡ none =
      subst (λ b. tree_after m 1 (if b then some 0 else none) xs ≡ none) below e in
    let other : has_mstid m xs ≡ false = ground (arith, n) in
    cc (step, tree_after-lower m 0 x xs h.1 other)
