-- ===== src/Station/Grid.antt =====
-- mstp.h: bridge_t, with its lists of ports and trees, and the access to the per-tree ports.
--
-- In the C code a `per_tree_port_t` is a member of two lists, its port's and its tree's. Here each
-- port has the list of its entries, in the order of the trees, and the entries of a tree are a column.
use mstpd.Prelude.{ℕ, zero, suc, Option, none, some, List, [], ◌∷◌, ◌++◌}
use mstpd.Types.{Bridge, Tree, PerTreePort, PortNode, Output}

-- A port with its entries, and the calls of the driver for it so far, in order.
pub record Line : Type 0 where
  pub node : PortNode
  pub out : List Output

-- The first of `trees` is the CIST.
pub record Station : Type 0 where
  pub bridge : Bridge
  pub trees : List Tree
  pub lines : List Line

-- A place in a list: what is before it, there, and after it.
pub record Place {ℓ} (A : Type ℓ) : Type ℓ where
  pub before : List A
  pub here : A
  pub after : List A

abbrev pub rest {ℓ} : {A : Type ℓ} → Place A → List A
rest s = s.before ++ s.after

abbrev pub push {ℓ} : {A : Type ℓ} → A → Option (Place A) → Option (Place A)
push x none = none
push x (some s) = some (record s { before = x ∷ s.before })

-- The place with the given index.
unfoldable pub place {ℓ} : {A : Type ℓ} → ℕ → List A → Option (Place A)
place i [] = none
place zero (x ∷ xs) = some (record { before = []; here = x; after = xs })
place (suc i) (x ∷ xs) = push x (place i xs)

-- Puts an element back between the first `k` of a list and the others.
unfoldable pub insert_at {ℓ} : {A : Type ℓ} → ℕ → A → List A → List A
insert_at zero x ys = x ∷ ys
insert_at (suc k) x [] = x ∷ []
insert_at (suc k) x (y ∷ ys) = y ∷ insert_at k x ys

-- Replaces the element with the given index.
unfoldable pub set_at {ℓ} : {A : Type ℓ} → ℕ → A → List A → List A
set_at i y [] = []
set_at zero y (x ∷ xs) = y ∷ xs
set_at (suc i) y (x ∷ xs) = x ∷ set_at i y xs

unfoldable pub get_at {ℓ} : {A : Type ℓ} → ℕ → List A → Option A
get_at i [] = none
get_at zero (x ∷ xs) = some x
get_at (suc i) (x ∷ xs) = get_at i xs

-- The entries of a port: `trees` of `port_t`.
abbrev pub entries : PortNode → List PerTreePort
entries n = n.cist ∷ n.mstis

abbrev pub with_entries : List PerTreePort → PortNode → PortNode
with_entries [] n = n
with_entries (c ∷ ms) n = record n { cist = c; mstis = ms }

abbrev pub entry_at : ℕ → PortNode → Option PerTreePort
entry_at zero n = some n.cist
entry_at (suc j) n = get_at j n.mstis

abbrev pub set_entry : ℕ → PerTreePort → PortNode → PortNode
set_entry zero p n = record n { cist = p }
set_entry (suc j) p n = record n { mstis = set_at j p n.mstis }

abbrev pub cons_some {ℓ} : {A : Type ℓ} → Option A → List A → List A
cons_some none xs = xs
cons_some (some x) xs = x ∷ xs

-- The entries of the tree with the given index: `ports` of `tree_t`.
unfoldable pub column : ℕ → List Line → List PerTreePort
column j [] = []
column j (l ∷ ls) = cons_some (entry_at j l.node) (column j ls)

abbrev pub line_with_entry : ℕ → PerTreePort → Line → Line
line_with_entry j p l = record l { node = set_entry j p l.node }

-- Writes the entries of a tree back.
unfoldable pub put_column : ℕ → List PerTreePort → List Line → List Line
put_column j ps [] = []
put_column j [] ls = ls
put_column j (p ∷ ps) (l ∷ ls) = elim (entry_at j l.node) [
  | none ↦ l ∷ put_column j (p ∷ ps) ls
  | some _ ↦ line_with_entry j p l ∷ put_column j ps ls
]
