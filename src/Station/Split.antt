-- ===== src/Station/Split.antt =====
-- mstp.h: on the access to the list members of bridge_t: what is read and written back.
use mathlib.Core.Path.{subst}
use mstpd.Prelude.{
  ℕ, zero, suc, Option, none, some, List, [], ◌∷◌, map, arith, ◌≡◌, refl, ap, sym, ◌∙◌,
  Option-cases, inl, inr,
}
use mstpd.Types.{PerTreePort, PortNode}
use mstpd.Station.Grid.{
  Line, Place, rest, place, push, insert_at, set_at, get_at, entry_at, set_entry, column,
  put_column,
}
use mstpd.Station.Cells.{cist_member, put_cist_members, msti_members, member_entries}

module _ {ℓ} {A : Type ℓ} where
  pub set_at-get_at : (i : ℕ) (xs : List A) {x : A} → get_at i xs ≡ some x → set_at i x xs ≡ xs
  unfolding set_at get_at
  set_at-get_at i [] h = refl
  set_at-get_at zero (x ∷ xs) h = ground arith
  set_at-get_at (suc i) (x ∷ xs) h = ap (λ t. x ∷ t) (set_at-get_at i xs h)

  pub push-here :
      (x : A) (o : Option (Place A)) {q : Place A}
      → push x o ≡ some q
      → (p : Place A) × (o ≡ some p) × (q ≡ record p { before = x ∷ p.before })
  push-here x none h = cc
  push-here x (some p) h = (p, refl, ground arith)

  pub insert_at-place :
      (i : ℕ) (xs : List A) {q : Place A} → place i xs ≡ some q → insert_at i q.here (rest q) ≡ xs
  unfolding insert_at place
  insert_at-place i [] h = cc
  insert_at-place zero (x ∷ xs) h = ground arith
  insert_at-place (suc i) (x ∷ xs) h =
      let (p, e, f) = push-here x (place i xs) h in
      subst (λ (q : Place A). insert_at (suc i) q.here (rest q) ≡ x ∷ xs) (sym f)
        (ap (λ t. x ∷ t) (insert_at-place i xs e))

pub set_entry-entry_at :
    (j : ℕ) (n : PortNode) {p : PerTreePort} → entry_at j n ≡ some p → set_entry j p n ≡ n
set_entry-entry_at zero n h = ground arith
set_entry-entry_at (suc j) n h = ap (λ ms. record n { mstis = ms }) (set_at-get_at j n.mstis h)

pub put_column-nil : (j : ℕ) (ls : List Line) → put_column j [] ls ≡ ls
unfolding put_column
put_column-nil j [] = refl
put_column-nil j (l ∷ ls) = refl

put_column-skip :
    (j : ℕ) (ps : List PerTreePort) (l : Line) (ls : List Line)
    → entry_at j l.node ≡ none
    → put_column j ps (l ∷ ls) ≡ l ∷ put_column j ps ls
unfolding put_column
put_column-skip j [] l ls e = ap (λ t. l ∷ t) (sym (put_column-nil j ls))
put_column-skip j (p ∷ ps) l ls e = rw (e, put_column)

put_column-take :
    (j : ℕ) (p : PerTreePort) (ps : List PerTreePort) (l : Line) (ls : List Line)
    → entry_at j l.node ≡ some p
    → put_column j (p ∷ ps) (l ∷ ls) ≡ l ∷ put_column j ps ls
unfolding put_column
put_column-take j p ps l ls e =
    rw (e, put_column)
      (ap (λ n. record l { node = n } ∷ put_column j ps ls) (set_entry-entry_at j l.node e))

pub put_column-column : (j : ℕ) (ls : List Line) → put_column j (column j ls) ls ≡ ls
unfolding column
put_column-column j [] = put_column-nil j []
put_column-column j (l ∷ ls) = elim (Option-cases (entry_at j l.node)) [
  | inl e ↦
      rw (e, column)
        (put_column-skip j (column j ls) l ls e ∙ ap (λ t. l ∷ t) (put_column-column j ls))
  | inr (p, e) ↦
      rw (e, column)
        (put_column-take j p (column j ls) l ls e ∙ ap (λ t. l ∷ t) (put_column-column j ls))
]

pub put_cist_members-cist_member : (ls : List Line) → put_cist_members (map cist_member ls) ls ≡ ls
unfolding put_cist_members
put_cist_members-cist_member [] = refl
put_cist_members-cist_member (l ∷ ls) = ap (λ t. l ∷ t) (put_cist_members-cist_member ls)

pub member_entries-msti_members :
    (j : ℕ) (ls : List Line) → member_entries (msti_members j ls) ≡ column j ls
unfolding msti_members column
member_entries-msti_members j [] = refl
member_entries-msti_members j (l ∷ ls) = elim (Option-cases (entry_at j l.node)) [
  | inl e ↦ rw (e, msti_members, column) (member_entries-msti_members j ls)
  | inr (p, e) ↦ rw (e, msti_members, column) (ap (λ t. p ∷ t) (member_entries-msti_members j ls))
]
