-- ===== src/Station/Columns.antt =====
-- mstp.h: on the entries of one tree, `ports` of `tree_t`, when the ports of the bridge change.
use mathlib.Core.Path.{subst}
use mstpd.Prelude.{
  ℕ, zero, suc, ◌+◌, ◌≡◌, ◌≢◌, Option, none, some, List, [], ◌∷◌, refl, sym, ◌∙◌, ap, Option-cases,
  inl, inr, bit,
}
use mstpd.Enums.{PortRole, same_role}
use mstpd.Types.{PerTreePort, PortNode}
use mstpd.Station.Grid.{cons_some, Line, entry_at, set_entry, column, put_column, set_at, get_at}
use mstpd.Station.Split.{put_column-nil}
use mstpd.Station.Keep.{All2, All2-weaken}
use mstpd.Station.Sound.{NodeBy, Tracks}

-- The number of entries whose selected role is Root.
abbrev pub roots : List PerTreePort → ℕ
roots [] = 0
roots (p ∷ ps) = bit (same_role PortRole.root p.selected_role) + roots ps

pub roots-Tracks : (ps qs : List PerTreePort) → All2 Tracks ps qs → roots qs ≡ roots ps
roots-Tracks [] [] h = refl
roots-Tracks [] (q ∷ qs) h = absurd h
roots-Tracks (p ∷ ps) [] h = absurd h
roots-Tracks (p ∷ ps) (q ∷ qs) h = rw (h.0.selects, roots-Tracks ps qs h.1) refl

module _ (R : PerTreePort → PerTreePort → Type 0) where
  -- Both lists have an element at the place, or none of them.
  pub data Both : Option PerTreePort → Option PerTreePort → Type 0 where
    neither : Both none none
    both : (p q : PerTreePort) → R p q → Both (some p) (some q)

  pub get_at-Both :
      (j : ℕ) (ps qs : List PerTreePort) → All2 R ps qs → Both (get_at j ps) (get_at j qs)
  unfolding get_at
  get_at-Both j [] [] h = neither
  get_at-Both j [] (q ∷ qs) h = absurd h
  get_at-Both j (p ∷ ps) [] h = absurd h
  get_at-Both zero (p ∷ ps) (q ∷ qs) h = both p q h.0
  get_at-Both (suc j) (p ∷ ps) (q ∷ qs) h = get_at-Both j ps qs h.1

  entry_at-Both : (j : ℕ) (n m : PortNode) → NodeBy R n m → Both (entry_at j n) (entry_at j m)
  entry_at-Both zero n m h = both n.cist m.cist h.cist
  entry_at-Both (suc j) n m h = get_at-Both j n.mstis m.mstis h.mstis

  cons_some-Both :
      {o o' : Option PerTreePort} (ps qs : List PerTreePort)
      → Both o o'
      → All2 R ps qs
      → All2 R (cons_some o ps) (cons_some o' qs)
  cons_some-Both ps qs neither h = h
  cons_some-Both ps qs (both p q r) h = (r, h)

  pub column-Both :
      (j : ℕ) (ls ms : List Line)
      → All2 (λ l m. Both (entry_at j l.node) (entry_at j m.node)) ls ms
      → All2 R (column j ls) (column j ms)
  unfolding column
  column-Both j [] [] h = tt
  column-Both j [] (m ∷ ms) h = absurd h
  column-Both j (l ∷ ls) [] h = absurd h
  column-Both j (l ∷ ls) (m ∷ ms) h = cons_some-Both _ _ h.0 (column-Both j ls ms h.1)

  pub column-All2 :
      (j : ℕ) (ls ms : List Line)
      → All2 (λ l m. NodeBy R l.node m.node) ls ms
      → All2 R (column j ls) (column j ms)
  column-All2 j ls ms h =
      column-Both j ls ms (All2-weaken _ _ (λ l m. entry_at-Both j l.node m.node) ls ms h)

module _ {ℓ} {A : Type ℓ} where
  get_at-set_at_same :
      (j : ℕ) (xs : List A) (y : A) {x : A}
      → get_at j xs ≡ some x
      → get_at j (set_at j y xs) ≡ some y
  unfolding get_at set_at
  get_at-set_at_same j [] y e = cc
  get_at-set_at_same zero (x ∷ xs) y e = refl
  get_at-set_at_same (suc j) (x ∷ xs) y e = get_at-set_at_same j xs y e

  get_at-set_at_other :
      (k j : ℕ) (xs : List A) (y : A) → k ≢ j → get_at k (set_at j y xs) ≡ get_at k xs
  unfolding get_at set_at
  get_at-set_at_other k j [] y n = refl
  get_at-set_at_other zero zero (x ∷ xs) y n = absurd (n refl)
  get_at-set_at_other zero (suc j) (x ∷ xs) y n = refl
  get_at-set_at_other (suc k) zero (x ∷ xs) y n = refl
  get_at-set_at_other (suc k) (suc j) (x ∷ xs) y n =
      get_at-set_at_other k j xs y (λ e. n (ap suc e))

entry_at-set_entry_same :
    (j : ℕ) (n : PortNode) (q : PerTreePort) {p : PerTreePort}
    → entry_at j n ≡ some p
    → entry_at j (set_entry j q n) ≡ some q
entry_at-set_entry_same zero n q e = refl
entry_at-set_entry_same (suc j) n q e = get_at-set_at_same j n.mstis q e

entry_at-set_entry_other :
    (k j : ℕ) (n : PortNode) (q : PerTreePort) → k ≢ j → entry_at k (set_entry j q n) ≡ entry_at k n
entry_at-set_entry_other zero zero n q h = absurd (h refl)
entry_at-set_entry_other zero (suc j) n q h = refl
entry_at-set_entry_other (suc k) zero n q h = refl
entry_at-set_entry_other (suc k) (suc j) n q h =
    get_at-set_at_other k j n.mstis q (λ e. h (ap suc e))

pub column-put_column_other :
    (k j : ℕ) (ps : List PerTreePort) (ls : List Line)
    → k ≢ j
    → column k (put_column j ps ls) ≡ column k ls
unfolding column put_column
column-put_column_other k j ps [] h = refl
column-put_column_other k j [] (l ∷ ls) h = refl
column-put_column_other k j (p ∷ ps) (l ∷ ls) h = elim (Option-cases (entry_at j l.node)) [
  | inl e ↦
      rw (e, put_column)
        (ap (cons_some (entry_at k l.node)) (column-put_column_other k j (p ∷ ps) ls h))
  | inr (q, e) ↦
      rw (e, put_column)
        (ap (λ o. cons_some o (column k (put_column j ps ls)))
            (entry_at-set_entry_other k j l.node p h)
          ∙ ap (cons_some (entry_at k l.node)) (column-put_column_other k j ps ls h))
]

module _ (R : PerTreePort → PerTreePort → Type 0) where
  pub column-put_column_same :
      (j : ℕ) (ps : List PerTreePort) (ls : List Line)
      → All2 R (column j ls) ps
      → column j (put_column j ps ls) ≡ ps
  unfolding column put_column
  column-put_column_same j [] [] h = refl
  column-put_column_same j (p ∷ ps) [] h = absurd h
  column-put_column_same j [] (l ∷ ls) h = elim (Option-cases (entry_at j l.node)) [
    | inl e ↦
        rw (e, column)
          ((ap (column j) (sym (put_column-nil j ls)))
            ∙ column-put_column_same j [] ls (rw (e, column) at h))
    | inr (q, e) ↦ absurd (subst (λ o. All2 R (cons_some o (column j ls)) []) e h)
  ]
  column-put_column_same j (p ∷ ps) (l ∷ ls) h = elim (Option-cases (entry_at j l.node)) [
    | inl e ↦ rw (e, put_column) (rw e (column-put_column_same j (p ∷ ps) ls (rw (e, column) at h)))
    | inr (q, e) ↦
        let k : All2 R (q ∷ column j ls) (p ∷ ps) = rw (e, column) at h in
        rw (e, put_column)
          (ap (λ o. cons_some o (column j (put_column j ps ls)))
              (entry_at-set_entry_same j l.node p e)
            ∙ ap (λ t. p ∷ t) (column-put_column_same j ps ls k.1))
  ]
