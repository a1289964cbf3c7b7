-- ===== src/Station/Access.antt =====
-- mstp.h: on writes to the entries of a bridge, under a relation that they keep.
use mathlib.Core.Path.{subst}
use mathlib.Core.Option
use mstpd.Prelude.{ℕ, zero, suc, some, List, [], ◌∷◌, ◌≡◌, refl, sym, Option-cases, inl, inr}
use mstpd.Types.{Port, PerTreePort, PortNode}
use mstpd.Station.Grid.{Line, entries, with_entries, entry_at, set_entry, column, put_column}
use mstpd.Station.Keep.{All2, All2-refl, All2-set_at}
use mstpd.Station.Sound.{NodeBy}

module _ (R : PerTreePort → PerTreePort → Type 0) (R-refl : (p : PerTreePort) → R p p)
    (R-trans : (p q r : PerTreePort) → R p q → R q r → R p r) where
  pub NodeBy-refl : (n : PortNode) → NodeBy R n n
  NodeBy-refl n = record {
    alive = refl;
    cist = R-refl n.cist;
    mstis = All2-refl R R-refl R-trans n.mstis;
  }

  pub NodeBy-with_entries :
      (n : PortNode) (prt : Port) (es : List PerTreePort)
      → prt.deleted ≡ n.port.deleted
      → All2 R (entries n) es
      → NodeBy R n (with_entries es (record n { port = prt }))
  NodeBy-with_entries n prt [] a h = absurd h
  NodeBy-with_entries n prt (c ∷ ms) a h = record { alive = a; cist = h.0; mstis = h.1 }

  pub NodeBy-set_entry :
      (j : ℕ) (n : PortNode) (prt : Port) (p' : PerTreePort) {p : PerTreePort}
      → entry_at j n ≡ some p
      → R p p'
      → prt.deleted ≡ n.port.deleted
      → NodeBy R n (set_entry j p' (record n { port = prt }))
  NodeBy-set_entry zero n prt p' e r a = record {
    alive = a;
    cist = subst (λ q. R q p') (sym (Option.some-injective _ _ e)) r;
    mstis = All2-refl R R-refl R-trans n.mstis;
  }
  NodeBy-set_entry (suc j) n prt p' e r a = record {
    alive = a;
    cist = R-refl n.cist;
    mstis = All2-set_at R R-refl R-trans j n.mstis p' e r;
  }

  abbrev LineBy : Line → Line → Type 0
  LineBy l m = NodeBy R l.node m.node

  lines_refl : (ls : List Line) → All2 LineBy ls ls
  lines_refl [] = tt
  lines_refl (l ∷ ls) = (NodeBy-refl l.node, lines_refl ls)

  put_column-take :
      (j : ℕ) (l : Line) (ls : List Line) (p : PerTreePort) (ps : List PerTreePort)
      {q : PerTreePort}
      → entry_at j l.node ≡ some q
      → R q p
      → All2 LineBy ls (put_column j ps ls)
      → All2 LineBy (l ∷ ls) (put_column j (p ∷ ps) (l ∷ ls))
  unfolding put_column
  put_column-take j l ls p ps e r h =
      rw (e, put_column) (NodeBy-set_entry j l.node l.node.port p e r refl, h)

  pub put_column-All2 :
      (j : ℕ) (ls : List Line) (ps : List PerTreePort)
      → All2 R (column j ls) ps
      → All2 LineBy ls (put_column j ps ls)
  unfolding column put_column
  put_column-All2 j [] ps h = tt
  put_column-All2 j (l ∷ ls) [] h = lines_refl (l ∷ ls)
  put_column-All2 j (l ∷ ls) (p ∷ ps) h = elim (Option-cases (entry_at j l.node)) [
    | inl e ↦
        rw (e, put_column) (NodeBy-refl l.node, put_column-All2 j ls (p ∷ ps) (rw (e, column) at h))
    | inr (q, e) ↦
        let k : All2 R (q ∷ column j ls) (p ∷ ps) = rw (e, column) at h in
        put_column-take j l ls p ps e k.0 (put_column-All2 j ls ps k.1)
  ]
