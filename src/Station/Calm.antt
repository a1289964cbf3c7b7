-- ===== src/Station/Calm.antt =====
-- mstp.c, __br_state_machines_run: bridges whose machines all come to rest, and the loops over them.
use mathlib.Core.Path.{subst}
use mstpd.Prelude.{
  ℕ, zero, suc, ◌+◌, ◌*◌, ◌^◌, ◌≤◌, ◌<◌, ◌≡◌, ◌≢◌, false, Option, some, List, [], ◌∷◌, refl, sym,
  ◌∙◌, All, traverse, for_from, ◌>>=◌,
}
use mstpd.Types.{Bridge, Tree, PerTreePort}
use mstpd.Station.Grid.{Line, Station}
use mstpd.Station.Pass.{each_line}
use mstpd.Station.Keep.{All2}
use mstpd.Station.Sound.{IsEasy, Tracks}
use mstpd.Station.Carry.{TracksLine}

-- A computation that returns a value with a property.
abbrev pub Gives {ℓ} : {A : Type ℓ} → Option A → (A → Type 0) → Type ℓ
Gives {A} o P = (a : A) × (o ≡ some a) × P a

pub Gives-bind {ℓ κ} :
    {A : Type ℓ} {B : Type κ} (P : A → Type 0) (Q : B → Type 0) (m : Option A) (f : A → Option B)
    → Gives m P
    → ((a : A) → P a → Gives (f a) Q)
    → Gives (m >>= f) Q
Gives-bind P Q m f (a, e, p) h =
    let (b, g, q) = h a p in (b, subst (λ o. (o >>= f) ≡ some b) (sym e) g, q)

pub Gives-for {ℓ} :
    {S : Type ℓ} (P : S → Type 0) (f : ℕ → S → Option S)
    → ((i : ℕ) (s : S) → P s → Gives (f i s) P)
    → (i n : ℕ) (s : S) → P s
    → Gives (for_from i n f s) P
Gives-for P f h i zero s p = (s, refl, p)
Gives-for P f h i (suc n) s p =
    Gives-bind P P (f i s) (for_from (suc i) n f) (h i s p) (λ t q. Gives-for P f h (suc i) n t q)

Gives-traverse {ℓ} :
    {A : Type ℓ} (P : A → Type 0) (f : A → Option A)
    → ((x : A) → P x → Gives (f x) P)
    → (xs : List A) → All P xs
    → Gives (traverse f xs) (All P)
Gives-traverse P f h [] a = ([], refl, tt)
Gives-traverse P f h (x ∷ xs) a =
    let (y, e, p) = h x a.0 in
    let (ys, g, q) = Gives-traverse P f h xs a.1 in
    (
      y ∷ ys,
      subst (λ o. (o >>= λ y. traverse f xs >>= λ zs. some (y ∷ zs)) ≡ some (y ∷ ys)) (sym e)
          (subst (λ o. (o >>= λ zs. some (y ∷ zs)) ≡ some (y ∷ ys)) (sym g) refl),
      (p, q),
    )

-- A port without MSTIs, with an easy entry in the CIST, which has sent no more than it may.
pub record IsCalmLine (br : Bridge) (l : Line) : Type 0 where
  pub alive : l.node.port.deleted ≡ false
  pub alone : l.node.mstis ≡ []
  pub easy : IsEasy l.node.cist
  pub counted : l.node.port.tx_count ≤ br.transmit_hold_count

-- The CIST and no other tree.
abbrev pub OnlyCist : List Tree → Type 0
OnlyCist [] = ⊥
OnlyCist (t ∷ []) = t.mstid ≡ 0
OnlyCist (t ∷ u ∷ ts) = ⊥

-- A bridge without MSTIs on which every machine comes to rest within the fuel.
pub record IsCalm (fuel : ℕ) (s : Station) : Type 0 where
  pub migrate : s.bridge.migrate_time ≢ 0
  pub bounded : s.bridge.transmit_hold_count < 2 ^ 32
  pub fuelled : 2 * s.bridge.transmit_hold_count + 2 < fuel
  pub enough : 64 < fuel
  pub trees : OnlyCist s.trees
  pub lines : All (IsCalmLine s.bridge) s.lines

-- What a machine does to a port, where it keeps the count.
pub tracks_calm :
    (br : Bridge) (l m : Line)
    → IsCalmLine br l
    → TracksLine l m
    → m.node.port.tx_count ≤ br.transmit_hold_count
    → IsCalmLine br m
tracks_calm br l m h k c =
    let t = k h.alive in
    record {
      alive = t.alive ∙ h.alive;
      alone = empty l.node.mstis m.node.mstis h.alone t.mstis;
      easy = t.cist.easy h.easy;
      counted = c;
    }
  where
    empty : (ps qs : List PerTreePort) → ps ≡ [] → All2 Tracks ps qs → qs ≡ []
    empty [] [] e a = refl
    empty [] (q ∷ qs) e a = absurd a
    empty (p ∷ ps) qs e a = cc

-- A loop over the ports.
pub each_line-IsCalm :
    (fuel : ℕ) (f : Line → Option Line) (s : Station)
    → IsCalm fuel s
    → ((l : Line) → IsCalmLine s.bridge l → Gives (f l) (IsCalmLine s.bridge))
    → Gives (each_line f s) (IsCalm fuel)
each_line-IsCalm fuel f s h k =
    let (ls, e, a) = Gives-traverse (IsCalmLine s.bridge) f k s.lines h.lines in
    (
      record s { lines = ls },
      rw (e, each_line) refl,
      record {
        migrate = h.migrate;
        bounded = h.bounded;
        fuelled = h.fuelled;
        enough = h.enough;
        trees = h.trees;
        lines = a;
      },
    )
