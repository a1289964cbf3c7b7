-- ===== src/Rule.antt =====
-- The branches of a state machine's switch as rules: a condition, and the state that it leads to.
-- `first` is the choice that a chain of `if(condition) { ...; return; }` makes.
use mathlib.Core.Path.{subst}
use mathlib.Core.Option
use mstpd.Prelude.{
  ◌≡◌, refl, Bool, true, false, Option, none, some, List, [], ◌∷◌, All, arith, if◌then◌else◌,
}

-- The state of the first rule whose condition holds.
abbrev pub first : {S : Type 0} → List (Bool × S) → Option S
first [] = none
first ((g, t) ∷ rs) = let rest = first rs in if g then some t else rest

-- What holds of each rule's state when its condition holds, holds of the state that is chosen.
pub first-All :
    {S : Type 0} (P : S → Type 0) (rs : List (Bool × S)) {t : S}
    → All (λ r. r.0 ≡ true → P r.1) rs
    → first rs ≡ some t
    → P t
first-All P [] h e = absurd (ground arith)
first-All P ((true, s) ∷ rs) {t = t} h e = subst P (Option.some-injective s t e) (h.0 refl)
first-All P ((false, s) ∷ rs) h e = first-All P rs h.1 e

-- If no rule is chosen, no condition holds.
pub first-none : {S : Type 0} (rs : List (Bool × S)) → first rs ≡ none → All (λ r. r.0 ≡ false) rs
first-none [] e = tt
first-none ((true, t) ∷ rs) e = cc
first-none ((false, t) ∷ rs) e = (refl, first-none rs e)
