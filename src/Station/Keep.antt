-- ===== src/Station/Keep.antt =====
-- On relations between two lists, place by place, through the loops and the access of a bridge.
use mathlib.Core.Path.{subst}
use mathlib.Core.Option
use mstpd.Prelude.{
  All, ℕ, zero, suc, Option, some, List, [], ◌∷◌, map, ◌≡◌, sym, traverse, for_from, ◌>>=◌,
  >>=-eq-some,
}
use mstpd.Station.Grid.{Place, rest, place, insert_at, set_at, get_at}
use mstpd.Station.Split.{push-here}

abbrev pub All2 {ℓ} : {A : Type ℓ} → (A → A → Type 0) → List A → List A → Type 0
All2 R [] [] = Unit
All2 R [] (y ∷ ys) = ⊥
All2 R (x ∷ xs) [] = ⊥
All2 R (x ∷ xs) (y ∷ ys) = R x y × All2 R xs ys

-- A loop whose every round keeps a reflexive and transitive relation.
module _ {ℓ} {S : Type ℓ} (R : S → S → Type 0) (R-refl : (s : S) → R s s)
    (R-trans : (s t u : S) → R s t → R t u → R s u) where
  pub for_from_keeps :
      (f : ℕ → S → Option S)
      → ((i : ℕ) (s t : S) → f i s ≡ some t → R s t)
      → (i n : ℕ) (s t : S) → for_from i n f s ≡ some t
      → R s t
  for_from_keeps f k i zero s t h = subst (λ x. R s x) (Option.some-injective _ _ h) (R-refl s)
  for_from_keeps f k i (suc n) s t h =
      let (u, e, g) = >>=-eq-some (f i s) (for_from (suc i) n f) h in
      R-trans s u t (k i s u e) (for_from_keeps f k (suc i) n u t g)

  pub then_keeps :
      (m : Option S) (f : S → Option S) (s : S)
      → ((t : S) → m ≡ some t → R s t)
      → ((t u : S) → f t ≡ some u → R t u)
      → (u : S) → (m >>= f) ≡ some u
      → R s u
  then_keeps m f s h k u e = let (t, a, b) = >>=-eq-some m f e in R-trans s t u (h t a) (k t u b)

  pub All2-refl : (xs : List S) → All2 R xs xs
  All2-refl [] = tt
  All2-refl (x ∷ xs) = (R-refl x, All2-refl xs)

  pub All2-trans : (xs ys zs : List S) → All2 R xs ys → All2 R ys zs → All2 R xs zs
  All2-trans [] [] [] h k = tt
  All2-trans [] [] (z ∷ zs) h k = absurd k
  All2-trans [] (y ∷ ys) zs h k = absurd h
  All2-trans (x ∷ xs) [] zs h k = absurd h
  All2-trans (x ∷ xs) (y ∷ ys) [] h k = absurd k
  All2-trans (x ∷ xs) (y ∷ ys) (z ∷ zs) h k = (R-trans x y z h.0 k.0, All2-trans xs ys zs h.1 k.1)

  pub All2-set_at :
      (j : ℕ) (xs : List S) (y : S) {x : S}
      → get_at j xs ≡ some x
      → R x y
      → All2 R xs (set_at j y xs)
  unfolding get_at set_at
  All2-set_at j [] y e r = tt
  All2-set_at zero (x ∷ xs) y e r =
      (subst (λ z. R z y) (sym (Option.some-injective _ _ e)) r, All2-refl xs)
  All2-set_at (suc j) (x ∷ xs) y e r = (R-refl x, All2-set_at j xs y e r)

  pub All2-insert_at :
      (i : ℕ) (xs : List S) (y : S) (zs : List S) {q : Place S}
      → place i xs ≡ some q
      → R q.here y
      → All2 R (rest q) zs
      → All2 R xs (insert_at i y zs)
  unfolding place insert_at
  All2-insert_at i [] y zs e r h = cc
  All2-insert_at zero (x ∷ xs) y zs e r h =
      let f = Option.some-injective _ _ e in
      (
        subst (λ (p : Place S). R p.here y) (sym f) r,
        subst (λ (p : Place S). All2 R (rest p) zs) (sym f) h,
      )
  All2-insert_at (suc i) (x ∷ xs) y [] e r h =
      let (p, a, b) = push-here x (place i xs) e in
      absurd (subst (λ (p : Place S). All2 R (rest p) []) b h)
  All2-insert_at (suc i) (x ∷ xs) y (z ∷ zs) {q} e r h =
      let (p, a, b) = push-here x (place i xs) e in
      let k = subst (λ (p : Place S). All2 R (rest p) (z ∷ zs)) b h in
      (k.0, All2-insert_at i xs y zs a (subst (λ (p : Place S). R p.here y) b r) k.1)

module _ {ℓ} {A : Type ℓ} (R : A → A → Type 0) where
  pub traverse_keeps :
      (f : A → Option A)
      → ((x y : A) → f x ≡ some y → R x y)
      → (xs ys : List A) → traverse f xs ≡ some ys
      → All2 R xs ys
  traverse_keeps f k [] ys e = subst (λ zs. All2 R [] zs) (Option.some-injective _ _ e) tt
  traverse_keeps f k (x ∷ xs) ys e =
      let (y, a, e1) = >>=-eq-some (f x) (λ y. traverse f xs >>= λ zs. some (y ∷ zs)) e in
      let (zs, b, e2) = >>=-eq-some (traverse f xs) (λ zs. some (y ∷ zs)) e1 in
      subst (λ t. All2 R (x ∷ xs) t) (Option.some-injective _ _ e2)
        (k x y a, traverse_keeps f k xs zs b)

  pub All2-map : (f : A → A) → ((x : A) → R x (f x)) → (xs : List A) → All2 R xs (map f xs)
  All2-map f h [] = tt
  All2-map f h (x ∷ xs) = (h x, All2-map f h xs)

pub All2-weaken {ℓ} :
    {A : Type ℓ} (R S : A → A → Type 0)
    → ((x y : A) → R x y → S x y)
    → (xs ys : List A) → All2 R xs ys
    → All2 S xs ys
All2-weaken R S k [] [] h = tt
All2-weaken R S k [] (y ∷ ys) h = h
All2-weaken R S k (x ∷ xs) [] h = h
All2-weaken R S k (x ∷ xs) (y ∷ ys) h = (k x y h.0, All2-weaken R S k xs ys h.1)

pub All-All2 {ℓ} :
    {A : Type ℓ} (P : A → Type 0) (R : A → A → Type 0)
    → ((x y : A) → P x → R x y → P y)
    → (xs ys : List A) → All P xs
    → All2 R xs ys
    → All P ys
All-All2 P R k [] [] p h = tt
All-All2 P R k [] (y ∷ ys) p h = absurd h
All-All2 P R k (x ∷ xs) [] p h = tt
All-All2 P R k (x ∷ xs) (y ∷ ys) p h = (k x y p.0 h.0, All-All2 P R k xs ys p.1 h.1)
