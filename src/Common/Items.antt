-- ===== src/Common/Items.antt =====
-- Lists whose items have a property that depends on their index, and lists related item by item.
use Prim.Native.Nat.{ℕ, zero, suc}
use mathlib.Core.Path.{◌≡◌, subst}
use mathlib.Core.List.{List, [], ◌∷◌}
use mathlib.Core.Option.{some}
use native.Mathlib.Omega.{arith}
use completion.Common.Lists.{length, get_elem?, put, All}

-- A predicate of each item and its index.
abbrev pub Each {ℓ κ} : {A : Type ℓ} → (ℕ → A → Type κ) → List A → Type κ
Each P [] = Unit
Each P (x ∷ xs) = P 0 x × Each (λ i. P (suc i)) xs

pub Each-map {ℓ κ μ} :
    {A : Type ℓ} (P : ℕ → A → Type κ) (Q : ℕ → A → Type μ) (xs : List A)
    → ((i : ℕ) (a : A) → P i a → Q i a)
    → Each P xs
    → Each Q xs
Each-map P Q [] f h = tt
Each-map P Q (x ∷ xs) f h =
    (f 0 x h.0, Each-map (λ i. P (suc i)) (λ i. Q (suc i)) xs (λ i. f (suc i)) h.1)

pub Each-All {ℓ κ μ} :
    {A : Type ℓ} (P : ℕ → A → Type κ) (Q : A → Type μ) (xs : List A)
    → ((i : ℕ) (a : A) → P i a → Q a)
    → Each P xs
    → All Q xs
Each-All P Q [] f h = tt
Each-All P Q (x ∷ xs) f h = (f 0 x h.0, Each-All (λ i. P (suc i)) Q xs (λ i. f (suc i)) h.1)

pub Each-put {ℓ κ} :
    {A : Type ℓ} (P : ℕ → A → Type κ) (i : ℕ) (a : A) (xs : List A)
    → Each P xs
    → P i a
    → Each P (put i a xs)
Each-put P i a [] h k = tt
Each-put P zero a (x ∷ xs) h k = (k, h.1)
Each-put P (suc i) a (x ∷ xs) h k = (h.0, Each-put (λ i. P (suc i)) i a xs h.1 k)

pub Each-get_elem? {ℓ κ} :
    {A : Type ℓ} (P : ℕ → A → Type κ) (i : ℕ) (a : A) (xs : List A)
    → Each P xs
    → get_elem? xs i ≡ some a
    → P i a
Each-get_elem? P i a [] h e = absurd (cc)
Each-get_elem? P zero a (x ∷ xs) h e = subst (P 0) (the_value e) h.0
  where
    the_value : some x ≡ some a → x ≡ a
    the_value e = cc
Each-get_elem? P (suc i) a (x ∷ xs) h e = Each-get_elem? (λ i. P (suc i)) i a xs h.1 e

-- Two lists of the same length, whose items at each index are related.
abbrev pub Matches {ℓ κ} :
    {A : Type ℓ} {B : Type κ} → (ℕ → A → B → Type 0) → List A → List B → Type 0
Matches R [] [] = Unit
Matches R [] (y ∷ ys) = ⊥
Matches R (x ∷ xs) [] = ⊥
Matches R (x ∷ xs) (y ∷ ys) = R 0 x y × Matches (λ i. R (suc i)) xs ys

-- Each item is related to that of another list at its index.
pub Each-Matches {ℓ κ} :
    {A : Type ℓ} {B : Type κ} (R : ℕ → A → B → Type 0) (Q : B → Type 0) (xs : List A) (ys : List B)
    → length ys ≡ length xs
    → Each (λ i y. (x : A) × ((get_elem? xs i ≡ some x) × R i x y)) ys
    → All Q ys
    → Matches (λ i x y. Q y × R i x y) xs ys
Each-Matches R Q [] [] l h k = tt
Each-Matches R Q [] (y ∷ ys) l h k = absurd (omega (arith, l))
Each-Matches R Q (x ∷ xs) [] l h k = absurd (omega (arith, l))
Each-Matches R Q (x ∷ xs) (y ∷ ys) l ((a, (e, r)), h) k = (
  (k.0, subst (λ x. R 0 x y) (the_value e) r),
  Each-Matches (λ i. R (suc i)) Q xs ys (omega (arith, l)) h k.1,
)
  where
    the_value : some x ≡ some a → a ≡ x
    the_value e = cc
