-- ===== src/Common/Lists.antt =====
-- Lists measured and indexed by native numbers, under the library's names.
use Prim.Native.Nat.add
use Prim.Native.Nat.{ℕ, zero, suc, ◌+◌, ◌-◌, ◌≤◌, ◌<◌, min}
use mathlib.Core.Path.{◌≡◌, refl, ap, sym, ◌∙◌}
use mathlib.Core.List.{List, [], ◌∷◌, ◌++◌}
use mathlib.Core.Option.{Option, none, some}
use native.Mathlib.Omega.{arith}

module _ {ℓ} {A : Type ℓ} where
  abbrev pub length : List A → ℕ
  length [] = 0
  length (_ ∷ xs) = suc (length xs)

  abbrev pub get_elem? : List A → ℕ → Option A
  get_elem? [] _ = none
  get_elem? (x ∷ _) zero = some x
  get_elem? (_ ∷ xs) (suc i) = get_elem? xs i

  abbrev pub take : ℕ → List A → List A
  take zero xs = []
  take (suc n) [] = []
  take (suc n) (x ∷ xs) = x ∷ take n xs

  abbrev pub drop : ℕ → List A → List A
  drop zero xs = xs
  drop (suc n) [] = []
  drop (suc n) (x ∷ xs) = drop n xs

  abbrev pub replicate : ℕ → A → List A
  replicate zero a = []
  replicate (suc n) a = a ∷ replicate n a

  pub length-append : (xs ys : List A) → length (xs ++ ys) ≡ length xs + length ys
  length-append [] ys = omega arith
  length-append (x ∷ xs) ys = omega (arith, length-append xs ys)

  pub length-take : (n : ℕ) (xs : List A) → length (take n xs) ≡ min n (length xs)
  length-take zero xs = omega arith
  length-take (suc n) [] = omega arith
  length-take (suc n) (x ∷ xs) = omega (arith, length-take n xs)

  pub length-drop : (n : ℕ) (xs : List A) → length (drop n xs) ≡ length xs - n
  length-drop zero xs = omega arith
  length-drop (suc n) [] = omega arith
  length-drop (suc n) (x ∷ xs) = omega (arith, length-drop n xs)

  pub length-replicate : (n : ℕ) (a : A) → length (replicate n a) ≡ n
  length-replicate zero a = refl
  length-replicate (suc n) a = ap suc (length-replicate n a)

  take_nil : (k : ℕ) → take k [] ≡ []
  take_nil zero = refl
  take_nil (suc k) = refl

  pub take_add : (k m : ℕ) (xs : List A) → take (k + m) xs ≡ take k xs ++ take m (drop k xs)
  take_add zero m xs = rw add.zero refl
  take_add (suc k) m [] = take_nil (suc k + m) ∙ sym (take_nil m)
  take_add (suc k) m (x ∷ xs) = rw add.suc (ap (x ∷◌) (take_add k m xs))

  pub drop_nil : (k : ℕ) → drop k [] ≡ []
  drop_nil zero = refl
  drop_nil (suc k) = refl

  pub drop_add : (k m : ℕ) (xs : List A) → drop (k + m) xs ≡ drop m (drop k xs)
  drop_add zero m xs = rw add.zero refl
  drop_add (suc k) m [] = drop_nil (suc k + m) ∙ sym (drop_nil m)
  drop_add (suc k) m (x ∷ xs) = rw add.suc (drop_add k m xs)

  pub take-append : (n : ℕ) (xs ys : List A) → n ≤ length xs → take n (xs ++ ys) ≡ take n xs
  take-append zero xs ys h = refl
  take-append (suc n) [] ys h = absurd (omega arith)
  take-append (suc n) (x ∷ xs) ys h = ap (x ∷◌) (take-append n xs ys (omega (arith, h)))

  pub drop-append : (n : ℕ) (xs ys : List A) → n ≤ length xs → drop n (xs ++ ys) ≡ drop n xs ++ ys
  drop-append zero xs ys h = refl
  drop-append (suc n) [] ys h = absurd (omega arith)
  drop-append (suc n) (x ∷ xs) ys h = drop-append n xs ys (omega (arith, h))

  pub take-append-drop : (n : ℕ) (xs : List A) → take n xs ++ drop n xs ≡ xs
  take-append-drop zero xs = refl
  take-append-drop (suc n) [] = refl
  take-append-drop (suc n) (x ∷ xs) = ap (x ∷◌) (take-append-drop n xs)

abbrev pub All {ℓ κ} : {A : Type ℓ} → (A → Type κ) → List A → Type κ
All P [] = Unit
All P (x ∷ xs) = P x × All P xs

pub All-append {ℓ κ} :
    {A : Type ℓ} (P : A → Type κ) (xs ys : List A) → All P xs → All P ys → All P (xs ++ ys)
All-append P [] ys h k = k
All-append P (x ∷ xs) ys h k = (h.0, All-append P xs ys h.1 k)

pub All-map {ℓ κ μ} :
    {A : Type ℓ} (P : A → Type κ) (Q : A → Type μ) (xs : List A)
    → ((a : A) → P a → Q a)
    → All P xs
    → All Q xs
All-map P Q [] f h = tt
All-map P Q (x ∷ xs) f h = (f x h.0, All-map P Q xs f h.1)

-- The list with another item at an index; an index out of range changes nothing.
module _ {ℓ} {A : Type ℓ} where
  abbrev pub put : ℕ → A → List A → List A
  put i a [] = []
  put zero a (x ∷ xs) = a ∷ xs
  put (suc i) a (x ∷ xs) = x ∷ put i a xs

  pub length-put : (i : ℕ) (a : A) (xs : List A) → length (put i a xs) ≡ length xs
  length-put i a [] = refl
  length-put zero a (x ∷ xs) = refl
  length-put (suc i) a (x ∷ xs) = ap suc (length-put i a xs)

  pub get_elem?-put :
      (i : ℕ) (a : A) {b : A} (xs : List A)
      → get_elem? xs i ≡ some b
      → get_elem? (put i a xs) i ≡ some a
  get_elem?-put i a [] h = absurd (cc)
  get_elem?-put zero a (x ∷ xs) h = refl
  get_elem?-put (suc i) a (x ∷ xs) h = get_elem?-put i a xs h

  pub get_elem?-put-other :
      (i j : ℕ) (a : A) (xs : List A) → (i ≡ j → ⊥) → get_elem? (put i a xs) j ≡ get_elem? xs j
  get_elem?-put-other i j a [] h = refl
  get_elem?-put-other zero zero a (x ∷ xs) h = absurd (h refl)
  get_elem?-put-other zero (suc j) a (x ∷ xs) h = refl
  get_elem?-put-other (suc i) zero a (x ∷ xs) h = refl
  get_elem?-put-other (suc i) (suc j) a (x ∷ xs) h =
      get_elem?-put-other i j a xs (λ e. h (ap suc e))

  pub put-put-other :
      (i j : ℕ) (a b : A) (xs : List A) → (i ≡ j → ⊥) → put i a (put j b xs) ≡ put j b (put i a xs)
  put-put-other i j a b [] h = refl
  put-put-other zero zero a b (x ∷ xs) h = absurd (h refl)
  put-put-other zero (suc j) a b (x ∷ xs) h = refl
  put-put-other (suc i) zero a b (x ∷ xs) h = refl
  put-put-other (suc i) (suc j) a b (x ∷ xs) h =
      ap (x ∷◌) (put-put-other i j a b xs (λ e. h (ap suc e)))

  pub get_elem?-some : (i : ℕ) (xs : List A) → i < length xs → (a : A) × (get_elem? xs i ≡ some a)
  get_elem?-some i [] h = absurd (omega arith)
  get_elem?-some zero (x ∷ xs) h = (x, refl)
  get_elem?-some (suc i) (x ∷ xs) h = get_elem?-some i xs (omega arith)

  pub get_elem?-lt : (i : ℕ) (xs : List A) (a : A) → get_elem? xs i ≡ some a → i < length xs
  get_elem?-lt i [] a h = absurd (cc)
  get_elem?-lt zero (x ∷ xs) a h = omega arith
  get_elem?-lt (suc i) (x ∷ xs) a h = omega (arith, get_elem?-lt i xs a h)
