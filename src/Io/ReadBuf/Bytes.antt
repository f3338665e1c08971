-- ===== src/Io/ReadBuf/Bytes.antt =====
-- Writing into a slice at an index.
use Prim.Native.Nat.add
use completion.Common.{
  ◌⊎◌, ℕ, zero, suc, ◌+◌, ◌≤◌, ◌≡◌, refl, ap, Option, none, some, List, [], ◌∷◌, ◌++◌, map, length,
  take, drop, arith, All,
}

module _ {ℓ} {A : Type ℓ} where
  -- What does not fit is left out.
  abbrev pub write_at : List A → ℕ → List A → List A
  write_at [] i ys = []
  write_at (x ∷ xs) (suc i) ys = x ∷ write_at xs i ys
  write_at (x ∷ xs) zero [] = x ∷ xs
  write_at (x ∷ xs) zero (y ∷ ys) = y ∷ write_at xs zero ys

  pub length-write_at : (xs : List A) (i : ℕ) (ys : List A) → length (write_at xs i ys) ≡ length xs
  length-write_at [] i ys = refl
  length-write_at (x ∷ xs) (suc i) ys = ap suc (length-write_at xs i ys)
  length-write_at (x ∷ xs) zero [] = refl
  length-write_at (x ∷ xs) zero (y ∷ ys) = ap suc (length-write_at xs zero ys)

  -- The slice up to the end of what is written.
  pub take-write_at :
      (xs : List A) (i : ℕ) (ys : List A)
      → i + length ys ≤ length xs
      → take (i + length ys) (write_at xs i ys) ≡ take i xs ++ ys
  take-write_at [] zero [] h = refl
  take-write_at [] zero (y ∷ ys) h = absurd (omega arith)
  take-write_at [] (suc i) ys h = absurd (omega arith)
  take-write_at (x ∷ xs) zero [] h = refl
  take-write_at (x ∷ xs) zero (y ∷ ys) h = ground (arith, take-write_at xs zero ys (omega arith))
  take-write_at (x ∷ xs) (suc i) ys h = rw add.suc (ap (x ∷◌) (take-write_at xs i ys (omega arith)))

  -- The slice behind what is written stays.
  pub drop-write_at :
      (xs : List A) (i : ℕ) (ys : List A)
      → i + length ys ≤ length xs
      → drop (i + length ys) (write_at xs i ys) ≡ drop (i + length ys) xs
  drop-write_at [] i ys h = refl
  drop-write_at (x ∷ xs) zero [] h = refl
  drop-write_at (x ∷ xs) zero (y ∷ ys) h = ground (arith, drop-write_at xs zero ys (omega arith))
  drop-write_at (x ∷ xs) (suc i) ys h = rw add.suc (drop-write_at xs i ys (omega arith))

-- The first `n` bytes of the slice have been written.
abbrev pub IsWritten : Option ℕ → Type 0
IsWritten none = ⊥
IsWritten (some b) = Unit

abbrev pub Written : ℕ → List (Option ℕ) → Type 0
Written n xs = All IsWritten (take n xs)

pub All-map-some : (bs : List ℕ) → All IsWritten (map some bs)
All-map-some [] = tt
All-map-some (b ∷ bs) = (tt, All-map-some bs)

pub length-map-some : (bs : List ℕ) → length (map {B = Option ℕ} some bs) ≡ length bs
length-map-some [] = refl
length-map-some (b ∷ bs) = omega (arith, length-map-some bs)

pub Written-mono : (n m : ℕ) (xs : List (Option ℕ)) → n ≤ m → Written m xs → Written n xs
Written-mono zero m xs l h = tt
Written-mono (suc n) zero xs l h = absurd (omega arith)
Written-mono (suc n) (suc m) [] l h = tt
Written-mono (suc n) (suc m) (x ∷ xs) l h = (h.0, Written-mono n m xs (omega arith) h.1)

-- Written bytes stay written, and what is written behind them at once joins them.
pub Written-write_at :
    (xs : List (Option ℕ)) (m i n : ℕ) (ys : List (Option ℕ))
    → Written m xs
    → i ≤ m
    → All IsWritten ys
    → (n ≤ m) ⊎ (n ≤ i + length ys)
    → Written n (write_at xs i ys)
Written-write_at xs m i zero ys h l a c = tt
Written-write_at [] m i (suc n) ys h l a c = tt
Written-write_at (x ∷ xs) zero (suc i) (suc n) ys h l a c = absurd (omega arith)
Written-write_at (x ∷ xs) (suc m) (suc i) (suc n) ys h l a c =
    (h.0, Written-write_at xs m i n ys h.1 (omega arith) a (both c))
  where
    both : (suc n ≤ suc m) ⊎ (suc n ≤ suc i + length ys) → (n ≤ m) ⊎ (n ≤ i + length ys)
    both c = omega arith
Written-write_at (x ∷ xs) m zero (suc n) [] h l a c =
    Written-mono (suc n) m (x ∷ xs) (omega arith) h
Written-write_at (x ∷ xs) zero zero (suc n) (y ∷ ys) h l a c =
    (a.0, Written-write_at xs zero zero n ys tt (omega arith) a.1 (omega arith))
Written-write_at (x ∷ xs) (suc m) zero (suc n) (y ∷ ys) h l a c =
    (a.0, Written-write_at xs m zero n ys h.1 (omega arith) a.1 (omega arith))
