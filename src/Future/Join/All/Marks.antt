-- ===== src/Future/Join/All/Marks.antt =====
-- A list of indices and the flags that it accounts for.
use completion.Common.{
  ℕ, zero, suc, ◌≡◌, ◌<◌, ◌≤◌, ◌++◌, refl, sym, ap, ◌∙◌, subst, Bool, true, false, some, List, [],
  ◌∷◌, length, get_elem?, put, get_elem?-put, get_elem?-put-other, put-put-other, arith, replicate,
}

-- The flags that are set are those of the indices in the list, and no index stands there twice.
abbrev pub Marks : List ℕ → List Bool → Type 0
Marks [] flags = (i : ℕ) → get_elem? flags i ≡ some true → ⊥
Marks (i ∷ is) flags = (get_elem? flags i ≡ some true) × Marks is (put i false flags)

abbrev raised : List Bool → ℕ
raised [] = 0
raised (true ∷ flags) = suc (raised flags)
raised (false ∷ flags) = raised flags

raised_le : (flags : List Bool) → raised flags ≤ length flags
raised_le [] = omega arith
raised_le (true ∷ flags) = omega (arith, raised_le flags)
raised_le (false ∷ flags) = omega (arith, raised_le flags)

raised_lt :
    (i : ℕ) (flags : List Bool) → get_elem? flags i ≡ some false → raised flags < length flags
raised_lt i [] h = absurd (cc)
raised_lt zero (true ∷ flags) h = absurd (cc)
raised_lt zero (false ∷ flags) h = omega (arith, raised_le flags)
raised_lt (suc i) (true ∷ flags) h = omega (arith, raised_lt i flags h)
raised_lt (suc i) (false ∷ flags) h = omega (arith, raised_lt i flags h)

raised-put :
    (i : ℕ) (flags : List Bool)
    → get_elem? flags i ≡ some true
    → raised flags ≡ suc (raised (put i false flags))
raised-put i [] h = absurd (cc)
raised-put zero (true ∷ flags) h = refl
raised-put zero (false ∷ flags) h = absurd (cc)
raised-put (suc i) (true ∷ flags) h = ap suc (raised-put i flags h)
raised-put (suc i) (false ∷ flags) h = raised-put i flags h

Marks-raised : (is : List ℕ) (flags : List Bool) → Marks is flags → length is ≤ raised flags
Marks-raised [] flags m = omega arith
Marks-raised (i ∷ is) flags m =
    omega (arith, raised-put i flags m.0, Marks-raised is (put i false flags) m.1)

-- There is room for one that is not set.
pub length-Marks :
    (is : List ℕ) (i : ℕ) (flags : List Bool)
    → Marks is flags
    → get_elem? flags i ≡ some false
    → length is < length flags
length-Marks is i flags m h = omega (arith, Marks-raised is flags m, raised_lt i flags h)

pub Marks-replicate : (n i : ℕ) → get_elem? (replicate n false) i ≡ some true → ⊥
Marks-replicate zero i h = absurd (cc)
Marks-replicate (suc n) zero h = absurd (cc)
Marks-replicate (suc n) (suc i) h = Marks-replicate n i h

-- A lowered flag, set and cleared.
put-put-false :
    (i : ℕ) (flags : List Bool)
    → get_elem? flags i ≡ some false
    → put i false (put i true flags) ≡ flags
put-put-false i [] h = refl
put-put-false zero (true ∷ flags) h = absurd (cc)
put-put-false zero (false ∷ flags) h = refl
put-put-false (suc i) (b ∷ flags) h = ap (b ∷◌) (put-put-false i flags h)

-- A woken future goes to the end of the queue.
pub Marks-push :
    (is : List ℕ) (i : ℕ) (flags : List Bool)
    → Marks is flags
    → get_elem? flags i ≡ some false
    → Marks (is ++ (i ∷ [])) (put i true flags)
Marks-push [] i flags m h = (
  get_elem?-put i true flags h,
  λ j e. m j (sym (ap (λ l. get_elem? l j) (put-put-false i flags h)) ∙ e),
)
Marks-push (j ∷ is) i flags m h = (
  get_elem?-put-other i j true flags other ∙ m.0,
  subst (Marks (is ++ (i ∷ []))) (put-put-other i j true false flags other) (
      Marks-push is i (put j false flags) m.1
        (get_elem?-put-other j i false flags (λ e. other (sym e)) ∙ h)),
)
  where
    other : i ≡ j → ⊥
    other e = absurd (cc)
