-- ===== src/Stream/MaxMin/Order.antt =====
-- Which item `max_by` and `min_by` choose, for a comparison that is an order.
use Prim.Native.Nat.{Ordering}
use completion.Common.{
  ◌≡◌, refl, ap, subst, ◌∙◌, append-nil, Bool, true, false, not, Option, none, some, List, [], ◌∷◌,
  ◌++◌, append_assoc, arith, if◌then◌else◌, Bool-cases, inl, inr, All, All-append, All-map,
}
use completion.Poll.Machine.{Yields, Completes}
use completion.Poll.Loop.{run_items, loop-Completes}
use completion.Stream.{CompletionStream}
use completion.Stream.MaxMin.{is_less, best_at, max_item, min_item, take_best, max_by, min_by}

-- A strict weak order, as a test.
pub record IsOrder {ℓ} {A : Type ℓ} (less : A → A → Bool) : Type ℓ where
  pub asym : (a b : A) → less a b ≡ true → less b a ≡ false
  pub ge_trans : (a b c : A) → less a b ≡ false → less b c ≡ false → less a c ≡ false

module _ {ℓ} {A : Type ℓ} (less : A → A → Bool) where
  -- `m` is the last of the largest items of the list.
  abbrev pub IsLastMax : List A → A → Type ℓ
  IsLastMax xs m =
      (ys zs : List A) × (xs ≡ ys ++ (m ∷ zs))
      × All (λ y. less m y ≡ false) ys
      × All (λ z. less z m ≡ true) zs

  -- `m` is the first of the smallest items of the list.
  abbrev pub IsFirstMin : List A → A → Type ℓ
  IsFirstMin xs m =
      (ys zs : List A) × (xs ≡ ys ++ (m ∷ zs))
      × All (λ y. less m y ≡ true) ys
      × All (λ z. less z m ≡ false) zs

  -- The item chosen from a list, if it has one.
  abbrev pub LastMax : List A → Option A → Type ℓ
  LastMax xs none = xs ≡ []
  LastMax xs (some m) = IsLastMax xs m

  abbrev pub FirstMin : List A → Option A → Type ℓ
  FirstMin xs none = xs ≡ []
  FirstMin xs (some m) = IsFirstMin xs m

  max_of : A → List A → A
  max_of d [] = d
  max_of d (x ∷ xs) = max_of (if not (less x d) then x else d) xs

  min_of : A → List A → A
  min_of d [] = d
  min_of d (x ∷ xs) = min_of (if less x d then x else d) xs

module _ {ℓ} {A : Type ℓ} (less : A → A → Bool) (order : IsOrder less) where
  less_of_less_of_ge : (a b c : A) → less a b ≡ true → less c b ≡ false → less a c ≡ true
  less_of_less_of_ge a b c h k = elim (Bool-cases (less a c)) [
    | inl e ↦ e
    | inr e ↦ cc (order.ge_trans a c b e k)
  ]

  max-step :
      (seen : List A) (d x : A)
      → IsLastMax less seen d
      → IsLastMax less (seen ++ x ∷ []) (if not (less x d) then x else d)
  max-step seen d x (ys, zs, e, before, behind) = elim (Bool-cases (less x d)) [
    | inl l ↦ rw l (
      ys,
      zs ++ x ∷ [],
      ap (λ l. l ++ x ∷ []) e ∙ append_assoc ys (d ∷ zs) (x ∷ []),
      before,
      All-append (λ z. less z d ≡ true) zs (x ∷ []) behind (l, tt),
    )
    | inr l ↦ rw l (
      seen,
      [],
      refl,
      rw e (
          All-append (λ y. less x y ≡ false) ys (d ∷ zs)
            (All-map _ (λ y. less x y ≡ false) ys (λ y h. order.ge_trans x d y l h) before)
            (
              l,
              All-map _ (λ y. less x y ≡ false) zs
                  (λ z h. order.ge_trans x d z l (order.asym z d h)) behind,
            )),
      tt,
    )
  ]

  min-step :
      (seen : List A) (d x : A)
      → IsFirstMin less seen d
      → IsFirstMin less (seen ++ x ∷ []) (if less x d then x else d)
  min-step seen d x (ys, zs, e, before, behind) = elim (Bool-cases (less x d)) [
    | inr l ↦ rw l (
      ys,
      zs ++ x ∷ [],
      ap (λ l. l ++ x ∷ []) e ∙ append_assoc ys (d ∷ zs) (x ∷ []),
      before,
      All-append (λ z. less z d ≡ false) zs (x ∷ []) behind (l, tt),
    )
    | inl l ↦ rw l (
      seen,
      [],
      refl,
      rw e (
          All-append (λ y. less x y ≡ true) ys (d ∷ zs)
            (All-map _ (λ y. less x y ≡ true) ys
              (λ y h. less_of_less_of_ge x d y l (order.asym d y h)) before)
            (l, All-map _ (λ y. less x y ≡ true) zs (λ z h. less_of_less_of_ge x d z l h) behind)),
      tt,
    )
  ]

  max_of-IsLastMax :
      (seen : List A) (d : A) (xs : List A)
      → IsLastMax less seen d
      → IsLastMax less (seen ++ xs) (max_of less d xs)
  unfolding max_of
  max_of-IsLastMax seen d [] h = rw append-nil h
  max_of-IsLastMax seen d (x ∷ xs) h =
      subst (λ l. IsLastMax less l (max_of less d (x ∷ xs))) (append_assoc seen (x ∷ []) xs)
        (max_of-IsLastMax (seen ++ x ∷ []) (if not (less x d) then x else d) xs
          (max-step seen d x h))

  min_of-IsFirstMin :
      (seen : List A) (d : A) (xs : List A)
      → IsFirstMin less seen d
      → IsFirstMin less (seen ++ xs) (min_of less d xs)
  unfolding min_of
  min_of-IsFirstMin seen d [] h = rw append-nil h
  min_of-IsFirstMin seen d (x ∷ xs) h =
      subst (λ l. IsFirstMin less l (min_of less d (x ∷ xs))) (append_assoc seen (x ∷ []) xs)
        (min_of-IsFirstMin (seen ++ x ∷ []) (if less x d then x else d) xs (min-step seen d x h))

abbrev pub less {ℓ} : {A : Type ℓ} → (A → A → Ordering) → A → A → Bool
less cmp a b = is_less (cmp a b)

-- A comparison that keeps no state.
abbrev pub pure {ℓ} : {A F : Type ℓ} → (A → A → Ordering) → F → A → A → Ordering × F
pure cmp f a b = (cmp a b, f)

module _ {ℓ} {S A F : Type ℓ} (inner : CompletionStream S A) (cmp : A → A → Ordering) where
  run-max_item :
      (f : F) (d : A) (xs : List A)
      → ((run_items inner.poll_next
            (max_item inner (pure cmp))
            (take_best inner (pure cmp))
            (some d, f)
            xs).0
          ≡ some (max_of (less cmp) d xs))
        × ((run_items inner.poll_next
              (max_item inner (pure cmp))
              (take_best inner (pure cmp))
              (some d, f)
              xs).2
            ≡ none)
  unfolding max_item max_of run_items
  run-max_item f d [] = (refl, refl)
  run-max_item f d (x ∷ xs) = ground (arith, run-max_item f d xs, run-max_item f x xs)

  run-min_item :
      (f : F) (d : A) (xs : List A)
      → ((run_items inner.poll_next
            (min_item inner (pure cmp))
            (take_best inner (pure cmp))
            (some d, f)
            xs).0
          ≡ some (min_of (less cmp) d xs))
        × ((run_items inner.poll_next
              (min_item inner (pure cmp))
              (take_best inner (pure cmp))
              (some d, f)
              xs).2
            ≡ none)
  unfolding min_item min_of run_items
  run-min_item f d [] = (refl, refl)
  run-min_item f d (x ∷ xs) = ground (arith, run-min_item f d xs, run-min_item f x xs)

  chosen-LastMax :
      IsOrder (less cmp)
      → (f : F) (xs : List A)
      → LastMax
          (less cmp)
          xs
          (run_items inner.poll_next
            (max_item inner (pure cmp))
            (take_best inner (pure cmp))
            (none, f)
            xs).0
  unfolding max_item run_items
  chosen-LastMax order f [] = refl
  chosen-LastMax order f (x ∷ xs) =
      rw (run-max_item f x xs).0
        (max_of-IsLastMax (less cmp) order (x ∷ []) x xs ([], [], refl, tt, tt))

  -- `max_by` completes with the last of the largest items, if the comparison is an order.
  pub max_by-Completes :
      {s : S} {xs : List A} (f : F)
      → IsOrder (less cmp)
      → Yields inner.poll_next s xs
      → (r : Option A) × (v : S) × (z : Option A × F) × Completes
          (max_by inner (pure cmp)).poll
          (best_at inner (pure cmp) (s, (none, f)))
          r
          (best_at inner (pure cmp) (v, z))
        × LastMax (less cmp) xs r
  unfolding max_by
  max_by-Completes {xs = xs} f order y =
      let (v, z, c, _) =
        loop-Completes inner.poll_next (max_item inner (pure cmp)) _ (best_at inner (pure cmp))
          (max_by inner (pure cmp)).poll (λ n z. refl) (none, f) y refl refl in
      (_, v, z, c, chosen-LastMax order f xs)

  chosen-FirstMin :
      IsOrder (less cmp)
      → (f : F) (xs : List A)
      → FirstMin
          (less cmp)
          xs
          (run_items inner.poll_next
            (min_item inner (pure cmp))
            (take_best inner (pure cmp))
            (none, f)
            xs).0
  unfolding min_item run_items
  chosen-FirstMin order f [] = refl
  chosen-FirstMin order f (x ∷ xs) =
      rw (run-min_item f x xs).0
        (min_of-IsFirstMin (less cmp) order (x ∷ []) x xs ([], [], refl, tt, tt))

  -- `min_by` completes with the first of the smallest items, if the comparison is an order.
  pub min_by-Completes :
      {s : S} {xs : List A} (f : F)
      → IsOrder (less cmp)
      → Yields inner.poll_next s xs
      → (r : Option A) × (v : S) × (z : Option A × F) × Completes
          (min_by inner (pure cmp)).poll
          (best_at inner (pure cmp) (s, (none, f)))
          r
          (best_at inner (pure cmp) (v, z))
        × FirstMin (less cmp) xs r
  unfolding min_by
  min_by-Completes {xs = xs} f order y =
      let (v, z, c, _) =
        loop-Completes inner.poll_next (min_item inner (pure cmp)) _ (best_at inner (pure cmp))
          (min_by inner (pure cmp)).poll (λ n z. refl) (none, f) y refl refl in
      (_, v, z, c, chosen-FirstMin order f xs)

  -- If the stream gives a list and the comparison is an order, `max_by` completes with the last
  -- of the largest items and `min_by` with the first of the smallest, and with nothing exactly
  -- for no items.
  pub max_min_lem :
      {s : S} {xs : List A} (f : F)
      → IsOrder (less cmp)
      → Yields inner.poll_next s xs
      → ((r : Option A) × (v : S) × (z : Option A × F) × Completes
            (max_by inner (pure cmp)).poll
            (best_at inner (pure cmp) (s, (none, f)))
            r
            (best_at inner (pure cmp) (v, z))
          × LastMax (less cmp) xs r)
        × ((r : Option A) × (v : S) × (z : Option A × F) × Completes
              (min_by inner (pure cmp)).poll
              (best_at inner (pure cmp) (s, (none, f)))
              r
              (best_at inner (pure cmp) (v, z))
            × FirstMin (less cmp) xs r)
  max_min_lem f order y = (max_by-Completes f order y, min_by-Completes f order y)
