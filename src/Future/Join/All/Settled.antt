-- ===== src/Future/Join/All/Settled.antt =====
-- How many of the joined futures are not running any more.
use completion.Common.{
  ℕ, zero, suc, ◌+◌, ◌≡◌, ◌≤◌, ap, some, List, [], ◌∷◌, length, get_elem?, put, take, All, arith,
}
use completion.Future.Join.{FutureState}

module _ {F C : Type 0} where
  abbrev pub settled_one : FutureState F C → ℕ
  settled_one (FutureState.running f) = 0
  settled_one _ = 1

  abbrev pub settled : List (FutureState F C) → ℕ
  settled [] = 0
  settled (st ∷ sts) = settled_one st + settled sts

  settled_one_le : (st : FutureState F C) → settled_one st ≤ 1
  settled_one_le (FutureState.running f) = omega arith
  settled_one_le (FutureState.completed c) = omega arith
  settled_one_le FutureState.cancelled = omega arith
  settled_one_le FutureState.taken = omega arith

  pub settled_le : (sts : List (FutureState F C)) → settled sts ≤ length sts
  settled_le [] = omega arith
  settled_le (st ∷ sts) = omega (arith, settled_one_le st, settled_le sts)

  abbrev pub AllSettled : List (FutureState F C) → Type 0
  AllSettled sts = All (λ st. settled_one st ≡ 1) sts

  pub settled-AllSettled :
      (sts : List (FutureState F C)) → settled sts ≡ length sts → AllSettled sts
  settled-AllSettled [] h = tt
  settled-AllSettled (st ∷ sts) h = (
    omega (arith, settled_one_le st, settled_le sts),
    settled-AllSettled sts (omega (arith, settled_one_le st, settled_le sts)),
  )

  pub settled-put :
      (i : ℕ) (st u : FutureState F C) (sts : List (FutureState F C))
      → get_elem? sts i ≡ some st
      → settled (put i u sts) + settled_one st ≡ settled sts + settled_one u
  settled-put i st u [] h = absurd (cc)
  settled-put zero st u (x ∷ sts) h =
      let same : settled_one x ≡ settled_one st = ap settled_one (the_value h) in
      omega (arith, same)
    where
      the_value : some x ≡ some st → x ≡ st
      the_value e = cc
  settled-put (suc i) st u (x ∷ sts) h = omega (arith, settled-put i st u sts h)

  pub settled-take-put :
      (i : ℕ) (st u : FutureState F C) (sts : List (FutureState F C))
      → get_elem? sts i ≡ some st
      → settled (take (suc i) (put i u sts)) ≡ settled (take i sts) + settled_one u
  settled-take-put i st u [] h = absurd (cc)
  settled-take-put zero st u (x ∷ sts) h = omega arith
  settled-take-put (suc i) st u (x ∷ sts) h = omega (arith, settled-take-put i st u sts h)
