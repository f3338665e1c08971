-- ===== src/Stream/Collect.antt =====
-- src/stream/futures/collect.rs, and the trait of src/stream/from_completion_stream.rs with its
-- implementations for `()`, `Option`, `Result` and `Vec`.
use completion.Common.{
  ℕ, suc, zero, ◌+◌, ◌≡◌, ◌⊎◌, inl, inr, refl, ap, subst, ◌∙◌, Option, none, some, List, [], ◌∷◌,
  ◌++◌, append_assoc, append-nil, arith, Result, ok, err,
}
use completion.Poll.{
  Poll, pending, ready, Run, out_of_fuel, panicked, returned, ready_then, map_state,
}
use completion.Poll.Machine.{PollsTo-suc, Yields, Completes, Completes-of_polls}
use completion.Poll.Loop.{Leaves}
use completion.Stream.{CompletionStream, CompletionFuture}

-- `I` is the associated type `Intermediate`.
pub record FromCompletionStream {ℓ} (I A C : Type ℓ) : Type ℓ where
  pub start : ℕ → Option ℕ → I
  pub push : I → A → Result I C
  pub finalize : I → C

module _ {ℓ} {I A C : Type ℓ} (from : FromCompletionStream I A C) where
  pub option_push : I → Option A → Result I (Option C)
  option_push i (some item) = elim (from.push i item) [ ok i' ↦ ok i' | err c ↦ err (some c) ]
  option_push i none = err none

  pub from_option : FromCompletionStream I (Option A) (Option C)
  unfolding option_push
  from_option = record {
    start = from.start;
    push = option_push;
    finalize = λ i. some (from.finalize i);
  }

  result_push {κ} : {E : Type κ} → I → Result A E → Result I (Result C E)
  result_push i (ok item) = elim (from.push i item) [ ok i' ↦ ok i' | err c ↦ err (ok c) ]
  result_push i (err e) = err (err e)

  -- What a list of items makes of an intermediate value, and the items left behind an early end.
  pub collect_list : I → List A → C × Option (List A)
  collect_list i [] = (from.finalize i, none)
  collect_list i (x ∷ xs) = elim (from.push i x) [
    | ok i' ↦ collect_list i' xs
    | err c ↦ (c, some xs)
  ]

module _ {ℓ} {I A C E : Type ℓ} (from : FromCompletionStream I A C) where
  pub from_result : FromCompletionStream I (Result A E) (Result C E)
  unfolding result_push
  from_result = record {
    start = from.start;
    push = result_push from;
    finalize = λ i. ok (from.finalize i);
  }

module _ {ℓ} {A : Type ℓ} where
  -- The capacity that `Vec::with_capacity` reserves is not part of the value.
  pub from_vec : FromCompletionStream (List A) A (List A)
  from_vec = record {
    start = λ lower upper. [];
    push = λ i item. ok (i ++ item ∷ []);
    finalize = λ i. i;
  }

pub from_unit : FromCompletionStream (Unit {0}) (Unit {0}) (Unit {0})
from_unit = record { start = λ lower upper. tt; push = λ i item. ok tt; finalize = λ i. tt }

pub record Collect {ℓ} (S I : Type ℓ) : Type ℓ where
  pub stream : S
  pub collection : Option I

module _ {ℓ} {S I A C : Type ℓ} (inner : CompletionStream S A)
    (from : FromCompletionStream I A C) where
  abbrev collect_at : S → Option I → Collect S I
  collect_at s c = record { stream = s; collection = c }

  pub new : S → Collect S I
  new s = let (lower, upper) = inner.size_hint s in collect_at s (some (from.start lower upper))

  collect_loop : ℕ → S → I → Run (Poll C × Collect S I)
  collect_loop zero s collection = out_of_fuel
  collect_loop (suc n) s collection =
      ready_then (inner.poll_next n s) (λ s'. collect_at s' (some collection))
        λ found s'. elim found [
          | some item ↦ elim (from.push collection item) [
            | ok next ↦ collect_loop n s' next
            | err finished ↦ returned (ready finished, collect_at s' none)
          ]
          | none ↦ returned (ready (from.finalize collection), collect_at s' none)
        ]

  pub collect : CompletionFuture (Collect S I) C
  unfolding collect_loop
  collect = record {
    poll = λ n t. elim t.collection [
      | none ↦ panicked
      | some collection ↦ collect_loop n t.stream collection
    ];
    poll_cancel = λ n t. map_state (λ s. record t { stream = s }) (inner.poll_cancel n t.stream);
  }

  Result-cases : (r : Result I C) → ((i : I) × (r ≡ ok i)) ⊎ ((c : C) × (r ≡ err c))
  Result-cases (ok i) = inl (i, refl)
  Result-cases (err c) = inr (c, refl)

  collect-loop :
      {s : S} {xs : List A}
      → Yields inner.poll_next s xs
      → (i : I)
      → (v : S) × Completes collect.poll
          (collect_at s (some i))
          (collect_list from i xs).0
          (collect_at v none)
        × Leaves inner.poll_next v (collect_list from i xs).1
  unfolding collect collect_loop collect_list
  collect-loop (Yields.wait {s = s} {u = u} p y) i =
      let (v, c, l) = collect-loop y i in
      (
        v,
        Completes.wait {u = collect_at u (some i)}
            (PollsTo-suc collect.poll (collect_at s (some i)) (pending, collect_at u (some i)) p.0
              (λ n l. rw (p.1 n l, ready_then)))
            c,
        l,
      )
  collect-loop (Yields.item {s = s} {u = u} {x = x} p y) i = elim (Result-cases (from.push i x)) [
    | inl (i', e) ↦
        (let (v, c, l) = collect-loop y i' in
          rw (e, collect_list)
            (
              v,
              Completes-of_polls {s = collect_at u (some i')} {u = collect_at s (some i)}
                  (λ r q.
                    PollsTo-suc collect.poll (collect_at s (some i)) r (p.0 + q.0)
                      (λ n l. rw (p.1 n (omega arith), ready_then) (rw e (q.1 n (omega arith)))))
                  c,
              l,
            ))
    | inr (c, e) ↦
        rw (e, collect_list)
          (
            u,
            Completes.done {t = collect_at u none} (
                PollsTo-suc collect.poll (collect_at s (some i)) (ready c, collect_at u none) p.0
                  (λ n l. rw (p.1 n l, ready_then) (rw e))),
            y,
          )
  ]
  collect-loop (Yields.done {s = s} {u = u} p) i = (
    u,
    Completes.done {t = collect_at u none} (
        PollsTo-suc collect.poll (collect_at s (some i))
          (ready (from.finalize i), collect_at u none) p.0 (λ n l. rw (p.1 n l, ready_then))),
    tt,
  )

  -- If the stream gives a list, a fresh future completes with the collection that the start
  -- value, the pushes of the items in order, and the end make of it, and holds no collection
  -- then; it takes no item behind the one that ends the collection early.
  pub collect-Completes :
      {s : S} {xs : List A}
      → Yields inner.poll_next s xs
      → let i = from.start (inner.size_hint s).0 (inner.size_hint s).1 in
        (v : S) × Completes collect.poll (new s) (collect_list from i xs).0 (collect_at v none)
        × Leaves inner.poll_next v (collect_list from i xs).1
  unfolding new
  collect-Completes y = collect-loop y _

  -- Polled again after that, it panics.
  collect-panics : (n : ℕ) (v : S) → collect.poll n (collect_at v none) ≡ panicked
  unfolding collect
  collect-panics n v = refl

module _ {ℓ} {A : Type ℓ} where
  vec-list : (i xs : List A) → collect_list from_vec i xs ≡ (i ++ xs, none)
  unfolding collect_list from_vec
  vec-list i [] = rw append-nil
  vec-list i (x ∷ xs) = vec-list (i ++ x ∷ []) xs ∙ ap (λ l. (l, none)) (append_assoc i (x ∷ []) xs)

  -- The items in front of the first `none`, if there is one.
  pub all_some : List (Option A) → Option (List A)
  all_some [] = some []
  all_some (none ∷ xs) = none
  all_some (some x ∷ xs) = elim (all_some xs) [ none ↦ none | some ys ↦ some (x ∷ ys) ]

  all_some-list :
      (i : List A) (xs : List (Option A))
      → (collect_list (from_option from_vec) i xs).0
        ≡ elim (all_some xs) [ none ↦ none | some ys ↦ some (i ++ ys) ]
  unfolding collect_list from_vec from_option all_some
  all_some-list i [] = rw append-nil
  all_some-list i (none ∷ xs) = refl
  all_some-list i (some x ∷ xs) = all_some-list (i ++ x ∷ []) xs ∙ shift (all_some xs)
    where
      shift :
          (o : Option (List A))
          → elim o as (λ _. Option (List A)) [ none ↦ none | some ys ↦ some ((i ++ x ∷ []) ++ ys) ]
            ≡ elim (elim o as (λ _. Option (List A)) [ none ↦ none | some ys ↦ some (x ∷ ys) ])
                as (λ _. Option (List A)) [ none ↦ none | some ys ↦ some (i ++ ys) ]
      shift none = refl
      shift (some ys) = ap some (append_assoc i (x ∷ []) ys)

module _ {ℓ} {S A : Type ℓ} where
  -- Into a vector: all the items, in order.
  pub collect_vec :
      (inner : CompletionStream S A) {s : S} {xs : List A}
      → Yields inner.poll_next s xs
      → (v : S) × Completes
          (collect inner from_vec).poll
          (new inner from_vec s)
          xs
          (collect_at inner from_vec v none)
  unfolding from_vec
  collect_vec inner {s} {xs} y =
      let (v, c, _) = collect-Completes inner from_vec y in (v, rw (vec-list [] xs) at c)

  -- If the stream gives a list of optional items, collecting into an optional vector completes
  -- with all the items in order, or with `none` if one of them is `none`.
  pub collect_option :
      (inner : CompletionStream S (Option A)) {s : S} {xs : List (Option A)}
      → Yields inner.poll_next s xs
      → (v : S) × Completes
          (collect inner (from_option from_vec)).poll
          (new inner (from_option from_vec) s)
          (all_some xs)
          (collect_at inner (from_option from_vec) v none)
  unfolding from_vec from_option
  collect_option inner {s} {xs} y =
      let (v, c, _) = collect-Completes inner (from_option from_vec) y in
      (
        v,
        subst
            (λ r.
              Completes (collect inner (from_option from_vec)).poll
                (new inner (from_option from_vec) s) r
                (collect_at inner (from_option from_vec) v none))
            (all_some-list [] xs ∙ same (all_some xs)) c,
      )
    where
      same :
          (o : Option (List A))
          → elim o as (λ _. Option (List A)) [ none ↦ none | some ys ↦ some ([] ++ ys) ] ≡ o
      same none = refl
      same (some ys) = refl
