-- ===== src/Stream/Consume.antt =====
-- src/stream/futures/count.rs, last.rs, for_each.rs, fold.rs and collect.rs.
use completion.Common.{
  ℕ, zero, suc, ◌+◌, ◌%◌, ◌<◌, ◌≡◌, refl, ◌∙◌, Option, none, some, List, [], ◌∷◌, arith, length,
}
use mathlib.Core.List.{foldl}
use completion.Poll.{ready, out_of_fuel, panicked, returned, ready_then, map_state, usize_limit}
use completion.Poll.Machine.{Machine, PollsTo-suc, Yields, Completes, Completes-of_polls}
use completion.Poll.Loop.{Flow, continue, loop_items, run_items, loop-Completes}
use completion.Stream.{no_wrap, CompletionStream, CompletionFuture}

pub record Count {ℓ} (S : Type ℓ) : Type ℓ where
  pub count : ℕ
  pub stream : S

pub record Last {ℓ} (S A : Type ℓ) : Type ℓ where
  pub stream : S
  pub last : Option A

pub record ForEach {ℓ} (S F : Type ℓ) : Type ℓ where
  pub stream : S
  pub f : F

module _ {ℓ} {S A : Type ℓ} (inner : CompletionStream S A) where
  abbrev count_at : S × ℕ → Count S
  count_at (s, n) = record { count = n; stream = s }

  count_item : A → ℕ → Flow ℕ ℕ
  count_item item n = continue ((n + 1) % usize_limit)

  pub count : CompletionFuture (Count S) ℕ
  count = record {
    poll = λ n t.
        map_state count_at
          (loop_items inner.poll_next count_item (λ c. (c, c)) n (t.stream, t.count));
    poll_cancel = λ n t. map_state (λ s. record t { stream = s }) (inner.poll_cancel n t.stream);
  }

  run-count_item :
      (n : ℕ) (xs : List A)
      → n + length xs < usize_limit
      → ((run_items inner.poll_next count_item (λ c. (c, c)) n xs).0 ≡ n + length xs)
        × ((run_items inner.poll_next count_item (λ c. (c, c)) n xs).2 ≡ none)
  unfolding count_item run_items
  run-count_item n [] h = (omega arith, refl)
  run-count_item n (x ∷ xs) h = ground (arith, no_wrap n, run-count_item (n + 1) xs (omega arith))

  pub count-Completes :
      {s : S} {xs : List A}
      → Yields inner.poll_next s xs
      → length xs < usize_limit
      → (v : S) × (n : ℕ) × Completes count.poll (count_at (s, 0)) (length xs) (count_at (v, n))
  unfolding count
  count-Completes {xs = xs} y h =
      let (r, l) = run-count_item 0 xs (omega arith) in
      let (v, n, c, _) =
        loop-Completes inner.poll_next count_item _ count_at count.poll (λ n z. refl) 0 y
          (r ∙ omega arith) l in
      (v, n, c)

  abbrev last_at : S × Option A → Last S A
  last_at (s, last) = record { stream = s; last = last }

  last_item : A → Option A → Flow (Option A) (Option A)
  last_item item last = continue (some item)

  pub last : CompletionFuture (Last S A) (Option A)
  last = record {
    poll = λ n t.
        map_state last_at
          (loop_items inner.poll_next last_item (λ last. (last, none)) n (t.stream, t.last));
    poll_cancel = λ n t. map_state (λ s. record t { stream = s }) (inner.poll_cancel n t.stream);
  }

  -- The last item of the list, or the default if it has none.
  pub last_or : Option A → List A → Option A
  last_or d [] = d
  last_or d (x ∷ xs) = last_or (some x) xs

  run-last_item :
      (d : Option A) (xs : List A)
      → ((run_items inner.poll_next last_item (λ l. (l, none)) d xs).0 ≡ last_or d xs)
        × ((run_items inner.poll_next last_item (λ l. (l, none)) d xs).2 ≡ none)
  unfolding last_item last_or run_items
  run-last_item d [] = (refl, refl)
  run-last_item d (x ∷ xs) = run-last_item (some x) xs

  pub last-Completes :
      {s : S} {xs : List A}
      → Yields inner.poll_next s xs
      → (v : S) × (l : Option A) × Completes last.poll
          (last_at (s, none))
          (last_or none xs)
          (last_at (v, l))
  unfolding last
  last-Completes {xs = xs} y =
      let (r, e) = run-last_item none xs in
      let (v, l, c, _) =
        loop-Completes inner.poll_next last_item _ last_at last.poll (λ n z. refl) none y r e in
      (v, l, c)

  -- If the stream gives a list whose length is a `usize`, `count` completes with the length, and
  -- `last` with the last item, if there is one.
  pub count_last_lem :
      {s : S} {xs : List A}
      → Yields inner.poll_next s xs
      → length xs < usize_limit
      → ((v : S) × (n : ℕ) × Completes count.poll (count_at (s, 0)) (length xs) (count_at (v, n)))
        × ((v : S) × (l : Option A) × Completes last.poll
              (last_at (s, none))
              (last_or none xs)
              (last_at (v, l)))
  count_last_lem y h = (count-Completes y h, last-Completes y)

module _ {ℓ} {S A F : Type ℓ} (inner : CompletionStream S A) (call : F → A → F) where
  abbrev for_each_at : S → F → ForEach S F
  for_each_at s f = record { stream = s; f = f }

  for_each_item : A → F → Flow (Unit {0}) F
  for_each_item v f = continue (call f v)

  pub for_each : CompletionFuture (ForEach S F) (Unit {0})
  for_each = record {
    poll = λ n t.
        map_state (λ z. for_each_at z.0 z.1)
          (loop_items inner.poll_next for_each_item (λ f. (tt, f)) n (t.stream, t.f));
    poll_cancel = λ n t. map_state (λ s. record t { stream = s }) (inner.poll_cancel n t.stream);
  }

  for_each-loop :
      {s : S} {xs : List A}
      → Yields inner.poll_next s xs
      → (f : F)
      → (v : S) × Completes for_each.poll (for_each_at s f) tt (for_each_at v (foldl call f xs))
  unfolding for_each loop_items for_each_item
  for_each-loop (Yields.wait {u = u} p y) f =
      let (v, c) = for_each-loop y f in
      (
        v,
        Completes.wait {u = for_each_at u f}
            (PollsTo-suc for_each.poll _ _ p.0 (λ n l. rw (p.1 n l, ready_then))) c,
      )
  for_each-loop (Yields.item {s = s} {u = u} {x = x} p y) f =
      let (v, c) = for_each-loop y (call f x) in
      (
        v,
        Completes-of_polls {s = for_each_at u (call f x)} {u = for_each_at s f}
            (λ r q.
              PollsTo-suc for_each.poll _ _ (p.0 + q.0)
                (λ n l. rw (p.1 n (omega arith), ready_then) (q.1 n (omega arith))))
            c,
      )
  for_each-loop (Yields.done {u = u} p) f =
      (u, Completes.done (PollsTo-suc for_each.poll _ _ p.0 (λ n l. rw (p.1 n l, ready_then))))

  -- The closure is called on each item, in order.
  pub for_each-Completes :
      {s : S} {xs : List A} (f : F)
      → Yields inner.poll_next s xs
      → (v : S) × Completes for_each.poll (for_each_at s f) tt (for_each_at v (foldl call f xs))
  for_each-Completes f y = for_each-loop y f

-- `accumulator` is `none` when the future has completed.
pub record Fold {ℓ} (S F T : Type ℓ) : Type ℓ where
  pub stream : S
  pub f : F
  pub accumulator : Option T

module _ {ℓ} {S A F T : Type ℓ} (inner : CompletionStream S A) (call : F → T → A → T × F) where
  abbrev fold_at : S → F → Option T → Fold S F T
  fold_at s f a = record { stream = s; f = f; accumulator = a }

  fold_poll : Machine (Fold S F T) T
  fold_poll zero t = out_of_fuel
  fold_poll (suc n) t =
      ready_then (inner.poll_next n t.stream) (λ s. fold_at s t.f t.accumulator)
        λ found s. elim found [
          | some item ↦ elim t.accumulator [
            | none ↦ panicked
            | some accumulator ↦
                (let (next, f') = call t.f accumulator item in
                  fold_poll n (fold_at s f' (some next)))
          ]
          | none ↦ elim t.accumulator [
            | none ↦ panicked
            | some accumulator ↦ returned (ready accumulator, fold_at s t.f none)
          ]
        ]

  pub fold : CompletionFuture (Fold S F T) T
  unfolding fold_poll
  fold = record {
    poll = fold_poll;
    poll_cancel = λ n t. map_state (λ s. record t { stream = s }) (inner.poll_cancel n t.stream);
  }

  pub fold_list : F → T → List A → T × F
  fold_list f acc [] = (acc, f)
  fold_list f acc (x ∷ xs) = let (next, f') = call f acc x in fold_list f' next xs

  fold_poll-Completes :
      {s : S} {xs : List A}
      → Yields inner.poll_next s xs
      → (f : F) (acc : T)
      → (v : S) × Completes fold_poll
          (fold_at s f (some acc))
          (fold_list f acc xs).0
          (fold_at v (fold_list f acc xs).1 none)
  unfolding fold_poll fold_list
  fold_poll-Completes (Yields.wait {u = u} p y) f acc =
      let (v, c) = fold_poll-Completes y f acc in
      (
        v,
        Completes.wait {u = fold_at u f (some acc)}
            (PollsTo-suc fold_poll _ _ p.0 (λ n l. rw (p.1 n l, ready_then))) c,
      )
  fold_poll-Completes (Yields.item {s = s} {u = u} {x = x} p y) f acc =
      let (v, c) = fold_poll-Completes y (call f acc x).1 (call f acc x).0 in
      (
        v,
        Completes-of_polls {s = fold_at u (call f acc x).1 (some (call f acc x).0)}
            {u = fold_at s f (some acc)}
            (λ r q.
              PollsTo-suc fold_poll _ _ (p.0 + q.0)
                (λ n l. rw (p.1 n (omega arith), ready_then) (q.1 n (omega arith))))
            c,
      )
  fold_poll-Completes (Yields.done {u = u} p) f acc =
      (u, Completes.done (PollsTo-suc fold_poll _ _ p.0 (λ n l. rw (p.1 n l, ready_then))))

  -- The future completes with the fold of the items, and has then no accumulator.
  pub fold-Completes :
      {s : S} {xs : List A} (f : F) (acc : T)
      → Yields inner.poll_next s xs
      → (v : S) × Completes fold.poll
          (fold_at s f (some acc))
          (fold_list f acc xs).0
          (fold_at v (fold_list f acc xs).1 none)
  unfolding fold
  fold-Completes f acc y = fold_poll-Completes y f acc

module _ {ℓ} {S A F T : Type ℓ} (inner : CompletionStream S A) (each : F → A → F)
    (step : F → T → A → T × F) where
  -- If the stream gives a list, `for_each` completes and has called its closure on each item in
  -- order, and `fold` completes with what its closure makes of the initial value and the items
  -- in order, and has no accumulator then.
  pub for_each_fold_lem :
      {s : S} {xs : List A} (f : F) (acc : T)
      → Yields inner.poll_next s xs
      → ((v : S) × Completes
            (for_each inner each).poll
            (for_each_at inner each s f)
            tt
            (for_each_at inner each v (foldl each f xs)))
        × ((v : S) × Completes
              (fold inner step).poll
              (fold_at inner step s f (some acc))
              (fold_list inner step f acc xs).0
              (fold_at inner step v (fold_list inner step f acc xs).1 none))
  for_each_fold_lem f acc y = (for_each-Completes inner each f y, fold-Completes inner step f acc y)
