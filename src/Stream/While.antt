-- ===== src/Stream/While.antt =====
-- src/stream/adapters/skip_take_while.rs: `SkipWhile` and `TakeWhile`.
use completion.Common.{
  ◌≤◌, ◌≡◌, refl, ap, Bool, true, false, Option, none, some, List, [], ◌∷◌, arith, length,
  if◌then◌else◌, Bool-cases, inl, inr,
}
use completion.Poll.{ready, returned, ready_then, map_state}
use completion.Poll.Machine.{Yields, Yields-map_state}
use completion.Poll.Loop.{Flow, continue, break, loop_items, emit_items, loop_items-Yields}
use completion.Stream.{CompletionStream, Bounds, AtMost-of_le}

pub record SkipWhile {ℓ} (S P : Type ℓ) : Type ℓ where
  pub stream : S
  pub skipping : Bool
  pub predicate : P

pub record TakeWhile {ℓ} (S P : Type ℓ) : Type ℓ where
  pub stream : S
  pub taking : Bool
  pub predicate : P

module _ {ℓ} {S A P : Type ℓ} (inner : CompletionStream S A) (call : P → A → Bool × P) where
  abbrev skipper : S × (Bool × P) → SkipWhile S P
  skipper (s, (b, p)) = record { stream = s; skipping = b; predicate = p }

  abbrev taker : S → Bool → P → TakeWhile S P
  taker s b p = record { stream = s; taking = b; predicate = p }

  -- One round for an item: `skipping` is updated by the predicate while it is set.
  skip_item : A → Bool × P → Flow (Option A) (Bool × P)
  skip_item item (skipping, p) =
      let (skipping', p') : Bool × P = if skipping then call p item else (false, p) in
      if skipping' then continue (true, p') else break (some item) (false, p')

  pub skip_while : CompletionStream (SkipWhile S P) A
  skip_while = record {
    poll_next = λ n t. map_state skipper (
        loop_items inner.poll_next skip_item (λ x. (none, x)) n
          (t.stream, (t.skipping, t.predicate)));
    poll_cancel = λ n t. map_state (λ s. record t { stream = s }) (inner.poll_cancel n t.stream);
    size_hint =
        λ t. if t.skipping then (0, (inner.size_hint t.stream).1) else inner.size_hint t.stream;
  }

  pub take_while : CompletionStream (TakeWhile S P) A
  take_while = record {
    poll_next = λ n t.
        if t.taking
        then ready_then (inner.poll_next n t.stream) (λ s. taker s true t.predicate)
            (λ found s. elim found [
              | none ↦ returned (ready none, taker s true t.predicate)
              | some item ↦
                  (let (accepts, p) = call t.predicate item in
                    if accepts
                    then returned (ready (some item), taker s true p)
                    else returned (ready none, taker s false p))
            ])
        else returned (ready none, t);
    poll_cancel = λ n t.
        if t.taking
        then map_state (λ s. record t { stream = s }) (inner.poll_cancel n t.stream)
        else returned (ready tt, t);
    size_hint = λ t. if t.taking then (0, (inner.size_hint t.stream).1) else (0, some 0);
  }

  -- The items from the first one on that the predicate refuses.
  pub drop_while : P → List A → List A
  drop_while p [] = []
  drop_while p (x ∷ xs) =
      let (accepts, p') = call p x in if accepts then drop_while p' xs else x ∷ xs

  -- The items before the first one that the predicate refuses.
  pub while_list : P → List A → List A
  while_list p [] = []
  while_list p (x ∷ xs) =
      let (accepts, p') = call p x in if accepts then x ∷ while_list p' xs else []

  emit-after :
      (p : P) (xs : List A) → emit_items inner.poll_next skip_item (λ x. x) (false, p) xs ≡ xs
  unfolding skip_item emit_items
  emit-after p [] = refl
  emit-after p (x ∷ xs) = ap (x ∷◌) (emit-after p xs)

  emit-skip_item :
      (p : P) (xs : List A)
      → emit_items inner.poll_next skip_item (λ x. x) (true, p) xs ≡ drop_while p xs
  unfolding skip_item drop_while emit_items
  emit-skip_item p [] = refl
  emit-skip_item p (x ∷ xs) =
      ground (arith, emit-skip_item (call p x).1 xs, emit-after (call p x).1 xs)

  length-drop_while : (p : P) (xs : List A) → length (drop_while p xs) ≤ length xs
  unfolding drop_while
  length-drop_while p [] = omega arith
  length-drop_while p (x ∷ xs) = ground (arith, length-drop_while (call p x).1 xs)

  length-while_list : (p : P) (xs : List A) → length (while_list p xs) ≤ length xs
  unfolding while_list
  length-while_list p [] = omega arith
  length-while_list p (x ∷ xs) = ground (arith, length-while_list (call p x).1 xs)

  take_while-Yields :
      {s : S} {xs : List A}
      → Yields inner.poll_next s xs
      → (p : P) → Yields take_while.poll_next (taker s true p) (while_list p xs)
  unfolding take_while while_list
  take_while-Yields (Yields.wait {u = u} q y) p =
      Yields.wait {u = taker u true p} (q.0, λ n l. rw (q.1 n l, ready_then))
        (take_while-Yields y p)
  take_while-Yields (Yields.item {u = u} {x = x} q y) p = elim (Bool-cases (call p x).0) [
    | inl e ↦ rw e (
        Yields.item {u = taker u true (call p x).1} (q.0, λ n l. rw (q.1 n l, ready_then) (rw e))
          (take_while-Yields y (call p x).1))
    | inr e ↦
        rw e (
          Yields.done {u = taker u false (call p x).1}
            (q.0, λ n l. rw (q.1 n l, ready_then) (rw e)))
  ]
  take_while-Yields (Yields.done {u = u} q) p =
      Yields.done {u = taker u true p} (q.0, λ n l. rw (q.1 n l, ready_then))

  pub skip_while_lem :
      {s : S} {xs : List A} (p : P)
      → Yields inner.poll_next s xs
      → Bounds (inner.size_hint s) (length xs)
      → Yields skip_while.poll_next (skipper (s, (true, p))) (drop_while p xs)
        × Bounds (skip_while.size_hint (skipper (s, (true, p)))) (length (drop_while p xs))
  unfolding skip_while
  skip_while_lem {xs = xs} p y h = (
    Yields-map_state skipper _ skip_while.poll_next (λ n s. refl)
        (rw (← emit-skip_item p xs)
          (loop_items-Yields inner.poll_next skip_item (λ x. x) (true, p) y)),
    (omega arith, AtMost-of_le _ (length-drop_while p xs) h.1),
  )

  pub take_while_lem :
      {s : S} {xs : List A} (p : P)
      → Yields inner.poll_next s xs
      → Bounds (inner.size_hint s) (length xs)
      → Yields take_while.poll_next (taker s true p) (while_list p xs)
        × Bounds (take_while.size_hint (taker s true p)) (length (while_list p xs))
  unfolding take_while
  take_while_lem {xs = xs} p y h =
      (take_while-Yields y p, (omega arith, AtMost-of_le _ (length-while_list p xs) h.1))

  -- If the inner stream gives a list, a fresh `SkipWhile` gives the items from the first one on
  -- that the predicate refuses and a fresh `TakeWhile` those before it, and their size hints
  -- cover what is given, if the inner hint covers the list.
  pub while_lem :
      {s : S} {xs : List A} (p : P)
      → Yields inner.poll_next s xs
      → Bounds (inner.size_hint s) (length xs)
      → (Yields skip_while.poll_next (skipper (s, (true, p))) (drop_while p xs)
          × Bounds (skip_while.size_hint (skipper (s, (true, p)))) (length (drop_while p xs)))
        × (Yields take_while.poll_next (taker s true p) (while_list p xs)
            × Bounds (take_while.size_hint (taker s true p)) (length (while_list p xs)))
  while_lem p y h = (skip_while_lem p y h, take_while_lem p y h)
