-- ===== src/Stream/Position.antt =====
-- src/stream/futures/find.rs, nth.rs and next.rs: `Position`, `Nth` and `Next`.
use completion.Common.{
  ℕ, zero, suc, ◌+◌, ◌-◌, ◌%◌, ◌<◌, ◌≡◌, refl, Bool, Option, none, some, List, [], ◌∷◌, arith,
  length, get_elem?, ◌==◌, if◌then◌else◌,
}
use completion.Poll.{map_state, usize_limit}
use completion.Poll.Machine.{Yields, Completes}
use completion.Poll.Loop.{Flow, continue, break, Leaves, loop_items, run_items, loop-Completes}
use completion.Stream.{no_wrap, CompletionStream, CompletionFuture}

pub record Position {ℓ} (S P : Type ℓ) : Type ℓ where
  pub stream : S
  pub predicate : P
  pub position : ℕ

pub record Nth {ℓ} (S : Type ℓ) : Type ℓ where
  pub stream : S
  pub n : ℕ

pub record Next {ℓ} (S : Type ℓ) : Type ℓ where
  pub stream : S

module _ {ℓ} {S A P : Type ℓ} (inner : CompletionStream S A) (call : P → A → Bool × P) where
  abbrev position_at : S × (P × ℕ) → Position S P
  position_at (s, (p, i)) = record { stream = s; predicate = p; position = i }

  position_item : A → P × ℕ → Flow (Option ℕ) (P × ℕ)
  position_item item (p, i) =
      let (holds, p') = call p item in
      if holds then break (some i) (p', i) else continue (p', (i + 1) % usize_limit)

  pub position : CompletionFuture (Position S P) (Option ℕ)
  position = record {
    poll = λ n t. map_state position_at (
        loop_items inner.poll_next position_item (λ x. (none, x)) n
          (t.stream, (t.predicate, t.position)));
    poll_cancel = λ n t. map_state (λ s. record t { stream = s }) (inner.poll_cancel n t.stream);
  }

  -- The index, counted from `i`, of the first item that the predicate accepts, and what is left
  -- behind it.
  pub position_list : ℕ → P → List A → Option ℕ × Option (List A)
  position_list i p [] = (none, none)
  position_list i p (x ∷ xs) =
      let (holds, p') = call p x in if holds then (some i, some xs) else position_list (i + 1) p' xs

  run-position_item :
      (i : ℕ) (p : P) (xs : List A)
      → i + length xs < usize_limit
      → ((run_items inner.poll_next position_item (λ x. (none, x)) (p, i) xs).0
          ≡ (position_list i p xs).0)
        × ((run_items inner.poll_next position_item (λ x. (none, x)) (p, i) xs).2
            ≡ (position_list i p xs).1)
  unfolding position_item position_list run_items
  run-position_item i p [] h = (refl, refl)
  run-position_item i p (x ∷ xs) h =
      ground (arith, no_wrap i, run-position_item (i + 1) (call p x).1 xs (omega arith))

  -- If the stream gives a list whose length is a `usize`, `position` completes with the index of
  -- the first item that the predicate accepts, if there is one, and leaves the stream just
  -- behind that item.
  pub position-Completes :
      {s : S} {xs : List A} (p : P)
      → Yields inner.poll_next s xs
      → length xs < usize_limit
      → (v : S) × (x' : P × ℕ) × Completes position.poll
          (position_at (s, (p, 0)))
          (position_list 0 p xs).0
          (position_at (v, x'))
        × Leaves inner.poll_next v (position_list 0 p xs).1
  unfolding position
  position-Completes {xs = xs} p y h =
      let (r, l) = run-position_item 0 p xs (omega arith) in
      loop-Completes inner.poll_next position_item _ position_at position.poll (λ n z. refl) (p, 0)
        y r l

module _ {ℓ} {S A : Type ℓ} (inner : CompletionStream S A) where
  abbrev nth_at : S × ℕ → Nth S
  nth_at (s, n) = record { stream = s; n = n }

  -- `self.n.checked_sub(1)`
  nth_item : A → ℕ → Flow (Option A) ℕ
  nth_item v n = if n == 0 then break (some v) n else continue (n - 1)

  pub nth : CompletionFuture (Nth S) (Option A)
  nth = record {
    poll = λ k t.
        map_state nth_at (loop_items inner.poll_next nth_item (λ n. (none, n)) k (t.stream, t.n));
    poll_cancel = λ k t. map_state (λ s. record t { stream = s }) (inner.poll_cancel k t.stream);
  }

  -- What is left behind the item at index `n`, if there is one.
  pub behind : List A → ℕ → Option (List A)
  behind [] n = none
  behind (x ∷ xs) zero = some xs
  behind (x ∷ xs) (suc n) = behind xs n

  run-nth_item :
      (n : ℕ) (xs : List A)
      → ((run_items inner.poll_next nth_item (λ n. (none, n)) n xs).0 ≡ get_elem? xs n)
        × ((run_items inner.poll_next nth_item (λ n. (none, n)) n xs).2 ≡ behind xs n)
  unfolding nth_item behind run_items
  run-nth_item n [] = (refl, refl)
  run-nth_item zero (x ∷ xs) = (refl, refl)
  run-nth_item (suc n) (x ∷ xs) = ground (arith, run-nth_item n xs)

  pub nth-Completes :
      {s : S} {xs : List A} (n : ℕ)
      → Yields inner.poll_next s xs
      → (v : S) × (n' : ℕ) × Completes nth.poll (nth_at (s, n)) (get_elem? xs n) (nth_at (v, n'))
        × Leaves inner.poll_next v (behind xs n)
  unfolding nth
  nth-Completes {xs = xs} n y =
      let (r, l) = run-nth_item n xs in
      loop-Completes inner.poll_next nth_item _ nth_at nth.poll (λ k z. refl) n y r l

  pub next : CompletionFuture (Next S) (Option A)
  next = record {
    poll = λ n t. map_state (λ s. record { stream = s }) (inner.poll_next n t.stream);
    poll_cancel = λ n t. map_state (λ s. record { stream = s }) (inner.poll_cancel n t.stream);
  }

  -- `next` is `nth` at index 0.
  pub next-Completes :
      {s : S} {xs : List A}
      → Yields inner.poll_next s xs
      → (v : S) × Completes next.poll
          (record { stream = s })
          (get_elem? xs 0)
          (record { stream = v })
        × Leaves inner.poll_next v (behind xs 0)
  unfolding next behind
  next-Completes (Yields.wait {u = u} p y) =
      let (v, c, l) = next-Completes y in
      (v, Completes.wait {u = record { stream = u }} (p.0, λ n k. rw (p.1 n k, map_state)) c, l)
  next-Completes (Yields.item {u = u} p y) =
      (u, Completes.done (p.0, λ n k. rw (p.1 n k, map_state)), y)
  next-Completes (Yields.done {u = u} p) =
      (u, Completes.done (p.0, λ n k. rw (p.1 n k, map_state)), tt)

  -- If the stream gives a list, `nth` completes with the item at its index, if there is one, and
  -- leaves the stream just behind it; `next` does so for index 0.
  pub nth_next_lem :
      {s : S} {xs : List A} (n : ℕ)
      → Yields inner.poll_next s xs
      → ((v : S) × (n' : ℕ) × Completes nth.poll (nth_at (s, n)) (get_elem? xs n) (nth_at (v, n'))
          × Leaves inner.poll_next v (behind xs n))
        × ((v : S) × Completes next.poll
              (record { stream = s })
              (get_elem? xs 0)
              (record { stream = v })
            × Leaves inner.poll_next v (behind xs 0))
  nth_next_lem n y = (nth-Completes n y, next-Completes y)
