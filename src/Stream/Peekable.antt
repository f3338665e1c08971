-- ===== src/Stream/Peekable.antt =====
-- src/stream/adapters/peekable.rs
use completion.Common.{ℕ, refl, Option, none, some, List}
use mathlib.Core.List.{head?}
use completion.Poll.{
  Poll, pending, ready, Run, returned, ready_then, map_state, and_then, saturating_add, checked_add,
}
use completion.Poll.Machine.{Machine, Yields, Completes}
use completion.Stream.{CompletionStream}

pub record Peekable {ℓ} (S A : Type ℓ) : Type ℓ where
  pub stream : S
  pub peeked : Poll (Option A)

abbrev peekable_at {ℓ} : {S A : Type ℓ} → S → Poll (Option A) → Peekable S A
peekable_at s p = record { stream = s; peeked = p }

module _ {ℓ} {S A : Type ℓ} (inner : CompletionStream S A) where
  -- `if this.peeked.is_pending() { *this.peeked = this.stream.poll_next(cx) }`, and the rest.
  fill : ℕ → Peekable S A → Run (Poll (Option A) × Peekable S A)
  fill n t = elim t.peeked [
    | ready found ↦ returned (ready found, t)
    | pending ↦
        ready_then (inner.poll_next n t.stream) (λ s. peekable_at s pending)
          (λ found s. returned (ready found, peekable_at s (ready found)))
  ]

  pub poll_peek : Machine (Peekable S A) (Option A)
  unfolding fill
  poll_peek n t = fill n t

  pub poll_peek_cancel : Machine (Peekable S A) (Unit {0})
  poll_peek_cancel n t = elim t.peeked [
    | pending ↦ map_state (λ s. peekable_at s pending) (inner.poll_cancel n t.stream)
    | ready found ↦ returned (ready tt, t)
  ]

  pub peekable : CompletionStream (Peekable S A) A
  unfolding fill
  peekable = record {
    poll_next = λ n t.
        ready_then (fill n t) (λ t'. t')
          (λ found t'. returned (ready found, peekable_at t'.stream pending));
    poll_cancel = poll_peek_cancel;
    size_hint = λ t. elim t.peeked [
      | ready none ↦ (0, some 0)
      | ready (some item) ↦
          (let (lower, upper) = inner.size_hint t.stream in
            (saturating_add lower 1, and_then upper (λ n. checked_add n 1)))
      | pending ↦
          (let (lower, upper) = inner.size_hint t.stream in
            (saturating_add lower 0, and_then upper (λ n. checked_add n 0)))
    ];
  }

  peekable-Yields :
      {s : S} {xs : List A}
      → Yields inner.poll_next s xs
      → Yields peekable.poll_next (peekable_at s pending) xs
  unfolding peekable
  peekable-Yields (Yields.wait {u = u} p y) =
      Yields.wait {u = peekable_at u pending} (p.0, λ n l. rw (p.1 n l, ready_then))
        (peekable-Yields y)
  peekable-Yields (Yields.item {u = u} p y) =
      Yields.item {u = peekable_at u pending} (p.0, λ n l. rw (p.1 n l, ready_then))
        (peekable-Yields y)
  peekable-Yields (Yields.done {u = u} p) =
      Yields.done {u = peekable_at u pending} (p.0, λ n l. rw (p.1 n l, ready_then))

  -- If the inner stream gives a list, peeking completes with its first item, if there is one;
  -- peeking again gives the same item and changes nothing, and the stream then still gives the
  -- whole list.
  pub poll_peek_lem :
      {s : S} {xs : List A}
      → Yields inner.poll_next s xs
      → (t : Peekable S A) × Completes poll_peek (peekable_at s pending) (head? xs) t
        × Completes poll_peek t (head? xs) t
        × Yields peekable.poll_next t xs
  unfolding poll_peek peekable
  poll_peek_lem (Yields.wait {u = u} p y) =
      let (t, c, d, z) = poll_peek_lem y in
      (t, Completes.wait {u = peekable_at u pending} (p.0, λ n l. rw (p.1 n l, ready_then)) c, d, z)
  poll_peek_lem (Yields.item {u = u} {x = x} p y) = (
    peekable_at u (ready (some x)),
    Completes.done (p.0, λ n l. rw (p.1 n l, ready_then)),
    Completes.done (0, λ n l. refl),
    Yields.item {u = peekable_at u pending} (0, λ n l. refl) (peekable-Yields y),
  )
  poll_peek_lem (Yields.done {u = u} p) = (
    peekable_at u (ready none),
    Completes.done (p.0, λ n l. rw (p.1 n l, ready_then)),
    Completes.done (0, λ n l. refl),
    Yields.done {u = peekable_at u pending} (0, λ n l. refl),
  )
