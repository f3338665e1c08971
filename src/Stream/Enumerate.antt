-- ===== src/Stream/Enumerate.antt =====
-- src/stream/adapters/enumerate.rs
use completion.Common.{ℕ, ◌+◌, ◌<◌, ◌%◌, ◌≡◌, refl, none, some, List, [], ◌∷◌, arith, length}
use completion.Poll.{ready, returned, ready_then, map_state, usize_limit}
use completion.Poll.Machine.{Yields}
use completion.Stream.{no_wrap, CompletionStream, Bounds}

pub record Enumerate {ℓ} (S : Type ℓ) : Type ℓ where
  pub stream : S
  pub count : ℕ

module _ {ℓ} {S A : Type ℓ} (inner : CompletionStream S A) where
  abbrev at : S → ℕ → Enumerate S
  at s i = record { stream = s; count = i }

  pub enumerate : CompletionStream (Enumerate S) (ℕ × A)
  enumerate = record {
    poll_next = λ n t.
        ready_then (inner.poll_next n t.stream) (λ s. at s t.count)
          λ found s. elim found [
            | none ↦ returned (ready none, at s t.count)
            | some item ↦
                returned (ready (some (t.count, item)), at s ((t.count + 1) % usize_limit))
          ];
    poll_cancel = λ n t. map_state (λ s. at s t.count) (inner.poll_cancel n t.stream);
    size_hint = λ t. inner.size_hint t.stream;
  }

  pub number_from : ℕ → List A → List (ℕ × A)
  number_from i [] = []
  number_from i (x ∷ xs) = (i, x) ∷ number_from (i + 1) xs

  length-number_from : (i : ℕ) (xs : List A) → length (number_from i xs) ≡ length xs
  unfolding number_from
  length-number_from i [] = refl
  length-number_from i (x ∷ xs) = omega (arith, length-number_from (i + 1) xs)

  enumerate-Yields :
      {s : S} {xs : List A}
      → Yields inner.poll_next s xs
      → (i : ℕ) → i + length xs < usize_limit
      → Yields enumerate.poll_next (at s i) (number_from i xs)
  unfolding enumerate number_from
  enumerate-Yields (Yields.wait {u = u} p y) i h =
      Yields.wait {u = at u i} (p.0, λ n l. rw (p.1 n l, ready_then)) (enumerate-Yields y i h)
  enumerate-Yields (Yields.item {u = u} p y) i h =
      Yields.item {u = at u (i + 1)}
        (p.0, λ n l. rw (p.1 n l, ready_then) (rw (no_wrap i (omega arith))))
        (enumerate-Yields y (i + 1) (omega arith))
  enumerate-Yields (Yields.done {u = u} p) i h =
      Yields.done {u = at u i} (p.0, λ n l. rw (p.1 n l, ready_then))

  -- If the inner stream gives a list, and the count is still a `usize` behind it, the items are
  -- given with their numbers from the count on; the size hint covers them, if the inner hint
  -- covers the list.
  pub enumerate_lem :
      {s : S} {xs : List A} (i : ℕ)
      → Yields inner.poll_next s xs
      → Bounds (inner.size_hint s) (length xs)
      → i + length xs < usize_limit
      → Yields enumerate.poll_next (at s i) (number_from i xs)
        × Bounds (enumerate.size_hint (at s i)) (length (number_from i xs))
  unfolding enumerate
  enumerate_lem {xs = xs} i y h l = (enumerate-Yields y i l, rw (length-number_from i xs) h)
