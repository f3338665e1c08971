-- ===== src/Stream/Then.antt =====
-- src/stream/adapters/map.rs: `Then`.
use completion.Common.{ℕ, ◌+◌, ◌≡◌, Option, none, some, List, [], ◌∷◌, arith}
use completion.Poll.{
  Poll, ready, Run, returned, ready_then, map_state, and_then, saturating_add, checked_add,
}
use completion.Poll.Machine.{Machine, Yields, Yields-of_polls, Completes}
use completion.Stream.{CompletionStream}

-- `fut` is the future of the item that is under way.
pub record Then {ℓ} (S F G : Type ℓ) : Type ℓ where
  pub stream : S
  pub fut : Option G
  pub f : F

module _ {ℓ} {S A B F G : Type ℓ} (inner : CompletionStream S A) (call : F → A → G × F)
    (poll : Machine G B) (cancel : Machine G (Unit {0})) where
  poll_fut : ℕ → Then S F G → G → Run (Poll (Option B) × Then S F G)
  poll_fut n t g =
      ready_then (poll n g) (λ g'. record t { fut = some g' })
        (λ val g'. returned (ready (some val), record t { fut = none }))

  pub stream_then : CompletionStream (Then S F G) B
  unfolding poll_fut
  stream_then = record {
    poll_next = λ n t. elim t.fut [
      | some g ↦ poll_fut n t g
      | none ↦
          ready_then (inner.poll_next n t.stream) (λ s. record t { stream = s })
            λ found s. elim found [
              | none ↦ returned (ready none, record t { stream = s })
              | some item ↦
                  (let (g, f') = call t.f item in
                    poll_fut n (record { stream = s; fut = some g; f = f' }) g)
            ]
    ];
    poll_cancel = λ n t. elim t.fut [
      | some g ↦ map_state (λ g'. record t { fut = some g' }) (cancel n g)
      | none ↦ map_state (λ s. record t { stream = s }) (inner.poll_cancel n t.stream)
    ];
    size_hint = λ t.
        let future_len : ℕ = elim t.fut [ some g ↦ 1 | none ↦ 0 ] in
        let (stream_min, stream_max) = inner.size_hint t.stream in
        (saturating_add stream_min future_len, and_then stream_max (λ l. checked_add l future_len));
  }

  -- The futures made for the items of `xs`, in order, complete with the values `ys`.
  pub data Futures : F → List A → List B → Type ℓ where
    end : {f : F} → Futures f [] []
    next :
        {f f' : F} {x : A} {xs : List A} {g g' : G} {y : B} {ys : List B}
        → call f x ≡ (g, f')
        → Completes poll g y g'
        → Futures f' xs ys
        → Futures f (x ∷ xs) (y ∷ ys)

  abbrev at : S → Option G → F → Then S F G
  at s g f = record { stream = s; fut = g; f = f }

  -- While a future is under way the stream gives its value, then the rest.
  fut-Yields :
      {s : S} {f : F} {g g' : G} {b : B} {ys : List B}
      → Completes poll g b g'
      → Yields stream_then.poll_next (at s none f) ys
      → Yields stream_then.poll_next (at s (some g) f) (b ∷ ys)
  unfolding stream_then
  fut-Yields {s} {f} (Completes.wait {u = u} p c) y =
      Yields.wait {u = at s (some u) f} (p.0, λ n l. rw (p.1 n l, ready_then)) (fut-Yields c y)
  fut-Yields {s} {f} (Completes.done p) y = Yields.item (p.0, λ n l. rw (p.1 n l, ready_then)) y

  -- If the inner stream gives a list, and the futures that the closure makes of its items, in
  -- order, complete with the values `ys`, the stream gives `ys`.
  pub then-Yields :
      {s : S} {xs : List A} {f : F} {ys : List B}
      → Yields inner.poll_next s xs
      → Futures f xs ys
      → Yields stream_then.poll_next (at s none f) ys
  unfolding stream_then
  then-Yields {f = f} (Yields.wait {u = u} p y) fs =
      Yields.wait {u = at u none f} (p.0, λ n l. rw (p.1 n l, ready_then)) (then-Yields y fs)
  then-Yields {f = f} (Yields.item {s = s} {u = u} p y) (next {f' = f'} {g = g} e c fs) =
      Yields-of_polls {s = at u (some g) f'} {u = at s none f}
        (λ r q.
          (p.0 + q.0, λ n l. rw (p.1 n (omega arith), ready_then) (rw e (q.1 n (omega arith)))))
        (fut-Yields c (then-Yields y fs))
  then-Yields {f = f} (Yields.done {u = u} p) end =
      Yields.done {u = at u none f} (p.0, λ n l. rw (p.1 n l, ready_then))
