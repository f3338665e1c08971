-- ===== src/Stream/Fuse.antt =====
-- src/stream/adapters/fuse.rs
use completion.Common.{ℕ, ◌≡◌, refl, Bool, true, false, Option, none, some, List, [], ◌∷◌}
use completion.Poll.{pending, ready, returned, ready_then}
use completion.Poll.Machine.{PollsTo, Yields, Completes}
use completion.Stream.{CompletionStream}

pub record Fuse {ℓ} (S : Type ℓ) : Type ℓ where
  pub stream : Option S

abbrev fused {ℓ} : {S : Type ℓ} → Option S → Fuse S
fused s = record { stream = s }

pub is_done {ℓ} : {S : Type ℓ} → Fuse S → Bool
is_done t = elim t.stream [ none ↦ true | some s ↦ false ]

module _ {ℓ} {S A : Type ℓ} (inner : CompletionStream S A) where
  pub fuse : CompletionStream (Fuse S) A
  fuse = record {
    poll_next = λ n t. elim t.stream [
      | none ↦ returned (ready none, t)
      | some stream ↦
          ready_then (inner.poll_next n stream) (λ s. fused (some s))
            λ value s. elim value [
              | none ↦ returned (ready none, fused none)
              | some item ↦ returned (ready (some item), fused (some s))
            ]
    ];
    poll_cancel = λ n t. elim t.stream [
      | none ↦ returned (ready tt, t)
      | some stream ↦
          ready_then (inner.poll_cancel n stream) (λ s. fused (some s))
            (λ done s. returned (ready tt, fused none))
    ];
    size_hint = λ t. elim t.stream [ none ↦ (0, some 0) | some s ↦ inner.size_hint s ];
  }

  -- The stream gives the items of the list and ends in a state that is done.
  pub data Ends : Fuse S → List A → Type ℓ where
    wait :
        {t u : Fuse S} {xs : List A} → PollsTo fuse.poll_next t (pending, u) → Ends u xs → Ends t xs
    item :
        {t u : Fuse S} {x : A} {xs : List A}
        → PollsTo fuse.poll_next t (ready (some x), u)
        → Ends u xs
        → Ends t (x ∷ xs)
    done : {t u : Fuse S} → PollsTo fuse.poll_next t (ready none, u) → is_done u ≡ true → Ends t []

  -- If the inner stream gives a list, the fused stream gives it, then ends, and `is_done` holds
  -- of the state that it ends in.
  pub fuse-Ends : {s : S} {xs : List A} → Yields inner.poll_next s xs → Ends (fused (some s)) xs
  unfolding fuse is_done
  fuse-Ends (Yields.wait {u = u} p y) =
      Ends.wait {u = fused (some u)} (p.0, λ n l. rw (p.1 n l, ready_then)) (fuse-Ends y)
  fuse-Ends (Yields.item {u = u} p y) =
      Ends.item {u = fused (some u)} (p.0, λ n l. rw (p.1 n l, ready_then)) (fuse-Ends y)
  fuse-Ends (Yields.done p) = Ends.done {u = fused none} (p.0, λ n l. rw (p.1 n l, ready_then)) refl

  fuse-done :
      (t : Fuse S) → is_done t ≡ true → (n : ℕ) → fuse.poll_next n t ≡ returned (ready none, t)
  unfolding fuse is_done
  fuse-done t e n = on_stream t.stream e
    where
      on_stream :
          (o : Option S)
          → is_done (fused o) ≡ true
          → fuse.poll_next n (fused o) ≡ returned (ready none, fused o)
      on_stream none e = refl
      on_stream (some s) e = cc

  fuse-cancel :
      {s u : S}
      → Completes inner.poll_cancel s tt u
      → Completes fuse.poll_cancel (fused (some s)) tt (fused none)
  unfolding fuse
  fuse-cancel (Completes.wait {u = u} p c) =
      Completes.wait {u = fused (some u)} (p.0, λ n l. rw (p.1 n l, ready_then)) (fuse-cancel c)
  fuse-cancel (Completes.done p) = Completes.done (p.0, λ n l. rw (p.1 n l, ready_then))
