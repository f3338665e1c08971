-- ===== src/Stream/Inspect.antt =====
-- src/stream/adapters/inspect.rs
use completion.Common.{none, some, List}
use mathlib.Core.List.{foldl}
use completion.Poll.{ready, returned, ready_then, map_state}
use completion.Poll.Machine.{Emits}
use completion.Stream.{CompletionStream}

pub record Inspect {ℓ} (S F : Type ℓ) : Type ℓ where
  pub stream : S
  pub f : F

module _ {ℓ} {S A F : Type ℓ} (inner : CompletionStream S A) (call : F → A → F) where
  abbrev at : S → F → Inspect S F
  at s f = record { stream = s; f = f }

  pub inspect : CompletionStream (Inspect S F) A
  inspect = record {
    poll_next = λ n t.
        ready_then (inner.poll_next n t.stream) (λ s. at s t.f)
          (λ val s. returned (ready val, at s (elim val [ none ↦ t.f | some v ↦ call t.f v ])));
    poll_cancel = λ n t. map_state (λ s. at s t.f) (inner.poll_cancel n t.stream);
    size_hint = λ t. inner.size_hint t.stream;
  }

  -- If in some polls the inner stream gives some items, the stream gives the same items in the
  -- same polls, and the closure has been called on each of them, in order.
  pub inspect-Emits :
      {s u : S} {xs : List A}
      → Emits inner.poll_next s xs u
      → (f : F) → Emits inspect.poll_next (at s f) xs (at u (foldl call f xs))
  unfolding inspect
  inspect-Emits Emits.stop f = Emits.stop
  inspect-Emits (Emits.wait {u = u} p e) f =
      Emits.wait {u = at u f} (p.0, λ n l. rw (p.1 n l, ready_then)) (inspect-Emits e f)
  inspect-Emits (Emits.item {u = u} {x = x} p e) f =
      Emits.item {u = at u (call f x)} (p.0, λ n l. rw (p.1 n l, ready_then))
        (inspect-Emits e (call f x))
