-- ===== src/Stream/Chain.antt =====
-- src/stream/adapters/chain.rs
use completion.Common.{◌+◌, refl, Option, none, some, List, ◌++◌, arith, length, length-append}
use completion.Poll.{ready, returned, ready_then, map_state, and_then, saturating_add, checked_add}
use completion.Poll.Machine.{Yields, Yields-map_state, Yields-of_polls}
use completion.Stream.{CompletionStream, Bounds, checked_add-AtMost}

pub record Chain {ℓ} (S T : Type ℓ) : Type ℓ where
  pub a : Option S
  pub b : T

module _ {ℓ} {S T A : Type ℓ} (first : CompletionStream S A) (second : CompletionStream T A) where
  abbrev with_b : Option S → T → Chain S T
  with_b a b = record { a = a; b = b }

  pub chain : CompletionStream (Chain S T) A
  chain = record {
    poll_next = λ n t. elim t.a [
      | none ↦ map_state (with_b none) (second.poll_next n t.b)
      | some a ↦
          ready_then (first.poll_next n a) (λ a'. with_b (some a') t.b)
            λ found a'. elim found [
              | some item ↦ returned (ready (some item), with_b (some a') t.b)
              | none ↦ map_state (with_b none) (second.poll_next n t.b)
            ]
    ];
    poll_cancel = λ n t. elim t.a [
      | none ↦ map_state (with_b none) (second.poll_cancel n t.b)
      | some a ↦ map_state (λ a'. with_b (some a') t.b) (first.poll_cancel n a)
    ];
    size_hint = λ t. elim t.a [
      | none ↦ second.size_hint t.b
      | some a ↦
          (let (a_min, a_max) = first.size_hint a in
            let (b_min, b_max) = second.size_hint t.b in
            (saturating_add a_min b_min, and_then a_max (λ x. and_then b_max (checked_add x))))
    ];
  }

  second-Yields :
      {u : T} {ys : List A}
      → Yields second.poll_next u ys
      → Yields chain.poll_next (with_b none u) ys
  unfolding chain
  second-Yields = Yields-map_state (with_b none) second.poll_next _ (λ n s. refl)

  chain-Yields :
      {s : S} {u : T} {xs ys : List A}
      → Yields first.poll_next s xs
      → Yields second.poll_next u ys
      → Yields chain.poll_next (with_b (some s) u) (xs ++ ys)
  unfolding chain
  chain-Yields {u = u} (Yields.wait {u = v} p y) z =
      Yields.wait {u = with_b (some v) u} (p.0, λ n l. rw (p.1 n l, ready_then)) (chain-Yields y z)
  chain-Yields {u = u} (Yields.item {u = v} p y) z =
      Yields.item {u = with_b (some v) u} (p.0, λ n l. rw (p.1 n l, ready_then)) (chain-Yields y z)
  chain-Yields {u = u} (Yields.done {s = s} p) z =
      Yields-of_polls {s = with_b none u} {u = with_b (some s) u}
        (λ r q. (p.0 + q.0, λ n l. rw (p.1 n (omega arith), ready_then) (q.1 n (omega arith))))
        (second-Yields z)

  -- If both streams give a list, a fresh chain gives the items of the first stream, then those
  -- of the second, and its size hint covers them, if both hints cover theirs.
  pub chain_lem :
      {s : S} {u : T} {xs ys : List A}
      → Yields first.poll_next s xs
      → Yields second.poll_next u ys
      → Bounds (first.size_hint s) (length xs)
      → Bounds (second.size_hint u) (length ys)
      → Yields chain.poll_next (with_b (some s) u) (xs ++ ys)
        × Bounds (chain.size_hint (with_b (some s) u)) (length (xs ++ ys))
  unfolding chain
  chain_lem {s} {u} {xs} {ys} y z h k =
      (chain-Yields y z, rw (length-append xs ys) (omega arith, checked_add-AtMost _ _ _ _ h.1 k.1))
