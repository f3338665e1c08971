-- ===== src/Stream/Flatten.antt =====
-- src/stream/adapters/flatten.rs: `Flatten` and `FlatMap`.
use completion.Common.{
  ℕ, zero, suc, ◌+◌, refl, Option, none, some, List, [], ◌∷◌, ◌++◌, arith, length, length-append,
}
use completion.Poll.{Poll, ready, Run, out_of_fuel, returned, ready_then, map_state}
use completion.Poll.Machine.{Machine, PollsTo-suc, Yields, Yields-of_polls, Yields-map_state}
use completion.Stream.{CompletionStream, Bounds, AtMost}
use completion.Stream.Map.{Map, map, map_list, map-Yields}

pub record Flatten {ℓ} (S U : Type ℓ) : Type ℓ where
  pub stream : S
  pub current : Option U

abbrev flat_at {ℓ} : {S U : Type ℓ} → S → Option U → Flatten S U
flat_at s c = record { stream = s; current = c }

flatten_upper : Option ℕ → Option ℕ → Option ℕ
flatten_upper (some zero) current = current
flatten_upper (some (suc n)) current = none
flatten_upper none current = none

module _ {ℓ} {S U A : Type ℓ} (outer : CompletionStream S U) (inner : CompletionStream U A) where
  -- The part of a round behind the current stream: the next stream becomes the current one.
  advance :
      (Flatten S U → Run (Poll (Option A) × Flatten S U))
      → ℕ
      → S
      → Run (Poll (Option A) × Flatten S U)
  advance again n s =
      ready_then (outer.poll_next n s) (λ s'. flat_at s' none)
        λ found s'. elim found [
          | none ↦ returned (ready none, flat_at s' none)
          | some stream ↦ again (flat_at s' (some stream))
        ]

  flatten_next : Machine (Flatten S U) (Option A)
  unfolding advance
  flatten_next zero t = out_of_fuel
  flatten_next (suc n) t = elim t.current [
    | none ↦ advance (flatten_next n) n t.stream
    | some current ↦
        ready_then (inner.poll_next n current) (λ c. flat_at t.stream (some c))
          λ found c. elim found [
            | some item ↦ returned (ready (some item), flat_at t.stream (some c))
            | none ↦ advance (flatten_next n) n t.stream
          ]
  ]

  pub flatten : CompletionStream (Flatten S U) A
  unfolding flatten_next flatten_upper
  flatten = record {
    poll_next = flatten_next;
    poll_cancel = λ n t. elim t.current [
      | some current ↦ map_state (λ c. flat_at t.stream (some c)) (inner.poll_cancel n current)
      | none ↦ map_state (λ s. flat_at s none) (outer.poll_cancel n t.stream)
    ];
    size_hint = λ t.
        let (current_lower, current_upper) : ℕ × Option ℕ = elim t.current [
          | none ↦ (0, some 0)
          | some c ↦ inner.size_hint c
        ] in
        (current_lower, flatten_upper (outer.size_hint t.stream).1 current_upper);
  }

  -- The streams of the list give the items of the second list, one stream behind the other.
  pub data AllYield : List U → List A → Type ℓ where
    end : AllYield [] []
    next :
        {u : U} {us : List U} {ys zs : List A}
        → Yields inner.poll_next u ys
        → AllYield us zs
        → AllYield (u ∷ us) (ys ++ zs)

  current-Yields :
      {s : S} {c : U} {ys zs : List A}
      → Yields inner.poll_next c ys
      → Yields flatten_next (flat_at s none) zs
      → Yields flatten_next (flat_at s (some c)) (ys ++ zs)
  unfolding flatten_next
  current-Yields {s} (Yields.wait {u = u} p y) z =
      Yields.wait {u = flat_at s (some u)}
        (PollsTo-suc flatten_next _ _ p.0 (λ n l. rw (p.1 n l, ready_then))) (current-Yields y z)
  current-Yields {s} (Yields.item {u = u} p y) z =
      Yields.item {u = flat_at s (some u)}
        (PollsTo-suc flatten_next _ _ p.0 (λ n l. rw (p.1 n l, ready_then))) (current-Yields y z)
  current-Yields {s} (Yields.done {s = c} p) z =
      Yields-of_polls {s = flat_at s none} {u = flat_at s (some c)}
        (λ r q.
          PollsTo-suc flatten_next _ _ (p.0 + q.0)
            (λ n l. rw (p.1 n (omega arith), ready_then) (q.1 (suc n) (omega arith))))
        z

  flatten_next-Yields :
      {s : S} {us : List U} {zs : List A}
      → Yields outer.poll_next s us
      → AllYield us zs
      → Yields flatten_next (flat_at s none) zs
  unfolding flatten_next
  flatten_next-Yields (Yields.wait {u = u} p y) a =
      Yields.wait {u = flat_at u none}
        (PollsTo-suc flatten_next _ _ p.0 (λ n l. rw (p.1 n l, ready_then)))
        (flatten_next-Yields y a)
  flatten_next-Yields (Yields.item {s = s} {u = v} {x = u} p y) (next z a) =
      Yields-of_polls {s = flat_at v (some u)} {u = flat_at s none}
        (λ r q.
          PollsTo-suc flatten_next _ _ (p.0 + q.0)
            (λ n l. rw (p.1 n (omega arith), ready_then) (q.1 n (omega arith))))
        (current-Yields z (flatten_next-Yields y a))
  flatten_next-Yields (Yields.done {u = u} p) end =
      Yields.done {u = flat_at u none}
        (PollsTo-suc flatten_next _ _ p.0 (λ n l. rw (p.1 n l, ready_then)))

  -- A fresh stream gives the items of the inner streams, one stream behind the other.
  pub flatten-Yields :
      {s : S} {us : List U} {zs : List A}
      → Yields outer.poll_next s us
      → AllYield us zs
      → Yields flatten.poll_next (flat_at s none) zs
  unfolding flatten
  flatten-Yields y a = flatten_next-Yields y a

  AtMost-flatten_upper :
      {us : List U} {zs : List A} (high current : Option ℕ) (m : ℕ)
      → AllYield us zs
      → AtMost high (length us)
      → AtMost current m
      → AtMost (flatten_upper high current) (m + length zs)
  unfolding flatten_upper
  AtMost-flatten_upper (some zero) none m a h k = tt
  AtMost-flatten_upper (some zero) (some c) m end h k = omega arith
  AtMost-flatten_upper (some zero) (some c) m (next y a) h k = absurd (omega arith)
  AtMost-flatten_upper (some (suc n)) current m a h k = tt
  AtMost-flatten_upper none current m a h k = tt

  -- If the outer stream gives streams that give the items `zs`, and the inner stream under way
  -- gives `ys`, the flattened stream gives `ys`, then `zs`; its size hint covers all of them, if
  -- the hints of the outer stream and of the stream under way cover theirs.
  pub flatten_lem :
      {s : S} {us : List U} {c : U} {ys zs : List A}
      → Yields outer.poll_next s us
      → AllYield us zs
      → Yields inner.poll_next c ys
      → Bounds (outer.size_hint s) (length us)
      → Bounds (inner.size_hint c) (length ys)
      → Yields flatten.poll_next (flat_at s (some c)) (ys ++ zs)
        × Bounds (flatten.size_hint (flat_at s (some c))) (length (ys ++ zs))
  unfolding flatten
  flatten_lem {s} {us} {c} {ys} {zs} y a z h k = (
    current-Yields z (flatten_next-Yields y a),
    rw (length-append ys zs) (
      omega (arith, k.0),
      AtMost-flatten_upper (outer.size_hint s).1 (inner.size_hint c).1 (length ys) a h.1 k.1,
    ),
  )

pub record FlatMap {ℓ} (S U F : Type ℓ) : Type ℓ where
  pub inner : Flatten (Map S F) U

module _ {ℓ} {S A U B F : Type ℓ} (outer : CompletionStream S A) (call : F → A → U × F)
    (inner : CompletionStream U B) where
  abbrev flat_mapped : Flatten (Map S F) U → FlatMap S U F
  flat_mapped t = record { inner = t }

  pub flat_map : CompletionStream (FlatMap S U F) B
  flat_map = record {
    poll_next = λ n t. map_state flat_mapped ((flatten (map outer call) inner).poll_next n t.inner);
    poll_cancel =
        λ n t. map_state flat_mapped ((flatten (map outer call) inner).poll_cancel n t.inner);
    size_hint = λ t. (flatten (map outer call) inner).size_hint t.inner;
  }

  -- If the inner stream gives a list, and the streams that the closure makes of its items, in
  -- order, give the items `zs`, one stream behind the other, the fresh `FlatMap` gives `zs`.
  pub flat_map-Yields :
      {s : S} {xs : List A} {zs : List B} (f : F)
      → Yields outer.poll_next s xs
      → AllYield (map outer call) inner (map_list outer call f xs) zs
      → Yields flat_map.poll_next (flat_mapped (flat_at (record { stream = s; f = f }) none)) zs
  unfolding flat_map
  flat_map-Yields f y a =
      Yields-map_state flat_mapped _ flat_map.poll_next (λ n t. refl)
        (flatten-Yields (map outer call) inner (map-Yields outer call f y) a)
