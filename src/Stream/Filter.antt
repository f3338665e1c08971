-- ===== src/Stream/Filter.antt =====
-- src/stream/adapters/filter.rs: `Filter` and `FilterMap`.
use completion.Common.{
  ◌≤◌, ◌≡◌, refl, Bool, Option, none, some, List, [], ◌∷◌, if◌then◌else◌, arith, length,
}
use completion.Poll.{map_state}
use completion.Poll.Machine.{Yields, Yields-map_state}
use completion.Poll.Loop.{Flow, continue, break, loop_items, emit_items, loop_items-Yields}
use completion.Stream.{CompletionStream, Bounds, AtMost-of_le}

-- A closure is a state `F` with a call that returns the next state (`FnMut`).
pub record Filter {ℓ} (S F : Type ℓ) : Type ℓ where
  pub stream : S
  pub f : F

pub record FilterMap {ℓ} (S F : Type ℓ) : Type ℓ where
  pub stream : S
  pub f : F

module _ {ℓ} {S A F : Type ℓ} (inner : CompletionStream S A) (call : F → A → Bool × F) where
  filter_item : A → F → Flow (Option A) F
  filter_item item f =
      let (keep, f') = call f item in if keep then break (some item) f' else continue f'

  abbrev wrap_filter : S × F → Filter S F
  wrap_filter (s, f) = record { stream = s; f = f }

  pub filter : CompletionStream (Filter S F) A
  filter = record {
    poll_next = λ n t.
        map_state wrap_filter
          (loop_items inner.poll_next filter_item (λ f. (none, f)) n (t.stream, t.f));
    poll_cancel = λ n t. map_state (λ s. record t { stream = s }) (inner.poll_cancel n t.stream);
    size_hint = λ t. (0, (inner.size_hint t.stream).1);
  }

  -- The items that the predicate accepts, called on all of them in order.
  pub filter_list : F → List A → List A
  filter_list f [] = []
  filter_list f (x ∷ xs) =
      let (keep, f') = call f x in if keep then x ∷ filter_list f' xs else filter_list f' xs

  emit-filter_item :
      (f : F) (xs : List A)
      → emit_items inner.poll_next filter_item (λ f. f) f xs ≡ filter_list f xs
  unfolding filter_item filter_list emit_items
  emit-filter_item f [] = refl
  emit-filter_item f (x ∷ xs) = ground (arith, emit-filter_item (call f x).1 xs)

  length-filter_list : (f : F) (xs : List A) → length (filter_list f xs) ≤ length xs
  unfolding filter_list
  length-filter_list f [] = omega arith
  length-filter_list f (x ∷ xs) = ground (arith, length-filter_list (call f x).1 xs)

  -- The stream gives the items that the closure accepts, and its hint covers them.
  pub filter-Yields :
      {s : S} {xs : List A} (f : F)
      → Yields inner.poll_next s xs
      → Bounds (inner.size_hint s) (length xs)
      → Yields filter.poll_next (wrap_filter (s, f)) (filter_list f xs)
        × Bounds (filter.size_hint (wrap_filter (s, f))) (length (filter_list f xs))
  unfolding filter
  filter-Yields {xs = xs} f y h = (
    Yields-map_state wrap_filter _ filter.poll_next (λ n s. refl)
        (rw (← emit-filter_item f xs) (loop_items-Yields inner.poll_next filter_item (λ f. f) f y)),
    (omega arith, AtMost-of_le _ (length-filter_list f xs) h.1),
  )

module _ {ℓ} {S A B F : Type ℓ} (inner : CompletionStream S A) (call : F → A → Option B × F) where
  filter_map_item : A → F → Flow (Option B) F
  filter_map_item item f =
      let (mapped, f') = call f item in
      elim mapped [ some b ↦ break (some b) f' | none ↦ continue f' ]

  abbrev wrap_filter_map : S × F → FilterMap S F
  wrap_filter_map (s, f) = record { stream = s; f = f }

  pub filter_map : CompletionStream (FilterMap S F) B
  filter_map = record {
    poll_next = λ n t.
        map_state wrap_filter_map
          (loop_items inner.poll_next filter_map_item (λ f. (none, f)) n (t.stream, t.f));
    poll_cancel = λ n t. map_state (λ s. record t { stream = s }) (inner.poll_cancel n t.stream);
    size_hint = λ t. (0, (inner.size_hint t.stream).1);
  }

  -- The values that the closure makes of the items, called on all of them in order.
  pub filter_map_list : F → List A → List B
  filter_map_list f [] = []
  filter_map_list f (x ∷ xs) =
      let (mapped, f') = call f x in
      elim mapped [ some b ↦ b ∷ filter_map_list f' xs | none ↦ filter_map_list f' xs ]

  emit-filter_map_item :
      (f : F) (xs : List A)
      → emit_items inner.poll_next filter_map_item (λ f. f) f xs ≡ filter_map_list f xs
  unfolding filter_map_item filter_map_list emit_items
  emit-filter_map_item f [] = refl
  emit-filter_map_item f (x ∷ xs) = ground (arith, emit-filter_map_item (call f x).1 xs)

  length-filter_map_list : (f : F) (xs : List A) → length (filter_map_list f xs) ≤ length xs
  unfolding filter_map_list
  length-filter_map_list f [] = omega arith
  length-filter_map_list f (x ∷ xs) = ground (arith, length-filter_map_list (call f x).1 xs)

  -- The stream gives the values that the closure makes of the items, and its hint covers them.
  pub filter_map-Yields :
      {s : S} {xs : List A} (f : F)
      → Yields inner.poll_next s xs
      → Bounds (inner.size_hint s) (length xs)
      → Yields filter_map.poll_next (wrap_filter_map (s, f)) (filter_map_list f xs)
        × Bounds (filter_map.size_hint (wrap_filter_map (s, f))) (length (filter_map_list f xs))
  unfolding filter_map
  filter_map-Yields {xs = xs} f y h = (
    Yields-map_state wrap_filter_map _ filter_map.poll_next (λ n s. refl)
        (rw (← emit-filter_map_item f xs)
          (loop_items-Yields inner.poll_next filter_map_item (λ f. f) f y)),
    (omega arith, AtMost-of_le _ (length-filter_map_list f xs) h.1),
  )

module _ {ℓ} {S A B F : Type ℓ} (inner : CompletionStream S A) (accept : F → A → Bool × F)
    (convert : F → A → Option B × F) where
  -- If the inner stream gives a list, `Filter` gives the items that its closure accepts, and
  -- `FilterMap` the values that its closure makes of the items, each closure called once on
  -- every item in order; their size hints cover what is given, if the inner hint covers the
  -- list.
  pub filter_lem :
      {s : S} {xs : List A} (f : F)
      → Yields inner.poll_next s xs
      → Bounds (inner.size_hint s) (length xs)
      → (Yields
            (filter inner accept).poll_next
            (wrap_filter inner accept (s, f))
            (filter_list inner accept f xs)
          × Bounds
              ((filter inner accept).size_hint (wrap_filter inner accept (s, f)))
              (length (filter_list inner accept f xs)))
        × (Yields
              (filter_map inner convert).poll_next
              (wrap_filter_map inner convert (s, f))
              (filter_map_list inner convert f xs)
            × Bounds
                ((filter_map inner convert).size_hint (wrap_filter_map inner convert (s, f)))
                (length (filter_map_list inner convert f xs)))
  filter_lem f y h = (filter-Yields inner accept f y h, filter_map-Yields inner convert f y h)
