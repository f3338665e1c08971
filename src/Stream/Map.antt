-- ===== src/Stream/Map.antt =====
-- src/stream/adapters/map.rs: `Map`.
use completion.Common.{◌≡◌, refl, none, some, List, [], ◌∷◌, arith, length}
use completion.Poll.{ready, returned, ready_then, map_state}
use completion.Poll.Machine.{Yields}
use completion.Stream.{CompletionStream, Bounds}

pub record Map {ℓ} (S F : Type ℓ) : Type ℓ where
  pub stream : S
  pub f : F

module _ {ℓ} {S A B F : Type ℓ} (inner : CompletionStream S A) (call : F → A → B × F) where
  pub map : CompletionStream (Map S F) B
  map = record {
    poll_next = λ n t.
        ready_then (inner.poll_next n t.stream) (λ s. record t { stream = s })
          λ value s. elim value [
            | none ↦ returned (ready none, record t { stream = s })
            | some a ↦
                let (b, f') = call t.f a in returned (ready (some b), record { stream = s; f = f' })
          ];
    poll_cancel = λ n t. map_state (λ s. record t { stream = s }) (inner.poll_cancel n t.stream);
    size_hint = λ t. inner.size_hint t.stream;
  }

  unfoldable pub map_list : F → List A → List B
  map_list f [] = []
  map_list f (x ∷ xs) = let (b, f') = call f x in b ∷ map_list f' xs

  pub length-map_list : (f : F) (xs : List A) → length (map_list f xs) ≡ length xs
  unfolding map_list
  length-map_list f [] = refl
  length-map_list f (x ∷ xs) = omega (arith, length-map_list (call f x).1 xs)

  abbrev at : S → F → Map S F
  at s f = record { stream = s; f = f }

  pub map-Yields :
      {s : S} {xs : List A} (f : F)
      → Yields inner.poll_next s xs
      → Yields map.poll_next (at s f) (map_list f xs)
  unfolding map map_list
  map-Yields f (Yields.wait {u = u} p y) =
      Yields.wait {u = at u f} (p.0, λ n l. rw (p.1 n l, ready_then)) (map-Yields f y)
  map-Yields f (Yields.item {x = x} p y) =
      Yields.item (p.0, λ n l. rw (p.1 n l, ready_then)) (map-Yields (call f x).1 y)
  map-Yields f (Yields.done {u = u} p) =
      Yields.done {u = at u f} (p.0, λ n l. rw (p.1 n l, ready_then))

  -- If the inner stream gives a list, the stream gives what the closure makes of the items,
  -- called once on each, in order; the size hint covers them, if the inner hint covers the list.
  pub map_lem :
      {s : S} {xs : List A} (f : F)
      → Yields inner.poll_next s xs
      → Bounds (inner.size_hint s) (length xs)
      → Yields map.poll_next (at s f) (map_list f xs)
        × Bounds (map.size_hint (at s f)) (length (map_list f xs))
  unfolding map
  map_lem {xs = xs} f y h = (map-Yields f y, rw (length-map_list f xs) h)
