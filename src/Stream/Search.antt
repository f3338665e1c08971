-- ===== src/Stream/Search.antt =====
-- src/stream/futures/all_any.rs and find.rs: `All`, `Any`, `Find` and `FindMap`.
use completion.Common.{
  ◌≡◌, refl, Bool, true, false, not, Option, none, some, List, [], ◌∷◌, arith, if◌then◌else◌,
}
use completion.Poll.{map_state}
use completion.Poll.Machine.{Yields, Completes}
use completion.Poll.Loop.{Flow, continue, break, Leaves, loop_items, run_items, loop-Completes}
use completion.Stream.{CompletionStream, CompletionFuture}

-- The four futures hold a stream and a closure; they differ in what they do with an item.
pub record Searcher {ℓ} (S F : Type ℓ) : Type ℓ where
  pub stream : S
  pub f : F

abbrev pub searcher {ℓ} : {S F : Type ℓ} → S × F → Searcher S F
searcher (s, f) = record { stream = s; f = f }

module _ {ℓ} {S A F : Type ℓ} (inner : CompletionStream S A) (call : F → A → Bool × F) where
  all_item : A → F → Flow Bool F
  all_item item f =
      let (holds, f') = call f item in if not holds then break false f' else continue f'

  pub all : CompletionFuture (Searcher S F) (Bool)
  all = record {
    poll = λ n t.
        map_state searcher (loop_items inner.poll_next all_item (λ f. (true, f)) n (t.stream, t.f));
    poll_cancel = λ n t. map_state (λ s. record t { stream = s }) (inner.poll_cancel n t.stream);
  }

  -- Whether the closure holds of all items, and what is left behind the first that it refuses.
  pub all_list : F → List A → Bool × Option (List A)
  all_list f [] = (true, none)
  all_list f (x ∷ xs) =
      let (holds, f') = call f x in if holds then all_list f' xs else (false, some xs)

  run-all_item :
      (f : F) (xs : List A)
      → ((run_items inner.poll_next all_item (λ f. (true, f)) f xs).0 ≡ (all_list f xs).0)
        × ((run_items inner.poll_next all_item (λ f. (true, f)) f xs).2 ≡ (all_list f xs).1)
  unfolding all_item all_list run_items
  run-all_item f [] = (refl, refl)
  run-all_item f (x ∷ xs) = ground (arith, run-all_item (call f x).1 xs)

  -- `all` completes with that answer and leaves the rest of the stream.
  pub all-Completes :
      {s : S} {xs : List A} (f : F)
      → Yields inner.poll_next s xs
      → (v : S) × (f' : F) × Completes all.poll
          (searcher (s, f))
          (all_list f xs).0
          (searcher (v, f'))
        × Leaves inner.poll_next v (all_list f xs).1
  unfolding all
  all-Completes {xs = xs} f y =
      let (r, l) = run-all_item f xs in
      loop-Completes inner.poll_next all_item _ searcher all.poll (λ n z. refl) f y r l

module _ {ℓ} {S A F : Type ℓ} (inner : CompletionStream S A) (call : F → A → Bool × F) where
  any_item : A → F → Flow Bool F
  any_item item f = let (holds, f') = call f item in if holds then break true f' else continue f'

  pub any : CompletionFuture (Searcher S F) (Bool)
  any = record {
    poll = λ n t.
        map_state searcher
          (loop_items inner.poll_next any_item (λ f. (false, f)) n (t.stream, t.f));
    poll_cancel = λ n t. map_state (λ s. record t { stream = s }) (inner.poll_cancel n t.stream);
  }

  -- Whether the closure holds of an item, and what is left behind the first such item.
  pub any_list : F → List A → Bool × Option (List A)
  any_list f [] = (false, none)
  any_list f (x ∷ xs) =
      let (holds, f') = call f x in if holds then (true, some xs) else any_list f' xs

  run-any_item :
      (f : F) (xs : List A)
      → ((run_items inner.poll_next any_item (λ f. (false, f)) f xs).0 ≡ (any_list f xs).0)
        × ((run_items inner.poll_next any_item (λ f. (false, f)) f xs).2 ≡ (any_list f xs).1)
  unfolding any_item any_list run_items
  run-any_item f [] = (refl, refl)
  run-any_item f (x ∷ xs) = ground (arith, run-any_item (call f x).1 xs)

  -- `any` completes with that answer and leaves the rest of the stream.
  pub any-Completes :
      {s : S} {xs : List A} (f : F)
      → Yields inner.poll_next s xs
      → (v : S) × (f' : F) × Completes any.poll
          (searcher (s, f))
          (any_list f xs).0
          (searcher (v, f'))
        × Leaves inner.poll_next v (any_list f xs).1
  unfolding any
  any-Completes {xs = xs} f y =
      let (r, l) = run-any_item f xs in
      loop-Completes inner.poll_next any_item _ searcher any.poll (λ n z. refl) f y r l

module _ {ℓ} {S A F : Type ℓ} (inner : CompletionStream S A) (call : F → A → Bool × F) where
  find_item : A → F → Flow (Option A) F
  find_item item f =
      let (holds, f') = call f item in if holds then break (some item) f' else continue f'

  pub find : CompletionFuture (Searcher S F) (Option A)
  find = record {
    poll = λ n t.
        map_state searcher
          (loop_items inner.poll_next find_item (λ f. (none, f)) n (t.stream, t.f));
    poll_cancel = λ n t. map_state (λ s. record t { stream = s }) (inner.poll_cancel n t.stream);
  }

  -- The first item that the closure accepts, and what is left behind it.
  pub find_list : F → List A → Option A × Option (List A)
  find_list f [] = (none, none)
  find_list f (x ∷ xs) =
      let (holds, f') = call f x in if holds then (some x, some xs) else find_list f' xs

  run-find_item :
      (f : F) (xs : List A)
      → ((run_items inner.poll_next find_item (λ f. (none, f)) f xs).0 ≡ (find_list f xs).0)
        × ((run_items inner.poll_next find_item (λ f. (none, f)) f xs).2 ≡ (find_list f xs).1)
  unfolding find_item find_list run_items
  run-find_item f [] = (refl, refl)
  run-find_item f (x ∷ xs) = ground (arith, run-find_item (call f x).1 xs)

  -- `find` completes with that item and leaves the rest of the stream.
  pub find-Completes :
      {s : S} {xs : List A} (f : F)
      → Yields inner.poll_next s xs
      → (v : S) × (f' : F) × Completes find.poll
          (searcher (s, f))
          (find_list f xs).0
          (searcher (v, f'))
        × Leaves inner.poll_next v (find_list f xs).1
  unfolding find
  find-Completes {xs = xs} f y =
      let (r, l) = run-find_item f xs in
      loop-Completes inner.poll_next find_item _ searcher find.poll (λ n z. refl) f y r l

module _ {ℓ} {S A B F : Type ℓ} (inner : CompletionStream S A) (call : F → A → Option B × F) where
  find_map_item : A → F → Flow (Option B) F
  find_map_item item f =
      let (mapped, f') = call f item in
      elim mapped [ some b ↦ break (some b) f' | none ↦ continue f' ]

  pub find_map : CompletionFuture (Searcher S F) (Option B)
  find_map = record {
    poll = λ n t.
        map_state searcher
          (loop_items inner.poll_next find_map_item (λ f. (none, f)) n (t.stream, t.f));
    poll_cancel = λ n t. map_state (λ s. record t { stream = s }) (inner.poll_cancel n t.stream);
  }

  -- The first value that the closure makes of an item, and what is left behind that item.
  pub find_map_list : F → List A → Option B × Option (List A)
  find_map_list f [] = (none, none)
  find_map_list f (x ∷ xs) =
      let (mapped, f') = call f x in
      elim mapped [ some b ↦ (some b, some xs) | none ↦ find_map_list f' xs ]

  run-find_map_item :
      (f : F) (xs : List A)
      → ((run_items inner.poll_next find_map_item (λ f. (none, f)) f xs).0 ≡ (find_map_list f xs).0)
        × ((run_items inner.poll_next find_map_item (λ f. (none, f)) f xs).2
            ≡ (find_map_list f xs).1)
  unfolding find_map_item find_map_list run_items
  run-find_map_item f [] = (refl, refl)
  run-find_map_item f (x ∷ xs) = ground (arith, run-find_map_item (call f x).1 xs)

  -- `find_map` completes with that value and leaves the rest of the stream.
  pub find_map-Completes :
      {s : S} {xs : List A} (f : F)
      → Yields inner.poll_next s xs
      → (v : S) × (f' : F) × Completes find_map.poll
          (searcher (s, f))
          (find_map_list f xs).0
          (searcher (v, f'))
        × Leaves inner.poll_next v (find_map_list f xs).1
  unfolding find_map
  find_map-Completes {xs = xs} f y =
      let (r, l) = run-find_map_item f xs in
      loop-Completes inner.poll_next find_map_item _ searcher find_map.poll (λ n z. refl) f y r l

module _ {ℓ} {S A F : Type ℓ} (inner : CompletionStream S A) (call : F → A → Bool × F) where
  -- If the stream gives a list, `all` completes with whether the closure accepts every item, and
  -- `any` with whether it accepts one; each leaves the stream just behind the item that settled
  -- the answer, if one did.
  pub all_any_lem :
      {s : S} {xs : List A} (f : F)
      → Yields inner.poll_next s xs
      → ((v : S) × (f' : F) × Completes
            (all inner call).poll
            (searcher (s, f))
            (all_list inner call f xs).0
            (searcher (v, f'))
          × Leaves inner.poll_next v (all_list inner call f xs).1)
        × ((v : S) × (f' : F) × Completes
              (any inner call).poll
              (searcher (s, f))
              (any_list inner call f xs).0
              (searcher (v, f'))
            × Leaves inner.poll_next v (any_list inner call f xs).1)
  all_any_lem f y = (all-Completes inner call f y, any-Completes inner call f y)

module _ {ℓ} {S A B F : Type ℓ} (inner : CompletionStream S A) (accept : F → A → Bool × F)
    (convert : F → A → Option B × F) where
  -- If the stream gives a list, `find` completes with the first item that its closure accepts
  -- and `find_map` with the first value that its closure makes of an item; each leaves the
  -- stream just behind that item, if there is one.
  pub find_lem :
      {s : S} {xs : List A} (f : F)
      → Yields inner.poll_next s xs
      → ((v : S) × (f' : F) × Completes
            (find inner accept).poll
            (searcher (s, f))
            (find_list inner accept f xs).0
            (searcher (v, f'))
          × Leaves inner.poll_next v (find_list inner accept f xs).1)
        × ((v : S) × (f' : F) × Completes
              (find_map inner convert).poll
              (searcher (s, f))
              (find_map_list inner convert f xs).0
              (searcher (v, f'))
            × Leaves inner.poll_next v (find_map_list inner convert f xs).1)
  find_lem f y = (find-Completes inner accept f y, find_map-Completes inner convert f y)
