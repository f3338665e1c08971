-- ===== src/Stream/MaxMin.antt =====
-- src/stream/futures/max_min.rs: `Max`, `MaxBy`, `MaxByKey`, `Min`, `MinBy` and `MinByKey`.
pub mod Order
use Prim.Native.Nat.{Ordering}
use completion.Common.{
  ℕ, ◌≡◌, refl, Bool, true, false, not, Option, none, some, List, [], ◌∷◌, arith, if◌then◌else◌,
}
use completion.Poll.{map_state}
use completion.Poll.Machine.{Machine, Yields, Completes}
use completion.Poll.Loop.{Flow, continue, break, loop_items, run_items, loop-Completes}
use completion.Stream.{CompletionStream, CompletionFuture}

abbrev pub is_less : Ordering → Bool
is_less Ordering.lt = true
is_less Ordering.eq = false
is_less Ordering.gt = false

-- `MaxBy` (`best` is its field `max`) and `MinBy` (`best` is its field `min`).
pub record Best {ℓ} (S A F : Type ℓ) : Type ℓ where
  pub stream : S
  pub best : Option A
  pub compare : F

pub record BestByKey {ℓ} (S A B F : Type ℓ) : Type ℓ where
  pub stream : S
  pub best : Option (A × B)
  pub f : F

module _ {ℓ} {S A F : Type ℓ} (inner : CompletionStream S A) (call : F → A → A → Ordering × F) where
  abbrev best_at : S × (Option A × F) → Best S A F
  best_at (s, (best, f)) = record { stream = s; best = best; compare = f }

  max_item : A → Option A × F → Flow (Option A) (Option A × F)
  max_item item (none, f) = continue (some item, f)
  max_item item (some val, f) =
      let (o, f') = call f item val in
      continue ((if not (is_less o) then some item else some val), f')

  min_item : A → Option A × F → Flow (Option A) (Option A × F)
  min_item item (none, f) = continue (some item, f)
  min_item item (some val, f) =
      let (o, f') = call f item val in continue ((if is_less o then some item else some val), f')

  abbrev take_best : Option A × F → Option A × (Option A × F)
  take_best (best, f) = (best, (none, f))

  pub max_by : CompletionFuture (Best S A F) (Option A)
  max_by = record {
    poll = λ n t.
        map_state best_at
          (loop_items inner.poll_next max_item take_best n (t.stream, (t.best, t.compare)));
    poll_cancel = λ n t. map_state (λ s. record t { stream = s }) (inner.poll_cancel n t.stream);
  }

  pub min_by : CompletionFuture (Best S A F) (Option A)
  min_by = record {
    poll = λ n t.
        map_state best_at
          (loop_items inner.poll_next min_item take_best n (t.stream, (t.best, t.compare)));
    poll_cancel = λ n t. map_state (λ s. record t { stream = s }) (inner.poll_cancel n t.stream);
  }

module _ {ℓ} {S A B F : Type ℓ} (inner : CompletionStream S A) (call : F → A → B × F)
    (cmp : B → B → Ordering) where
  abbrev best_key_at : S × (Option (A × B) × F) → BestByKey S A B F
  best_key_at (s, (best, f)) = record { stream = s; best = best; f = f }

  max_key_item : A → Option (A × B) × F → Flow (Option A) (Option (A × B) × F)
  max_key_item item (none, f) =
      let (item_key, f') = call f item in continue (some (item, item_key), f')
  max_key_item item (some (val, key), f) =
      let (item_key, f') = call f item in
      continue
        ((if not (is_less (cmp item_key key)) then some (item, item_key) else some (val, key)), f')

  min_key_item : A → Option (A × B) × F → Flow (Option A) (Option (A × B) × F)
  min_key_item item (none, f) =
      let (item_key, f') = call f item in continue (some (item, item_key), f')
  min_key_item item (some (val, key), f) =
      let (item_key, f') = call f item in
      continue ((if is_less (cmp item_key key) then some (item, item_key) else some (val, key)), f')

  abbrev take_key_best : Option (A × B) × F → Option A × (Option (A × B) × F)
  take_key_best (none, f) = (none, (none, f))
  take_key_best (some (item, key), f) = (some item, (none, f))

  pub max_by_key : CompletionFuture (BestByKey S A B F) (Option A)
  max_by_key = record {
    poll = λ n t.
        map_state best_key_at
          (loop_items inner.poll_next max_key_item take_key_best n (t.stream, (t.best, t.f)));
    poll_cancel = λ n t. map_state (λ s. record t { stream = s }) (inner.poll_cancel n t.stream);
  }

  pub min_by_key : CompletionFuture (BestByKey S A B F) (Option A)
  min_by_key = record {
    poll = λ n t.
        map_state best_key_at
          (loop_items inner.poll_next min_key_item take_key_best n (t.stream, (t.best, t.f)));
    poll_cancel = λ n t. map_state (λ s. record t { stream = s }) (inner.poll_cancel n t.stream);
  }
