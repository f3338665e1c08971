-- ===== src/Stream/SkipTake.antt =====
-- src/stream/adapters/skip_take.rs: `Skip` and `Take`.
use completion.Common.{
  ℕ, zero, suc, ◌+◌, ◌-◌, ◌≡◌, refl, true, false, lt→ltb, min, Option, none, some, List, arith,
  length, take as take_list, drop, ltb, ◌==◌, if◌then◌else◌, length-take, length-drop, Option-cases,
}
use native.Mathlib.Numerals.{sub-one}
use completion.Poll.{ready, out_of_fuel, returned, ready_then, map_state}
use completion.Poll.Machine.{Machine, PollsTo-suc, Yields, Yields-of_polls}
use completion.Stream.{CompletionStream, Bounds, AtMost}

pub record Skip {ℓ} (S : Type ℓ) : Type ℓ where
  pub stream : S
  pub to_skip : ℕ

pub record Take {ℓ} (S : Type ℓ) : Type ℓ where
  pub stream : S
  pub to_take : ℕ

abbrev skipping {ℓ} : {S : Type ℓ} → S → ℕ → Skip S
skipping s k = record { stream = s; to_skip = k }

abbrev taking {ℓ} : {S : Type ℓ} → S → ℕ → Take S
taking s k = record { stream = s; to_take = k }

map_high : (ℕ → ℕ) → Option ℕ → Option ℕ
map_high f none = none
map_high f (some n) = some (f n)

module _ {ℓ} {S A : Type ℓ} (inner : CompletionStream S A) where
  -- The `while` loop, and the poll behind it.
  skip_next : Machine (Skip S) (Option A)
  skip_next zero t = out_of_fuel
  skip_next (suc n) t =
      let round =
        ready_then (inner.poll_next n t.stream) (λ s. skipping s t.to_skip)
          (λ found s. elim found [
            | none ↦ returned (ready none, skipping s t.to_skip)
            | some item ↦ skip_next n (skipping s (t.to_skip - 1))
          ]) in
      if ltb 0 t.to_skip
      then round
      else map_state (λ s. skipping s t.to_skip) (inner.poll_next n t.stream)

  pub skip : CompletionStream (Skip S) A
  unfolding skip_next map_high
  skip = record {
    poll_next = skip_next;
    poll_cancel = λ n t. map_state (λ s. skipping s t.to_skip) (inner.poll_cancel n t.stream);
    size_hint = λ t.
        let (lower, upper) = inner.size_hint t.stream in
        (lower - t.to_skip, map_high (λ upper. upper - t.to_skip) upper);
  }

  pub take : CompletionStream (Take S) A
  take = record {
    poll_next = λ n t.
        if t.to_take == 0
        then returned (ready none, t)
        else ready_then (inner.poll_next n t.stream) (λ s. taking s t.to_take)
            (λ item s. returned (ready item, taking s (t.to_take - 1)));
    poll_cancel = λ n t.
        if t.to_take == 0
        then returned (ready tt, t)
        else map_state (λ s. taking s t.to_take) (inner.poll_cancel n t.stream);
    size_hint = λ t.
        if t.to_take == 0
        then (0, some 0)
        else (let (lower, upper) = inner.size_hint t.stream in
            (
              min lower t.to_take,
              some (elim upper [ none ↦ t.to_take | some upper ↦ min upper t.to_take ]),
            ));
  }

  skips : (k : ℕ) → ltb 0 (suc k) ≡ true
  skips k = lt→ltb 0 (suc k) (omega arith)

  skip-Yields :
      {s : S} {xs : List A}
      → Yields inner.poll_next s xs
      → (k : ℕ) → Yields skip_next (skipping s k) (drop k xs)
  unfolding skip_next
  skip-Yields (Yields.wait {u = u} p y) zero =
      Yields.wait {u = skipping u 0}
        (PollsTo-suc skip_next _ _ p.0 (λ n l. rw (p.1 n l, map_state))) (skip-Yields y zero)
  skip-Yields (Yields.item {u = u} p y) zero =
      Yields.item {u = skipping u 0}
        (PollsTo-suc skip_next _ _ p.0 (λ n l. rw (p.1 n l, map_state))) (skip-Yields y zero)
  skip-Yields (Yields.done {u = u} p) zero =
      Yields.done {u = skipping u 0}
        (PollsTo-suc skip_next _ _ p.0 (λ n l. rw (p.1 n l, map_state)))
  skip-Yields (Yields.wait {u = u} p y) (suc k) =
      Yields.wait {u = skipping u (suc k)}
        (PollsTo-suc skip_next _ _ p.0 (λ n l. rw (p.1 n l, skips k))) (skip-Yields y (suc k))
  skip-Yields (Yields.item {s = s} {u = u} p y) (suc k) =
      Yields-of_polls {s = skipping u k} {u = skipping s (suc k)}
        (λ r q.
          PollsTo-suc skip_next _ _ (p.0 + q.0)
            (λ n l. rw (p.1 n (omega arith), skips k, sub-one) (q.1 n (omega arith))))
        (skip-Yields y k)
  skip-Yields (Yields.done {u = u} p) (suc k) =
      Yields.done {u = skipping u (suc k)}
        (PollsTo-suc skip_next _ _ p.0 (λ n l. rw (p.1 n l, skips k)))

  takes : (k : ℕ) → (suc k == 0) ≡ false
  takes k = ground arith

  take-Yields :
      {s : S} {xs : List A}
      → Yields inner.poll_next s xs
      → (k : ℕ) → Yields take.poll_next (taking s k) (take_list k xs)
  unfolding take
  take-Yields {s} (Yields.wait p y) zero = Yields.done {u = taking s 0} (0, λ n l. refl)
  take-Yields {s} (Yields.item p y) zero = Yields.done {u = taking s 0} (0, λ n l. refl)
  take-Yields {s} (Yields.done p) zero = Yields.done {u = taking s 0} (0, λ n l. refl)
  take-Yields (Yields.wait {u = u} p y) (suc k) =
      Yields.wait {u = taking u (suc k)} (p.0, λ n l. rw (takes k, p.1 n l)) (take-Yields y (suc k))
  take-Yields (Yields.item {u = u} p y) (suc k) =
      Yields.item {u = taking u k} (p.0, λ n l. rw (takes k, p.1 n l, sub-one)) (take-Yields y k)
  take-Yields (Yields.done {u = u} p) (suc k) =
      Yields.done {u = taking u k} (p.0, λ n l. rw (takes k, p.1 n l, sub-one))

  AtMost-map_high : (o : Option ℕ) (k n : ℕ) → AtMost o n → AtMost (map_high (λ m. m - k) o) (n - k)
  unfolding map_high
  AtMost-map_high none k n h = tt
  AtMost-map_high (some m) k n h = omega arith

  -- `Skip` drops the first items.
  pub skip_lem :
      {s : S} {xs : List A} (k : ℕ)
      → Yields inner.poll_next s xs
      → Bounds (inner.size_hint s) (length xs)
      → Yields skip.poll_next (skipping s k) (drop k xs)
        × Bounds (skip.size_hint (skipping s k)) (length (drop k xs))
  unfolding skip
  skip_lem {xs = xs} k y h =
      (skip-Yields y k, rw (length-drop k xs) (omega arith, AtMost-map_high _ k (length xs) h.1))

  -- `Take` ends after so many items.
  pub take_lem :
      {s : S} {xs : List A} (k : ℕ)
      → Yields inner.poll_next s xs
      → Bounds (inner.size_hint s) (length xs)
      → Yields take.poll_next (taking s k) (take_list k xs)
        × Bounds (take.size_hint (taking s k)) (length (take_list k xs))
  unfolding take
  take_lem {s} {xs} k y h =
      (take-Yields y k, ground (arith, length-take k xs, Option-cases (inner.size_hint s).1))

  -- If the inner stream gives a list, `Skip` gives it without the first `k` items and `Take`
  -- gives the first `k`, and their size hints cover what is given, if the inner hint covers the
  -- list.
  pub skip_take_lem :
      {s : S} {xs : List A} (k : ℕ)
      → Yields inner.poll_next s xs
      → Bounds (inner.size_hint s) (length xs)
      → (Yields skip.poll_next (skipping s k) (drop k xs)
          × Bounds (skip.size_hint (skipping s k)) (length (drop k xs)))
        × (Yields take.poll_next (taking s k) (take_list k xs)
            × Bounds (take.size_hint (taking s k)) (length (take_list k xs)))
  skip_take_lem k y h = (skip_lem k y h, take_lem k y h)
