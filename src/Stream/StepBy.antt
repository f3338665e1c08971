-- ===== src/Stream/StepBy.antt =====
-- src/stream/adapters/step_by.rs
use completion.Common.{
  ℕ, zero, suc, ◌+◌, ◌-◌, ◌/◌, ◌≤◌, ◌<◌, ◌≡◌, refl, ap, sym, ◌∙◌, Option, none, some, List, [], ◌∷◌,
  arith, length, if◌then◌else◌, ◌==◌,
}
use native.Mathlib.Decide.{dec_lt}
use native.Mathlib.Nat.{div-eq_of_lt, div-eq-sub-div, le-div_iff_mul-le, div-mul-le_self}
use completion.Poll.{Run, panicked, returned, map_state}
use completion.Poll.Machine.{Yields, Yields-map_state}
use completion.Poll.Loop.{Flow, continue, break, loop_items, emit_items, loop_items-Yields}
use completion.Stream.{CompletionStream, Bounds, AtMost}

pub record StepBy {ℓ} (S : Type ℓ) : Type ℓ where
  pub stream : S
  pub step : ℕ
  pub i : ℕ

pub new {ℓ} : {S : Type ℓ} → S → ℕ → Run (StepBy S)
new stream step =
    if step == 0 then panicked else returned (record { stream = stream; step = step; i = 0 })

-- What is left of a hint `n` at a step and an index.
hint_of : ℕ → ℕ → ℕ → ℕ
hint_of step i n = if n - i == 0 then 0 else (n - i - 1) / step + 1

hint_of-zero : (step i : ℕ) → hint_of step i 0 ≡ 0
unfolding hint_of
hint_of-zero step i = ground arith

hint_of-suc-suc : (step i n : ℕ) → hint_of step (suc i) (suc n) ≡ hint_of step i n
unfolding hint_of
hint_of-suc-suc step i n = ground arith

hint_of-suc : (step n : ℕ) → 0 < step → hint_of step 0 (suc n) ≡ suc (hint_of step (step - 1) n)
unfolding hint_of
hint_of-suc step n h = elim (dec_lt n step) [
  | yes l ↦ ground (arith, div-eq_of_lt l)
  | no l ↦ ground (arith, div-eq-sub-div {m = step} {n = n} h (omega arith))
]

div_mono : {a b k : ℕ} → 0 < k → a ≤ b → a / k ≤ b / k
div_mono {a} {b} {k} h l = (le-div_iff_mul-le h).1 (omega (arith, div-mul-le_self a k))

hint_of_mono : {m n : ℕ} (step i : ℕ) → 0 < step → m ≤ n → hint_of step i m ≤ hint_of step i n
unfolding hint_of
hint_of_mono {m} {n} step i h l =
    ground (arith, div_mono {a = m - i - 1} {b = n - i - 1} h (omega arith))

AtMost-hint_of :
    (o : Option ℕ) (n step i : ℕ)
    → 0 < step
    → AtMost o n
    → AtMost (elim o [ none ↦ none | some high ↦ some (hint_of step i high) ]) (hint_of step i n)
AtMost-hint_of none n step i k h = tt
AtMost-hint_of (some m) n step i k h = hint_of_mono step i k h

module _ {ℓ} {S A : Type ℓ} (inner : CompletionStream S A) where
  step_item : ℕ → A → ℕ → Flow (Option A) ℕ
  step_item step v i = if i == 0 then break (some v) (step - 1) else continue (i - 1)

  abbrev stepper : ℕ → S × ℕ → StepBy S
  stepper step (s, i) = record { stream = s; step = step; i = i }

  pub step_by : CompletionStream (StepBy S) A
  step_by = record {
    poll_next = λ n t.
        map_state (stepper t.step)
          (loop_items inner.poll_next (step_item t.step) (λ i. (none, i)) n (t.stream, t.i));
    poll_cancel = λ n t. map_state (λ s. record t { stream = s }) (inner.poll_cancel n t.stream);
    size_hint = λ t.
        let (low, high) = inner.size_hint t.stream in
        (
          hint_of t.step t.i low,
          elim high [ none ↦ none | some high ↦ some (hint_of t.step t.i high) ],
        );
  }

  -- The items after `i` others, and every `step`-th one behind them.
  pub every : ℕ → ℕ → List A → List A
  every step i [] = []
  every step zero (x ∷ xs) = x ∷ every step (step - 1) xs
  every step (suc i) (x ∷ xs) = every step i xs

  emit-step_item :
      (step i : ℕ) (xs : List A)
      → emit_items inner.poll_next (step_item step) (λ i. i) i xs ≡ every step i xs
  unfolding step_item every emit_items
  emit-step_item step i [] = refl
  emit-step_item step zero (x ∷ xs) = ap (x ∷◌) (emit-step_item step (step - 1) xs)
  emit-step_item step (suc i) (x ∷ xs) = ground (arith, emit-step_item step i xs)

  length-every :
      (step i : ℕ) (xs : List A) → 0 < step → length (every step i xs) ≡ hint_of step i (length xs)
  unfolding every
  length-every step i [] h = sym (hint_of-zero step i)
  length-every step zero (x ∷ xs) h =
      ap suc (length-every step (step - 1) xs h) ∙ sym (hint_of-suc step (length xs) h)
  length-every step (suc i) (x ∷ xs) h =
      length-every step i xs h ∙ sym (hint_of-suc-suc step i (length xs))

  -- If the inner stream gives a list and the step is positive, the stream gives the item behind
  -- the first `i` and every `step`-th one after it, and its size hint covers what is given, if
  -- the inner hint covers the list.
  pub step_by_lem :
      {s : S} {xs : List A} (step i : ℕ)
      → 0 < step
      → Yields inner.poll_next s xs
      → Bounds (inner.size_hint s) (length xs)
      → Yields step_by.poll_next (stepper step (s, i)) (every step i xs)
        × Bounds (step_by.size_hint (stepper step (s, i))) (length (every step i xs))
  unfolding step_by
  step_by_lem {s} {xs} step i k y h = (
    Yields-map_state (stepper step) _ step_by.poll_next (λ n s. refl)
        (rw (← emit-step_item step i xs)
          (loop_items-Yields inner.poll_next (step_item step) (λ i. i) i y)),
    rw (length-every step i xs k)
        (hint_of_mono step i k h.0, AtMost-hint_of (inner.size_hint s).1 (length xs) step i k h.1),
  )
