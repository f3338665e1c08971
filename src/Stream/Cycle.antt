-- ===== src/Stream/Cycle.antt =====
-- src/stream/adapters/cycle.rs. A clone of a state is that state.
use completion.Common.{
  ℕ, zero, suc, ◌+◌, ◌-◌, ◌≡◌, refl, sym, ◌∙◌, Option, none, some, List, [], ◌++◌, arith,
}
use completion.Poll.{
  Poll, pending, ready, Run, out_of_fuel, panicked, returned, ready_then, map_state, usize_limit,
}
use completion.Poll.Machine.{PollsTo, Yields, Emits}
use completion.Stream.{CompletionStream}

pub record Cycle {ℓ} (S : Type ℓ) : Type ℓ where
  pub template : S
  pub stream : S

cycle_hint : ℕ × Option ℕ → ℕ × Option ℕ
cycle_hint (zero, some zero) = (0, some 0)
cycle_hint (zero, some (suc high)) = (0, none)
cycle_hint (zero, none) = (0, none)
cycle_hint (suc low, high) = (usize_limit - 1, none)

-- `n` copies of a list, one behind the other.
pub repeat {ℓ} : {A : Type ℓ} → ℕ → List A → List A
repeat zero xs = []
repeat (suc n) xs = xs ++ repeat n xs

module _ {ℓ} {S A : Type ℓ} (inner : CompletionStream S A) where
  abbrev at : S → S → Cycle S
  at template s = record { template = template; stream = s }

  pub cycle : CompletionStream (Cycle S) A
  unfolding cycle_hint
  cycle = record {
    poll_next = λ n t. ready_then (inner.poll_next n t.stream) (at t.template) λ found s.
        elim found [
          | some val ↦ returned (ready (some val), at t.template s)
          | none ↦ map_state (at t.template) (inner.poll_next n t.template)
        ];
    poll_cancel = λ n t. map_state (at t.template) (inner.poll_cancel n t.stream);
    size_hint = λ t. cycle_hint (inner.size_hint t.template);
  }

  -- A poll of the template in place of the stream that ended, or at once.
  same_poll :
      (t : S) (r : Run (Poll (Option A) × S))
      → ready_then r (at t) (λ found s. elim found [
        | some val ↦ returned (ready (some val), at t s)
        | none ↦ map_state (at t) r
      ])
        ≡ map_state (at t) r
  same_poll t out_of_fuel = refl
  same_poll t panicked = refl
  same_poll t (returned (pending, s)) = refl
  same_poll t (returned (ready none, s)) = refl
  same_poll t (returned (ready (some a), s)) = refl

  restart-PollsTo :
      (t : S) {s u : S}
      → PollsTo inner.poll_next s (ready none, u)
      → (r : Poll (Option A) × Cycle S) → PollsTo cycle.poll_next (at t t) r
      → PollsTo cycle.poll_next (at t s) r
  unfolding cycle
  restart-PollsTo t p r q = (
    p.0 + q.0,
    λ n l.
        rw (p.1 n (omega arith), ready_then)
          (sym (same_poll t (inner.poll_next n t)) ∙ q.1 n (omega arith)),
  )

  -- What the restarted stream emits, the stream emits at its end.
  restart-Emits :
      {t s u : S} {v : Cycle S} {ys : List A}
      → PollsTo inner.poll_next s (ready none, u)
      → Emits cycle.poll_next (at t t) ys v
      → (w : Cycle S) × Emits cycle.poll_next (at t s) ys w
  restart-Emits {t} {s} p Emits.stop = (at t s, Emits.stop)
  restart-Emits {t} {v = v} p (Emits.wait q e) = (v, Emits.wait (restart-PollsTo t p _ q) e)
  restart-Emits {t} {v = v} p (Emits.item q e) = (v, Emits.item (restart-PollsTo t p _ q) e)

  round-Emits :
      {t s : S} {xs ys : List A} {v : Cycle S}
      → Yields inner.poll_next s xs
      → Emits cycle.poll_next (at t t) ys v
      → (w : Cycle S) × Emits cycle.poll_next (at t s) (xs ++ ys) w
  unfolding cycle
  round-Emits {t} (Yields.wait {u = u} p y) e =
      let (w, f) = round-Emits y e in
      (w, Emits.wait {u = at t u} (p.0, λ n l. rw (p.1 n l, ready_then)) f)
  round-Emits {t} (Yields.item {u = u} p y) e =
      let (w, f) = round-Emits y e in
      (w, Emits.item {u = at t u} (p.0, λ n l. rw (p.1 n l, ready_then)) f)
  round-Emits (Yields.done p) e = restart-Emits p e

  -- If the template gives a list, the cycle gives any number of copies of it, one behind the
  -- other.
  pub cycle-Emits :
      {t : S} {xs : List A} (k : ℕ)
      → Yields inner.poll_next t xs
      → (w : Cycle S) × Emits cycle.poll_next (at t t) (repeat k xs) w
  unfolding repeat
  cycle-Emits {t} zero y = (at t t, Emits.stop)
  cycle-Emits (suc k) y = round-Emits y (cycle-Emits k y).1
