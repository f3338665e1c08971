-- ===== src/Poll/Drive.antt =====
-- A call that polls a part of its state and goes on when the part is ready.
use completion.Common.{ℕ, suc, ◌+◌, ◌≡◌, refl, ◌∙◌, arith}
use completion.Poll.{
  Poll, pending, ready, Run, out_of_fuel, panicked, returned, ready_then, map_state,
}
use completion.Poll.Machine.{Machine, PollsTo, PollsTo-suc, Completes, Completes-of_polls}

module _ {ℓ κ μ ν} {S : Type ℓ} {A : Type κ} {T : Type μ} {R : Type ν} (inner : Machine S A)
    (outer : Machine T R) (wrap : S → T) (onward : ℕ → A → S → Run (Poll R × T))
    (step : (n : ℕ) (s : S) → outer (suc n) (wrap s) ≡ ready_then (inner n s) wrap (onward n)) where
  polls_pending :
      {s u : S} → PollsTo inner s (pending, u) → PollsTo outer (wrap s) (pending, wrap u)
  polls_pending {s} p = PollsTo-suc outer _ _ p.0 (λ n l. step n s ∙ rw (p.1 n l, ready_then) refl)

  -- The result of the part ends the call.
  pub drive_end :
      {s u : S} {a : A} {r : R} {t : T}
      → Completes inner s a u
      → ((n : ℕ) → onward n a u ≡ returned (ready r, t))
      → Completes outer (wrap s) r t
  drive_end (Completes.wait p c) e = Completes.wait (polls_pending p) (drive_end c e)
  drive_end {s} (Completes.done p) e =
      Completes.done (PollsTo-suc outer _ _ p.0 (λ n l. step n s ∙ rw (p.1 n l, ready_then) (e n)))

  -- With the result of the part the call goes on from the state `v`.
  pub drive_on :
      {s u : S} {a : A} {r : R} {v t : T}
      → Completes inner s a u
      → ((n : ℕ) → onward n a u ≡ outer n v)
      → Completes outer v r t
      → Completes outer (wrap s) r t
  drive_on (Completes.wait p c) e d = Completes.wait (polls_pending p) (drive_on c e d)
  drive_on {s} (Completes.done p) e d =
      Completes-of_polls
        (λ r q.
          PollsTo-suc outer _ _ (p.0 + q.0)
            (λ n l. step n s ∙ rw (p.1 n (omega arith), ready_then) (e n ∙ q.1 n (omega arith))))
        d

  -- The call goes on as the next round from the state `v` does.
  pub drive_round :
      {s u : S} {a : A} {r : R} {v t : T}
      → Completes inner s a u
      → ((n : ℕ) → onward n a u ≡ outer (suc n) v)
      → Completes outer v r t
      → Completes outer (wrap s) r t
  drive_round (Completes.wait p c) e d = Completes.wait (polls_pending p) (drive_round c e d)
  drive_round {s} (Completes.done p) e d =
      Completes-of_polls
        (λ r q. PollsTo-suc outer _ _ (p.0 + q.0) (λ n l.
          step n s ∙ rw (p.1 n (omega arith), ready_then) (e n ∙ q.1 (suc n) (omega arith))))
        d

-- A call that passes on the result of a part.
pub map_state-ready_then {ℓ μ ν} :
    {A : Type ℓ} {S : Type μ} {T : Type ν} (wrap : S → T) (r : Run (Poll A × S))
    → map_state wrap r ≡ ready_then r wrap (λ a u. returned (ready a, wrap u))
map_state-ready_then wrap out_of_fuel = refl
map_state-ready_then wrap panicked = refl
map_state-ready_then wrap (returned (pending, s)) = refl
map_state-ready_then wrap (returned (ready a, s)) = refl
