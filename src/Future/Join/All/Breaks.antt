-- ===== src/Future/Join/All/Breaks.antt =====
-- The calls of `poll` behind a break, which cancel the other futures.
use completion.Common.{
  ℕ, ◌+◌, ◌≡◌, ◌<◌, refl, sym, ◌∙◌, subst, List, [], ◌∷◌, length, arith, ◌⊎◌, inl, inr,
  Each-Matches,
}
use completion.Poll.{Poll, pending, ready, Run, returned}
use completion.Future.Join.{ControlFlow, break, continue, ControlFlowFuture, FutureState}
use completion.Future.Join as Join
use completion.Future.Join.All.Settled.{settled_one}
use completion.Future.Join.All.History.{Left, IsLeft, Broke}
use completion.Future.Join.All.Rounds.{IsCounted}
use completion.Future.Join.All.Whole.{Gives, Returns, poll_with-returned}
use completion.Future.Join.All.Joined.{IsQuiet, poll_cancel-IsCalm}
use completion.Future.Join.All.{Shared, JoinAll, State, poll, poll_broken}
use completion.Future.Join.All.Results.{BreakResult, registered, registered-IsCounted}

empty_or_not : (l : List ℕ) → (l ≡ []) ⊎ (0 < length l)
empty_or_not [] = inl refl
empty_or_not (x ∷ xs) = inr (omega arith)

module _ {Q W F B C P : Type 0} (shared : Shared Q W) (fut : ControlFlowFuture F B C P)
    (futures : List F) (quiet : IsQuiet fut) where
  -- The result of a call of `poll_broken` in the state `t`.
  abbrev pub Joins : ℕ → JoinAll Q W F B C P → Type 0
  Joins n t =
      (p : Poll (ControlFlow B (List (FutureState F C)))) × ((u : JoinAll Q W F B C P)
        × ((poll_broken shared fut n t ≡ returned (p, u)) × BreakResult shared fut futures p u))

  -- The cancelling that follows a break, given what the round of calls gives.
  pub broken_lem :
      (n : ℕ) (t : JoinAll Q W F B C P) (b : B)
      → Broke fut futures b
      → length t.futures ≡ length futures
      → Returns shared
          (Join.poll_cancel fut)
          (IsLeft fut futures)
          (IsLeft fut futures)
          (λ p. ⊥)
          (poll_cancel-IsCalm fut futures quiet)
          n
          (record t { state = State.broken b })
      → Joins n (record t { state = State.broken b })
  unfolding poll_broken Gives BreakResult
  broken_lem n t b broke whole (break p, (u, (e, g))) = absurd g.0
  broken_lem n t b broke whole (continue pending, (u, (e, g))) =
      let (lt, left, clean, empty, same) = g in
      (
        pending,
        (
          u,
          (
            rw (poll_broken, e) refl,
            (
              lt,
              record {
                value = b;
                broken = same.same_state;
                broke = broke;
                whole = same.same_length ∙ whole;
                left = left;
                rounds = elim (empty_or_not (shared.contents u.to_poll)) [
                  | inl k ↦ inl (empty k)
                  | inr l ↦ inr l
                ];
              },
            ),
          ),
        ),
      )
  broken_lem n t b broke whole (continue (ready st), (u, (e, g))) = (
    ready (break b),
    (
      u,
      (
        rw (poll_broken, e, g.0) refl,
        (
          broke,
          Each-Matches (Left fut) (λ st. settled_one st ≡ 1) futures u.futures (g.3 ∙ whole) g.2
              g.1,
        ),
      ),
    ),
  )

  -- A call behind a break.
  pub poll-breaking :
      (n : ℕ) (s : JoinAll Q W F B C P) (b : B)
      → length (shared.contents s.to_poll) + length s.futures < n
      → s.state ≡ State.broken b
      → Broke fut futures b
      → length s.futures ≡ length futures
      → IsCounted shared (IsLeft fut futures) s
      → (p : Poll (ControlFlow B (List (FutureState F C)))) × ((t : JoinAll Q W F B C P) × ((poll
                shared fut n s
              ≡ returned (p, t))
            × BreakResult shared fut futures p t))
  unfolding poll
  poll-breaking n s b l h broke whole c =
      let (p, (t, (e, j))) = broken_lem n (registered shared fut futures s) b broke whole (
        poll_with-returned shared (Join.poll_cancel fut) (IsLeft fut futures) (IsLeft fut futures)
          (λ p. ⊥) (poll_cancel-IsCalm fut futures quiet) n
          (record (registered shared fut futures s) { state = State.broken b }) (omega (arith, l))
          (omega (arith, l))
          (inl (counted (registered-IsCounted shared fut futures (IsLeft fut futures) s c)))) in
      (p, (t, (step s.state (returned (p, t)) h e, j)))
    where
      counted :
          IsCounted shared (IsLeft fut futures) (registered shared fut futures s)
          → IsCounted shared
              (IsLeft fut futures)
              (record (registered shared fut futures s) { state = State.broken b })
      counted c = record {
        fit = record {
          is_queued = record { marks = c.fit.is_queued.marks; room = c.fit.is_queued.room };
          same_length = c.fit.same_length;
          fine = c.fit.fine;
        };
        once = c.once;
        count = c.count;
        woken_running = c.woken_running;
      }

      step :
          (st : State B P)
          (r : Run (Poll (ControlFlow B (List (FutureState F C))) × JoinAll Q W F B C P))
          → st ≡ State.broken b
          → poll_broken shared fut n
              (record (registered shared fut futures s) { state = State.broken b })
            ≡ r
          → poll shared fut n (record s { state = st }) ≡ r
      step (State.broken b') r h e =
          subst
            (λ st.
              poll_broken shared fut n (record (registered shared fut futures s) { state = st })
              ≡ r)
            (sym h) e
      step State.running r h e = absurd (cc)
      step State.cancelling r h e = absurd (cc)
      step (State.panicked p) r h e = absurd (cc)
      step State.done r h e = absurd (cc)
