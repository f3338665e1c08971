-- ===== src/Future/Join/All/Polls.antt =====
-- The calls of `poll` before a break.
use completion.Common.{
  ℕ, ◌+◌, ◌≡◌, ◌<◌, refl, sym, ap, ◌∙◌, subst, false, List, [], length, arith, ◌⊎◌, inl, inr,
  Result, ok, err, Each-Matches,
}
use completion.Poll.{Poll, pending, ready, Run, returned, ◌>>=◌}
use completion.Future.Join.{ControlFlow, break, continue, ControlFlowFuture, FutureState}
use completion.Future.Join as Join
use completion.Future.Join.All.Settled.{settled_one}
use completion.Future.Join.All.History.{Continues, Joined, IsJoined, IsLeft}
use completion.Future.Join.All.Rounds.{IsFit, IsCounted}
use completion.Future.Join.All.Whole.{
  Gives, IsStarted, IsClean, poll_with-first, poll_with-returned,
}
use completion.Future.Join.All.Joined.{
  IsQuiet, NoPanic, poll-IsCalm, poll_cancel-IsCalm, outputs-Matches, Joined-IsLive,
}
use completion.Future.Join.All.{Shared, JoinAll, State, poll_with, poll, after_run}
use completion.Future.Join.All.Results.{
  IsRunning, JoinResult, BreakResult-JoinResult, registered, registered-IsFit, registered-IsCounted,
}
use completion.Future.Join.All.Breaks.{broken_lem}

module _ {Q W F B C P : Type 0} (shared : Shared Q W) (fut : ControlFlowFuture F B C P)
    (futures : List F) (quiet : IsQuiet fut) where
  abbrev Results : ℕ → JoinAll Q W F B C P → Type 0
  Results n s =
      (p : Poll (ControlFlow B (List (FutureState F C)))) × ((t : JoinAll Q W F B C P) × ((poll
              shared fut n s
            ≡ returned (p, t))
          × JoinResult shared fut futures p t))

  pub poll_lem :
      (n : ℕ) (s : JoinAll Q W F B C P)
      → length (shared.contents s.to_poll) + length s.futures < n
      → IsRunning shared fut futures s
      → Results n s
  unfolding poll Gives JoinResult
  poll_lem n s l h =
      let (a, (u, (e, g))) =
        poll_with-returned shared (Join.poll fut) (IsJoined fut futures) (IsLeft fut futures)
          (NoPanic fut futures) (poll-IsCalm fut futures quiet) n (registered shared fut futures s)
          (omega (arith, l)) (omega (arith, l)) (started h.rounds) in
      go a u e g
    where
      started :
          IsCounted shared (IsJoined fut futures) s
            ⊎ (IsFit shared (IsJoined fut futures) s
                × (s.polled_once ≡ false)
                × (shared.contents s.to_poll ≡ []))
          → IsStarted shared
              (Join.poll fut)
              (IsJoined fut futures)
              (IsLeft fut futures)
              (NoPanic fut futures)
              (poll-IsCalm fut futures quiet)
              (registered shared fut futures s)
      started (inl c) = inl (registered-IsCounted shared fut futures (IsJoined fut futures) s c)
      started (inr (c, once, e)) =
          inr (registered-IsFit shared fut futures (IsJoined fut futures) s c, once)

      clean :
          IsCounted shared (IsJoined fut futures) s
            ⊎ (IsFit shared (IsJoined fut futures) s
                × (s.polled_once ≡ false)
                × (shared.contents s.to_poll ≡ []))
          → IsClean shared
              (Join.poll fut)
              (IsJoined fut futures)
              (IsLeft fut futures)
              (NoPanic fut futures)
              (poll-IsCalm fut futures quiet)
              (registered shared fut futures s)
      clean (inl c) = inl (registered-IsCounted shared fut futures (IsJoined fut futures) s c)
      clean (inr (c, once, e)) = inr e

      step :
          (st : State B P)
          (r : Run (ControlFlow (Result B P) (Poll (State B P)) × JoinAll Q W F B C P))
          → st ≡ State.running
          → poll_with shared
              (Join.poll fut)
              n
              (record (registered shared fut futures s) { state = st })
            ≡ r
          → poll shared fut n (record s { state = st }) ≡ (r >>= after_run shared fut n)
      step State.running r h e = ap (λ r. r >>= after_run shared fut n) e
      step (State.broken b) r h e = absurd (cc)
      step State.cancelling r h e = absurd (cc)
      step (State.panicked p) r h e = absurd (cc)
      step State.done r h e = absurd (cc)

      go :
          (a : ControlFlow (Result B P) (Poll (State B P))) (u : JoinAll Q W F B C P)
          → poll_with shared (Join.poll fut) n (registered shared fut futures s) ≡ returned (a, u)
          → Gives shared
              (Join.poll fut)
              (IsJoined fut futures)
              (IsLeft fut futures)
              (NoPanic fut futures)
              (poll-IsCalm fut futures quiet)
              (registered shared fut futures s)
              a
              u
          → Results n s
      go (continue pending) u e (lt, fine, counted, empty, same) = (
        pending,
        (
          u,
          (
            step s.state (returned (continue pending, u)) h.running e,
            (
              lt,
              inl (record {
                running = same.same_state ∙ h.running;
                whole = same.same_length ∙ h.whole;
                rounds = inl (counted (clean h.rounds));
              }),
            ),
          ),
        ),
      )
      go (continue (ready st)) u e g =
          let (cs, (q, k)) =
            outputs-Matches (Joined fut) (Continues fut) (λ i f c h. h)
              (λ i f st h. Joined-IsLive fut i f st h) futures u.futures
              (Each-Matches (Joined fut) (λ st. settled_one st ≡ 1) futures u.futures
                (g.3 ∙ h.whole) g.2 g.1) in
          (
            ready (continue u.futures),
            (
              record u { futures = [] },
              (step s.state (returned (continue (ready st), u)) h.running e, (cs, (q, k))),
            ),
          )
      go (break (err p)) u e g = absurd g.0
      go (break (ok b)) u e (broke, fit, same) =
          let (p, (t, (q, j))) =
            broken_lem shared fut futures quiet n (record u { polled_once = false }) b broke
              (same.same_length ∙ h.whole)
              (poll_with-first shared (Join.poll_cancel fut) (IsLeft fut futures)
                (IsLeft fut futures) (λ p. ⊥) (poll_cancel-IsCalm fut futures quiet) n
                (record u { polled_once = false; state = State.broken b })
                (subst (◌< n) (sym same.same_length) (omega (arith, l)))
                (record {
                  is_queued = record { marks = fit.is_queued.marks; room = fit.is_queued.room };
                  same_length = fit.same_length;
                  fine = fit.fine;
                })
                refl) in
          (
            p,
            (
              t,
              (
                step s.state (returned (break (ok b), u)) h.running e ∙ q,
                BreakResult-JoinResult shared fut futures p t j,
              ),
            ),
          )
