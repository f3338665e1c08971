-- ===== src/Future/Join/All/Runs.antt =====
-- The runs of a `JoinAll` in which the futures that have ended are not woken.
use completion.Common.{
  ℕ, ◌+◌, ◌≡◌, ◌<◌, sym, ap, subst, true, false, List, [], length, ◌⊎◌, inl, inr, arith,
}
use completion.Poll.{Poll, pending, ready, returned}
use completion.Future.Join.{ControlFlow, ControlFlowFuture, FutureState}
use completion.Future.Join.All.History.{IsJoined, IsLeft}
use completion.Future.Join.All.Rounds.{IsOpen, IsCounted}
use completion.Future.Join.All.Joined.{IsQuiet}
use completion.Future.Join.All.Results.{
  IsRunning, IsBreaking, JoinResult, BreakResult, BreakResult-JoinResult,
}
use completion.Future.Join.All.Breaks.{poll-breaking}
use completion.Future.Join.All.Polls.{poll_lem}
use completion.Future.Join.All.{Shared, JoinAll, State, new, wake, poll}
use completion.Future.Join.All.Steps.{new-IsRunning, wake-IsCounted, wake-returned}

module _ {Q W F B C P : Type 0} (shared : Shared Q W) (fut : ControlFlowFuture F B C P)
    (futures : List F) where
  module _ (quiet : IsQuiet fut) where
    -- Before a break. Wakers are there from the first poll on.
    pub data Runs : JoinAll Q W F B C P → Type 0 where
      made :
          {s : JoinAll Q W F B C P} → 0 < length futures → new shared futures ≡ returned s → Runs s
      woken :
          (i : ℕ) {s t : JoinAll Q W F B C P}
          → Runs s
          → s.polled_once ≡ true
          → IsOpen s.futures i
          → wake shared i s ≡ returned t
          → Runs t
      polled :
          (n : ℕ) {s t : JoinAll Q W F B C P}
          → Runs s
          → length (shared.contents s.to_poll) + length s.futures < n
          → poll shared fut n s ≡ returned (pending, t)
          → t.state ≡ State.running
          → Runs t

    -- Behind a break, at which no woken future was left in the queue.
    pub data Cancels : JoinAll Q W F B C P → Type 0 where
      broke :
          (n : ℕ) {s t : JoinAll Q W F B C P} {b : B}
          → Runs s
          → length (shared.contents s.to_poll) + length s.futures < n
          → poll shared fut n s ≡ returned (pending, t)
          → t.state ≡ State.broken b
          → shared.contents t.to_poll ≡ []
          → Cancels t
      woken :
          (i : ℕ) {s t : JoinAll Q W F B C P}
          → Cancels s
          → IsOpen s.futures i
          → wake shared i s ≡ returned t
          → Cancels t
      polled :
          (n : ℕ) {s t : JoinAll Q W F B C P}
          → Cancels s
          → length (shared.contents s.to_poll) + length s.futures < n
          → poll shared fut n s ≡ returned (pending, t)
          → shared.contents t.to_poll ≡ []
          → Cancels t

    -- There is a future.
    pub Runs-one : {s : JoinAll Q W F B C P} → Runs s → 0 < length futures
    Runs-one (made h e) = h
    Runs-one (woken i c once o e) = Runs-one c
    Runs-one (polled n c l e r) = Runs-one c

    pub Cancels-one : {s : JoinAll Q W F B C P} → Cancels s → 0 < length futures
    Cancels-one (broke n c l e r d) = Runs-one c
    Cancels-one (woken i c o e) = Cancels-one c
    Cancels-one (polled n c l e d) = Cancels-one c

    -- What a call that returned gives.
    the_result :
        (n : ℕ) (s t : JoinAll Q W F B C P)
        → poll shared fut n s ≡ returned (pending, t)
        → ((p : Poll (ControlFlow B (List (FutureState F C)))) × ((u : JoinAll Q W F B C P) × ((poll
                    shared fut n s
                  ≡ returned (p, u))
                × JoinResult shared fut futures p u)))
        → IsRunning shared fut futures t ⊎ IsBreaking shared fut futures t
    unfolding JoinResult
    the_result n s t e (ready c, (u, (q, j))) = absurd (other q)
      where
        other : poll shared fut n s ≡ returned (ready c, u) → ⊥
        other q = cc
    the_result n s t e (pending, (u, (q, j))) =
        subst (λ t. IsRunning shared fut futures t ⊎ IsBreaking shared fut futures t) the_value j.1
      where
        the_value : u ≡ t
        the_value = cc

    pending_result :
        (n : ℕ) (s t : JoinAll Q W F B C P)
        → poll shared fut n s ≡ returned (pending, t)
        → (p : Poll (ControlFlow B (List (FutureState F C)))) (u : JoinAll Q W F B C P)
        → poll shared fut n s ≡ returned (p, u)
        → BreakResult shared fut futures p u
        → IsBreaking shared fut futures t
    unfolding BreakResult
    pending_result n s t e (ready c) u q j = absurd (other q)
      where
        other : poll shared fut n s ≡ returned (ready c, u) → ⊥
        other q = cc
    pending_result n s t e pending u q j = subst (IsBreaking shared fut futures) the_value j.1
      where
        the_value : u ≡ t
        the_value = cc

    pub Runs-IsRunning : {s : JoinAll Q W F B C P} → Runs s → IsRunning shared fut futures s
    Runs-IsRunning (made h e) = new-IsRunning shared fut futures _ h e
    Runs-IsRunning (woken i {s} {t} c once o e) = go (Runs-IsRunning c)
      where
        go : IsRunning shared fut futures s → IsRunning shared fut futures t
        go h = elim h.rounds [
          | inl c ↦
              (let w = wake-returned shared fut futures (IsJoined fut futures) i s t c.fit o e in
                subst (IsRunning shared fut futures) (sym w.kept) (record {
                  running = h.running;
                  whole = h.whole;
                  rounds =
                      inl (wake-IsCounted shared fut futures (IsJoined fut futures) i s t c o w);
                }))
          | inr (c, not_once, d) ↦ absurd (other not_once)
        ]
          where
            other : s.polled_once ≡ false → ⊥
            other e = cc
    Runs-IsRunning (polled n {s} {t} c l e r) =
        elim (the_result n s t e (poll_lem shared fut futures quiet n s l (Runs-IsRunning c))) [
          | inl h ↦ h
          | inr h ↦ absurd (other h.value h.broken)
        ]
      where
        other : (b : B) → t.state ≡ State.broken b → ⊥
        other b h = cc

    -- The counts behind a break.
    pub record IsCancelling (s : JoinAll Q W F B C P) : Type 0 where
      pub breaking : IsBreaking shared fut futures s
      pub counted : IsCounted shared (IsLeft fut futures) s

    settle :
        (t : JoinAll Q W F B C P)
        → shared.contents t.to_poll ≡ []
        → IsBreaking shared fut futures t
        → IsCancelling t
    settle t e h = elim h.rounds [
      | inl c ↦ record { breaking = h; counted = c }
      | inr l ↦ absurd (omega (arith, l, ap length e))
    ]

    breaking_poll :
        (n : ℕ) (s : JoinAll Q W F B C P)
        → length (shared.contents s.to_poll) + length s.futures < n
        → IsCancelling s
        → (p : Poll (ControlFlow B (List (FutureState F C)))) × ((u : JoinAll Q W F B C P) × ((poll
                  shared fut n s
                ≡ returned (p, u))
              × BreakResult shared fut futures p u))
    breaking_poll n s l h =
        poll-breaking shared fut futures quiet n s h.breaking.value l h.breaking.broken
          h.breaking.broke h.breaking.whole h.counted

    Cancels-IsCancelling : {s : JoinAll Q W F B C P} → Cancels s → IsCancelling s
    Cancels-IsCancelling (broke n {s} {t} {b} c l e r d) =
        elim (the_result n s t e (poll_lem shared fut futures quiet n s l (Runs-IsRunning c))) [
          | inl h ↦ absurd (other h.running)
          | inr h ↦ settle t d h
        ]
      where
        other : t.state ≡ State.running → ⊥
        other h = cc
    Cancels-IsCancelling (woken i {s} {t} c o e) = go (Cancels-IsCancelling c)
      where
        go : IsCancelling s → IsCancelling t
        go h =
            let w = wake-returned shared fut futures (IsLeft fut futures) i s t h.counted.fit o e in
            let c = wake-IsCounted shared fut futures (IsLeft fut futures) i s t h.counted o w in
            subst IsCancelling (sym w.kept) (record {
              breaking = record {
                value = h.breaking.value;
                broken = h.breaking.broken;
                broke = h.breaking.broke;
                whole = h.breaking.whole;
                left = h.breaking.left;
                rounds = inl c;
              };
              counted = c;
            })
    Cancels-IsCancelling (polled n {s} {t} c l e d) =
        let (p, (u, (q, r))) = breaking_poll n s l (Cancels-IsCancelling c) in
        settle t d (pending_result n s t e p u q r)

    -- From `new` of one future or more, which neither panic nor wake a waker in a call, by wakes of
    -- running futures and by calls of `poll` that are pending, and which from a break on leave the queue
    -- empty: the next `poll` returns, with fuel for the queue and for the futures, and does not
    -- panic. If it gives outputs, their iterator gives, in the order of the futures, the values
    -- that the polls of the futures come to give. If it gives the value of a break, the polls of
    -- one of the futures come to break with it, and each future has given its value, has broken,
    -- or has had its cancelling come to its end. It is pending only if a future is still running.
    pub poll-JoinResult :
        (n : ℕ) (s : JoinAll Q W F B C P)
        → Runs s ⊎ Cancels s
        → length (shared.contents s.to_poll) + length s.futures < n
        → (p : Poll (ControlFlow B (List (FutureState F C)))) × ((t : JoinAll Q W F B C P) × ((poll
                  shared fut n s
                ≡ returned (p, t))
              × JoinResult shared fut futures p t))
    poll-JoinResult n s (inl c) l = poll_lem shared fut futures quiet n s l (Runs-IsRunning c)
    poll-JoinResult n s (inr c) l =
        let (p, (t, (e, j))) = breaking_poll n s l (Cancels-IsCancelling c) in
        (p, (t, (e, BreakResult-JoinResult shared fut futures p t j)))
