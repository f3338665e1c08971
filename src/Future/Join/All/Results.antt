-- ===== src/Future/Join/All/Results.antt =====
-- What `poll` gives when the futures neither panic nor wake a waker in a call.
use completion.Common.{ℕ, ◌≡◌, ◌<◌, false, List, [], length, ◌⊎◌, inr, Each, Matches}
use completion.Poll.{Poll, pending, ready, returned}
use completion.Future.Join.{ControlFlow, break, continue, ControlFlowFuture, FutureState}
use completion.Future.Join.All.Settled.{settled}
use completion.Future.Join.All.History.{Continues, Ended, IsJoined, IsLeft, Broke}
use completion.Future.Join.All.Rounds.{IsFit, IsCounted}
use completion.Future.Join.All.{Shared, JoinAll, State, outputs}

-- `futures` is the list that was joined.
module _ {Q W F B C P : Type 0} (shared : Shared Q W) (fut : ControlFlowFuture F B C P)
    (futures : List F) where
  -- Before any call of the futures, or behind one of each, no waker of a settled future was woken.
  pub record IsRunning (s : JoinAll Q W F B C P) : Type 0 where
    pub running : s.state ≡ State.running
    pub whole : length s.futures ≡ length futures
    pub rounds :
        IsCounted shared (IsJoined fut futures) s
        ⊎ (IsFit shared (IsJoined fut futures) s
            × (s.polled_once ≡ false)
            × (shared.contents s.to_poll ≡ []))

  -- One future has broken the others off. They are counted, if no index was left in the queue.
  pub record IsBreaking (s : JoinAll Q W F B C P) : Type 0 where
    pub value : B
    pub broken : s.state ≡ State.broken value
    pub broke : Broke fut futures value
    pub whole : length s.futures ≡ length futures
    pub left : Each (IsLeft fut futures) s.futures
    pub rounds : IsCounted shared (IsLeft fut futures) s ⊎ (0 < length (shared.contents s.to_poll))

  -- What the futures give together: the values that they come to give, in the order of the futures, or
  -- the value with which one of them breaks the others off, when each of them has ended; nothing
  -- while one is running.
  unfoldable pub JoinResult :
      Poll (ControlFlow B (List (FutureState F C))) → JoinAll Q W F B C P → Type 0
  JoinResult (ready (continue outs)) t =
      (cs : List C) × ((outputs outs ≡ returned cs) × Matches (Continues fut) futures cs)
  JoinResult (ready (break b)) t = Broke fut futures b × Matches (Ended fut) futures t.futures
  JoinResult pending t = (settled t.futures < length t.futures) × (IsRunning t ⊎ IsBreaking t)

  -- Behind a break no outputs are given.
  unfoldable pub BreakResult :
      Poll (ControlFlow B (List (FutureState F C))) → JoinAll Q W F B C P → Type 0
  BreakResult (ready (continue outs)) t = ⊥
  BreakResult (ready (break b)) t = Broke fut futures b × Matches (Ended fut) futures t.futures
  BreakResult pending t = (settled t.futures < length t.futures) × IsBreaking t

  pub BreakResult-JoinResult :
      (p : Poll (ControlFlow B (List (FutureState F C)))) (t : JoinAll Q W F B C P)
      → BreakResult p t
      → JoinResult p t
  unfolding BreakResult JoinResult
  BreakResult-JoinResult (ready (continue outs)) t h = absurd h
  BreakResult-JoinResult (ready (break b)) t h = h
  BreakResult-JoinResult pending t h = (h.0, inr h.1)

  abbrev pub registered : JoinAll Q W F B C P → JoinAll Q W F B C P
  registered s = record s { waker = shared.register s.waker }

  pub registered-IsFit :
      (Fine : ℕ → FutureState F C → Type 0) (s : JoinAll Q W F B C P)
      → IsFit shared Fine s
      → IsFit shared Fine (registered s)
  registered-IsFit Fine s c = record {
    is_queued = record { marks = c.is_queued.marks; room = c.is_queued.room };
    same_length = c.same_length;
    fine = c.fine;
  }

  pub registered-IsCounted :
      (Fine : ℕ → FutureState F C → Type 0) (s : JoinAll Q W F B C P)
      → IsCounted shared Fine s
      → IsCounted shared Fine (registered s)
  registered-IsCounted Fine s c = record {
    fit = registered-IsFit Fine s c.fit;
    once = c.once;
    count = c.count;
    woken_running = c.woken_running;
  }
