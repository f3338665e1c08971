-- ===== src/Future/Join/All/Wakes.antt =====
-- No wake is refused: in every state that a `JoinAll` reaches, the queue has room.
use completion.Common.{
  ℕ, ◌≡◌, ◌<◌, refl, sym, ◌∙◌, subst, Bool, false, List, [], length, get_elem?-some, replicate,
  length-replicate, Result, ok, err, map,
}
use completion.Poll.{Poll, pending, ready, Run, returned, ◌>>=◌}
use completion.Future.Join.{ControlFlow, break, continue, ControlFlowFuture, FutureState}
use completion.Future.Join as Join
use completion.Future.Join.All.Marks.{Marks, Marks-replicate}
use completion.Future.Join.All.Queue.{
  IsQueued, StaysQueued, wake-StaysQueued, Leaves, Leaves-bind, Woken, wake_lem, poll_with-IsQueued,
}
use completion.Future.Join.All.{
  Shared, State, JoinAll, new, wake, poll_with, resume, resumed, poll_broken, after_break,
  after_run, poll, poll_cancel, after_cancel,
}

module _ {Q W F B C P : Type 0} (shared : Shared Q W) where
  -- What `new` makes, with its queue.
  abbrev pub fresh : List F → Q → JoinAll Q W F B C P
  fresh futures q = record {
    futures = map FutureState.running futures;
    state = State.running;
    polled_once = false;
    done = 0;
    to_poll = q;
    waker = shared.waker;
    notified = replicate (length futures) false;
  }

  pub new-fresh :
      (futures : List F) (s : JoinAll Q W F B C P)
      → 0 < length futures
      → new shared futures ≡ returned s
      → (q : Q) × ((fresh futures q ≡ s)
          × (shared.contents q ≡ [])
          × (shared.capacity q ≡ length futures))
  unfolding new
  new-fresh futures s h e =
      let (q, (b, c, k)) = shared.bounded-contents (length futures) h in
      (q, (the_value q (rw (new, b) refl), c, k))
    where
      the_value : (q : Q) → new shared futures ≡ returned (fresh futures q) → fresh futures q ≡ s
      the_value q h = cc

  pub fresh-IsQueued :
      (futures : List F) (q : Q)
      → shared.contents q ≡ []
      → shared.capacity q ≡ length futures
      → IsQueued shared (fresh futures q)
  fresh-IsQueued futures q c k = record {
    marks =
        subst (λ l. Marks l (replicate (length futures) false)) (sym c)
          (Marks-replicate (length futures));
    room = k ∙ sym (length-replicate (length futures) false);
  }

  new-IsQueued :
      (futures : List F) (s : JoinAll Q W F B C P)
      → 0 < length futures
      → new shared futures ≡ returned s
      → IsQueued shared s
  new-IsQueued futures s h e =
      let (q, (g, c, k)) = new-fresh futures s h e in
      subst (IsQueued shared) g (fresh-IsQueued futures q c k)

  module _ (fut : ControlFlowFuture F B C P) where
    resume-IsQueued :
        (R : Type 0) (n : ℕ) (s : JoinAll Q W F B C P)
        → IsQueued shared s
        → Leaves shared (IsQueued shared) (resume shared fut {R = R} n s)
    unfolding resume
    resume-IsQueued R n s q =
        Leaves-bind shared (IsQueued shared) (IsQueued shared)
          (poll_with shared (Join.poll_panicked fut) n s) (resumed shared fut {R = R})
          (poll_with-IsQueued shared (Join.poll_panicked fut) n s q) go
      where
        go :
            (a : ControlFlow ⊥ (Poll (State B P))) (t : JoinAll Q W F B C P)
            → IsQueued shared t
            → Leaves shared (IsQueued shared) (resumed shared fut {R = R} (a, t))
        go (break e) t r = absurd e
        go (continue pending) t r = r
        go (continue (ready st)) t r = tt

    after_break-IsQueued :
        (n : ℕ) (a : ControlFlow P (Poll (State B P))) (t : JoinAll Q W F B C P)
        → IsQueued shared t
        → Leaves shared (IsQueued shared) (after_break shared fut n (a, t))
    after_break-IsQueued n (break p) t r =
        resume-IsQueued _ n (record t { state = State.panicked p })
          (record { marks = r.marks; room = r.room })
    after_break-IsQueued n (continue pending) t r = r
    after_break-IsQueued n (continue (ready (State.broken b))) t r = r
    after_break-IsQueued n (continue (ready State.running)) t r = tt
    after_break-IsQueued n (continue (ready State.cancelling)) t r = tt
    after_break-IsQueued n (continue (ready (State.panicked p))) t r = tt
    after_break-IsQueued n (continue (ready State.done)) t r = tt

    poll_broken-IsQueued :
        (n : ℕ) (s : JoinAll Q W F B C P)
        → IsQueued shared s
        → Leaves shared (IsQueued shared) (poll_broken shared fut n s)
    unfolding poll_broken
    poll_broken-IsQueued n s q = go s.state
      where
        go :
            (st : State B P)
            → Leaves shared (IsQueued shared) (poll_broken shared fut n (record s { state = st }))
        go (State.broken b) =
            Leaves-bind shared (IsQueued shared) (IsQueued shared)
              (poll_with shared (Join.poll_cancel fut) n (record s { state = State.broken b }))
              (after_break shared fut n)
              (poll_with-IsQueued shared (Join.poll_cancel fut) n
                (record s { state = State.broken b }) (record { marks = q.marks; room = q.room }))
              (after_break-IsQueued n)
        go State.running = resume-IsQueued _ n _ (record { marks = q.marks; room = q.room })
        go State.cancelling = resume-IsQueued _ n _ (record { marks = q.marks; room = q.room })
        go (State.panicked p) = resume-IsQueued _ n _ (record { marks = q.marks; room = q.room })
        go State.done = resume-IsQueued _ n _ (record { marks = q.marks; room = q.room })

    pub poll-IsQueued :
        (n : ℕ) (s : JoinAll Q W F B C P)
        → IsQueued shared s
        → Leaves shared (IsQueued shared) (poll shared fut n s)
    unfolding poll
    poll-IsQueued n s q = go s.state
      where
        after :
            (a : ControlFlow (Result B P) (Poll (State B P))) (t : JoinAll Q W F B C P)
            → IsQueued shared t
            → Leaves shared (IsQueued shared) (after_run shared fut n (a, t))
        after (break (ok b)) t r =
            poll_broken-IsQueued n (record t { polled_once = false; state = State.broken b })
              (record { marks = r.marks; room = r.room })
        after (break (err p)) t r =
            poll_broken-IsQueued n (record t { polled_once = false; state = State.panicked p })
              (record { marks = r.marks; room = r.room })
        after (continue pending) t r = r
        after (continue (ready st)) t r = record { marks = r.marks; room = r.room }

        registered : State B P → JoinAll Q W F B C P
        registered st = record s { state = st; waker = shared.register s.waker }

        registered-IsQueued : (st : State B P) → IsQueued shared (registered st)
        registered-IsQueued st = record { marks = q.marks; room = q.room }

        go :
            (st : State B P)
            → Leaves shared (IsQueued shared) (poll shared fut n (record s { state = st }))
        go State.running =
            Leaves-bind shared (IsQueued shared) (IsQueued shared)
              (poll_with shared (Join.poll fut) n (registered State.running))
              (after_run shared fut n)
              (poll_with-IsQueued shared (Join.poll fut) n (registered State.running)
                (registered-IsQueued State.running))
              after
        go (State.broken b) = poll_broken-IsQueued n _ (registered-IsQueued (State.broken b))
        go State.cancelling = poll_broken-IsQueued n _ (registered-IsQueued State.cancelling)
        go (State.panicked p) = poll_broken-IsQueued n _ (registered-IsQueued (State.panicked p))
        go State.done = poll_broken-IsQueued n _ (registered-IsQueued State.done)

    pub poll_cancel-IsQueued :
        (n : ℕ) (s : JoinAll Q W F B C P)
        → IsQueued shared s
        → Leaves shared (IsQueued shared) (poll_cancel shared fut n s)
    unfolding poll_cancel
    poll_cancel-IsQueued n s q = go s.state
      where
        after :
            (a : ControlFlow P (Poll (State B P))) (t : JoinAll Q W F B C P)
            → IsQueued shared t
            → Leaves shared (IsQueued shared) (after_cancel shared fut n (a, t))
        after (break p) t r =
            resume-IsQueued _ n (record t { state = State.panicked p })
              (record { marks = r.marks; room = r.room })
        after (continue pending) t r = r
        after (continue (ready st)) t r = r

        begun : Bool → State B P → JoinAll Q W F B C P
        begun once st = record s { state = st; polled_once = once; waker = shared.register s.waker }

        begun-IsQueued : (once : Bool) (st : State B P) → IsQueued shared (begun once st)
        begun-IsQueued once st = record { marks = q.marks; room = q.room }

        cancels :
            (once : Bool)
            → Leaves shared (IsQueued shared) (
                poll_with shared (Join.poll_cancel fut) n (begun once State.cancelling)
                >>= after_cancel shared fut n)
        cancels once =
            Leaves-bind shared (IsQueued shared) (IsQueued shared)
              (poll_with shared (Join.poll_cancel fut) n (begun once State.cancelling))
              (after_cancel shared fut n)
              (poll_with-IsQueued shared (Join.poll_cancel fut) n (begun once State.cancelling)
                (begun-IsQueued once State.cancelling))
              after

        go :
            (st : State B P)
            → Leaves shared (IsQueued shared) (poll_cancel shared fut n (record s { state = st }))
        go State.running = cancels false
        go (State.broken b) = cancels false
        go State.cancelling = cancels s.polled_once
        go (State.panicked p) =
            resume-IsQueued _ n _ (begun-IsQueued s.polled_once (State.panicked p))
        go State.done = resume-IsQueued _ n _ (begun-IsQueued s.polled_once State.done)

    -- The states to which calls and wakes lead from `new`, as long as no call panics.
    pub data Reached : JoinAll Q W F B C P → Type 0 where
      made :
          (futures : List F) {s : JoinAll Q W F B C P}
          → 0 < length futures
          → new shared futures ≡ returned s
          → Reached s
      woken :
          (i : ℕ) {s t : JoinAll Q W F B C P} → Reached s → wake shared i s ≡ returned t → Reached t
      polled :
          (n : ℕ) {s t : JoinAll Q W F B C P} {p : Poll (ControlFlow B (List (FutureState F C)))}
          → Reached s
          → poll shared fut n s ≡ returned (p, t)
          → Reached t
      cancel_polled :
          (n : ℕ) {s t : JoinAll Q W F B C P} {p : Poll (Unit {0})}
          → Reached s
          → poll_cancel shared fut n s ≡ returned (p, t)
          → Reached t

    returned-IsQueued :
        {A : Type 0} {t : JoinAll Q W F B C P} (p : A) (r : Run (A × JoinAll Q W F B C P))
        → Leaves shared (IsQueued shared) r
        → r ≡ returned (p, t)
        → IsQueued shared t
    returned-IsQueued p r h e = subst (Leaves shared (IsQueued shared)) e h

    Reached-IsQueued : {s : JoinAll Q W F B C P} → Reached s → IsQueued shared s
    Reached-IsQueued (made futures h e) = new-IsQueued futures _ h e
    Reached-IsQueued (woken i {s} c e) =
        subst (StaysQueued shared) e (wake-StaysQueued shared i s (Reached-IsQueued c))
    Reached-IsQueued (polled n {s} {p = p} c e) =
        returned-IsQueued p (poll shared fut n s) (poll-IsQueued n s (Reached-IsQueued c)) e
    Reached-IsQueued (cancel_polled n {s} {p = p} c e) =
        returned-IsQueued p (poll_cancel shared fut n s)
          (poll_cancel-IsQueued n s (Reached-IsQueued c)) e

    -- In every state to which wakes and calls of `poll` and `poll_cancel` lead from `new` of some futures,
    -- whatever the futures do, a wake of one of them returns: the queue has room for its index, and
    -- then holds the indices of the set flags, each once, again. The futures, the state and the
    -- count of the done ones are left as they are.
    pub wake-Woken :
        (i : ℕ) (s : JoinAll Q W F B C P)
        → Reached s
        → i < length s.notified
        → (t : JoinAll Q W F B C P) × ((wake shared i s ≡ returned t) × Woken shared i s t)
    wake-Woken i s c l =
        let (b, e) = get_elem?-some i s.notified l in wake_lem shared i s b (Reached-IsQueued c) e
