-- ===== src/Future/Join/All/Stray.antt =====
-- A waker that is woken once more when its future has completed.
use completion.Common.{
  ℕ, zero, suc, ◌+◌, ◌≡◌, ◌<◌, refl, sym, ap, ◌∙◌, subst, Bool, true, false, some, none, List, [],
  ◌∷◌, ◌++◌, length, get_elem?, get_elem?-some, get_elem?-lt, put, arith, inl, inr, All, Each,
  Each-All, ◌==◌, eq→eqb,
}
use completion.Poll.{ready, panicked, returned, ◌>>=◌}
use completion.Future.Join.{ControlFlow, break, continue, ControlFlowFuture, FutureState}
use completion.Future.Join as Join
use completion.Future.Join.All.Marks.{Marks}
use completion.Future.Join.All.Queue.{IsQueued, Woken, wake_lem}
use completion.Future.Join.All.Settled.{settled}
use completion.Future.Join.All.Rounds.{IsCounted, visit-returned, next-queue, poll_each-suc}
use completion.Future.Join.All.Joined.{IsLive, IsQuiet, Joined-IsLive, outputs-running}
use completion.Future.Join.All.History.{IsJoined}
use completion.Future.Join.All.Results.{IsRunning}
use completion.Future.Join.All.Runs.{Runs, Runs-IsRunning}
use completion.Future.Join.All.{
  Shared, JoinAll, State, wake, poll, poll_each, poll_with, ended, finished, range, outputs,
  after_run,
}

put-same : {A : Type 0} (i : ℕ) (a : A) (xs : List A) → get_elem? xs i ≡ some a → put i a xs ≡ xs
put-same i a [] h = refl
put-same zero a (x ∷ xs) h = ap (◌∷ xs) (the_value h)
  where
    the_value : some x ≡ some a → a ≡ x
    the_value e = cc
put-same (suc i) a (x ∷ xs) h = ap (x ∷◌) (put-same i a xs h)

module _ {Q W F B C P : Type 0} (shared : Shared Q W) (fut : ControlFlowFuture F B C P) where
  -- One woken future, which has completed, in a poll behind the first.
  stray_poll :
      (n i : ℕ) (s : JoinAll Q W F B C P) (c : C) (r : Q)
      → s.state ≡ State.running
      → s.polled_once ≡ true
      → s.done + 1 ≡ length s.futures
      → get_elem? s.futures i ≡ some (FutureState.completed c)
      → shared.pop s.to_poll ≡ some (i, r)
      → shared.pop r ≡ none
      → (t : JoinAll Q W F B C P) × (poll shared fut (suc (suc n)) s
          ≡ returned (ready (continue s.futures), t))
  unfolding poll poll_with poll_each Join.poll
  stray_poll n i s c r run once d g h k = (
    _,
    begin s.state run
        ∙ ap (λ r. r >>= after_run shared fut (suc (suc n))) (whole s.polled_once once),
  )
    where
      registered : JoinAll Q W F B C P
      registered = record s { waker = shared.register s.waker }

      called : List (FutureState F C) → JoinAll Q W F B C P
      called futures = record registered {
        polled_once = true;
        to_poll = r;
        notified = put i false s.notified;
        done = s.done + 1;
        futures = futures;
      }

      again : List (FutureState F C)
      again = put i (FutureState.completed c) s.futures

      begin :
          (st : State B P)
          → st ≡ State.running
          → poll shared fut (suc (suc n)) (record s { state = st }) ≡ (
              poll_with shared (Join.poll fut) (suc (suc n)) (record registered { state = st })
              >>= after_run shared fut (suc (suc n)))
      begin State.running e = refl
      begin (State.broken b) e = absurd (cc)
      begin State.cancelling e = absurd (cc)
      begin (State.panicked p) e = absurd (cc)
      begin State.done e = absurd (cc)

      first :
          poll_each shared
            (Join.poll fut)
            (suc (suc n))
            (range 0 (length s.futures))
            (record registered { polled_once = true })
          ≡ poll_each shared (Join.poll fut) (suc n) (range 0 (length s.futures)) (called again)
      first =
          poll_each-suc shared (Join.poll fut) (suc n) i (range 0 (length s.futures))
            (range 0 (length s.futures)) (record registered { polled_once = true })
            (record registered { polled_once = true; to_poll = r }) (called again) none
            (next-queue shared (Join.poll fut) (range 0 (length s.futures))
              (record registered { polled_once = true }) i r refl h)
            (visit-returned shared (Join.poll fut) i
              (record registered { polled_once = true; to_poll = r }) (FutureState.completed c)
              (FutureState.completed c) (ready (continue tt)) g refl)

      second :
          poll_each shared (Join.poll fut) (suc n) (range 0 (length s.futures)) (called again)
          ≡ returned (none, called again)
      second = rw (poll_each, k) refl

      full : (s.done + 1 == length s.futures) ≡ true
      full = eq→eqb (s.done + 1) (length s.futures) d

      whole :
          (b : Bool)
          → b ≡ true
          → poll_with shared (Join.poll fut) (suc (suc n)) (record registered { polled_once = b })
            ≡ returned (continue (ready s.state), record (called s.futures) { state = State.done })
      whole false e = absurd (cc)
      whole true e =
          ap (λ o. o >>= λ o. returned (finished shared (Join.poll fut) o)) (first ∙ second)
          ∙ ap (λ futures. returned (finished shared (Join.poll fut) (none, called futures)))
              (put-same i (FutureState.completed c) s.futures g)
          ∙ ap (λ b. returned (ended shared (Join.poll fut) b (called s.futures))) full

  module _ {futures : List F} (quiet : IsQuiet fut) where
    -- From `new` of some futures that neither panic nor wake a waker in a call, by wakes of running futures
    -- and by calls of `poll` that are pending: when the queue is empty and one future alone is running,
    -- a wake for a future that has completed makes the next `poll` count this future once more. It
    -- gives the futures as if all had completed, and the values cannot be read: their iterator meets
    -- the running future and panics.
    pub poll-stray_wake :
        (n i : ℕ) (s : JoinAll Q W F B C P) (c : C)
        → Runs shared fut futures quiet s
        → s.polled_once ≡ true
        → shared.contents s.to_poll ≡ []
        → settled s.futures + 1 ≡ length s.futures
        → get_elem? s.futures i ≡ some (FutureState.completed c)
        → (t : JoinAll Q W F B C P) × ((u : JoinAll Q W F B C P) × ((wake shared i s ≡ returned t)
              × (poll shared fut (suc (suc n)) t ≡ returned (ready (continue s.futures), u))
              × (outputs s.futures ≡ panicked)))
    poll-stray_wake n i s c runs once e d g = go (Runs-IsRunning shared fut futures quiet runs)
      where
        counted_lem : IsRunning shared fut futures s → IsCounted shared (IsJoined fut futures) s
        counted_lem h = elim h.rounds [ inl k ↦ k | inr (k, o, q) ↦ absurd (not_once o) ]
          where
            not_once : s.polled_once ≡ false → ⊥
            not_once o = cc

        live : Each (IsJoined fut futures) s.futures → All IsLive s.futures
        live h =
            Each-All (IsJoined fut futures) IsLive s.futures
              (λ i st h. Joined-IsLive fut i h.0 st (h.1).1) h

        queue_lem :
            (t : JoinAll Q W F B C P)
            → IsQueued shared s
            → Woken shared i s t
            → shared.contents t.to_poll ≡ i ∷ []
        queue_lem t q w = elim w.queue [
          | inl (a, b) ↦ absurd (subst (λ l. Marks l s.notified) e q.marks i a)
          | inr b ↦ b ∙ ap (◌++ (i ∷ [])) e
        ]

        polls :
            (t : JoinAll Q W F B C P)
            → IsRunning shared fut futures s
            → IsCounted shared (IsJoined fut futures) s
            → Woken shared i s t
            → (u : JoinAll Q W F B C P) × (poll shared fut (suc (suc n)) t
                ≡ returned (ready (continue s.futures), u))
        polls t h k w =
            let (r, (p, a, b)) =
              shared.pop-contents i [] t.to_poll (queue_lem t k.fit.is_queued w) in
            subst
              (λ (x : JoinAll Q W F B C P).
                (u : JoinAll Q W F B C P) × (poll shared fut (suc (suc n)) x
                  ≡ returned (ready (continue s.futures), u)))
              (sym w.kept)
              (stray_poll n i
                (record s { to_poll = t.to_poll; waker = t.waker; notified = t.notified }) c r
                h.running once (ap (◌+ 1) k.count ∙ d) g p (shared.pop-empty r a))

        go :
            IsRunning shared fut futures s
            → (t : JoinAll Q W F B C P) × ((u : JoinAll Q W F B C P) × ((wake shared i s
                    ≡ returned t)
                  × (poll shared fut (suc (suc n)) t ≡ returned (ready (continue s.futures), u))
                  × (outputs s.futures ≡ panicked)))
        go h =
            let k = counted_lem h in
            let (b, f) = get_elem?-some i s.notified (
              subst (i <◌) (sym k.fit.same_length)
                (get_elem?-lt i s.futures (FutureState.completed c) g)) in
            let (t, (q, w)) = wake_lem shared i s b k.fit.is_queued f in
            let (u, z) = polls t h k w in
            (t, (u, (q, z, outputs-running s.futures (live k.fit.fine) (omega (arith, d)))))
