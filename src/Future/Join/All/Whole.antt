-- ===== src/Future/Join/All/Whole.antt =====
-- What one call of `poll_with` gives.
use completion.Common.{
  Each, ℕ, ◌≡◌, ◌<◌, ◌≤◌, refl, sym, ap, ◌∙◌, subst, Bool, true, false, some, none, [], length, All,
  Option, arith, ◌==◌, ◌⊎◌, inl, inr,
}
use completion.Poll.{Poll, pending, ready, returned}
use completion.Future.Join.{ControlFlow, break, continue, FutureState, Visit}
use completion.Future.Join.All.Settled.{settled, settled_le, AllSettled, settled-AllSettled}
use completion.Future.Join.All.Rounds.{IsOpen, IsCalm, IsFit, IsCounted, Same}
use completion.Future.Join.All.Later.{Drained, drain}
use completion.Future.Join.All.First.{Swept, sweep, take-length}
use completion.Future.Join.All.{
  Shared, JoinAll, State, poll_each, poll_with, ended, finished, range,
}

eqb→eq : (a b : ℕ) → (a == b) ≡ true → a ≡ b
eqb→eq a b h = ground arith

neb→ne : (a b : ℕ) → (a == b) ≡ false → a ≡ b → ⊥
neb→ne a b h e = ground arith

module _ {Q W F B C P X : Type 0} (shared : Shared Q W) (f : ℕ → FutureState F C → Visit F C X)
    (Fine Rest : ℕ → FutureState F C → Type 0) (Breaks : X → Type 0)
    (calm : IsCalm f Fine Rest Breaks) where
  -- A state in which `poll_with` is called: at first, or behind a call of every future.
  abbrev pub IsStarted : JoinAll Q W F B C P → Type 0
  IsStarted s = IsCounted shared Fine s ⊎ (IsFit shared Fine s × (s.polled_once ≡ false))

  -- No index is left in the queue, or only those of running futures.
  abbrev pub IsClean : JoinAll Q W F B C P → Type 0
  IsClean s = IsCounted shared Fine s ⊎ (shared.contents s.to_poll ≡ [])

  unfoldable pub Gives :
      JoinAll Q W F B C P → ControlFlow X (Poll (State B P)) → JoinAll Q W F B C P → Type 0
  Gives s (break b) t = Breaks b × IsFit shared Rest t × Same s t
  Gives s (continue pending) t =
      (settled t.futures < length t.futures)
      × Each Fine t.futures
      × (IsClean s → IsCounted shared Fine t)
      × (shared.contents t.to_poll ≡ [] → IsCounted shared Fine t)
      × Same s t
  Gives s (continue (ready st)) t =
      (st ≡ s.state)
      × AllSettled t.futures
      × Each Fine t.futures
      × (length t.futures ≡ length s.futures)

  abbrev pub Returns : ℕ → JoinAll Q W F B C P → Type 0
  Returns n s =
      (c : ControlFlow X (Poll (State B P))) × ((t : JoinAll Q W F B C P) × ((poll_with shared f n s
            ≡ returned (c, t))
          × Gives s c t))

  -- The end of a loop that no future has broken.
  finish :
      (n : ℕ) (s t : JoinAll Q W F B C P)
      → poll_with shared f n s ≡ returned (finished shared f (none, t))
      → IsFit shared Fine t
      → t.done ≡ settled t.futures
      → (IsClean s → All (λ j. IsOpen t.futures j) (shared.contents t.to_poll))
      → Same s t
      → Returns n s
  unfolding Gives
  finish n s t e c h o w = go (t.done == length t.futures) refl
    where
      once : JoinAll Q W F B C P
      once = record t { polled_once = true }

      counted : All (IsOpen t.futures) (shared.contents t.to_poll) → IsCounted shared Fine once
      counted k = record {
        fit = record {
          is_queued = record { marks = c.is_queued.marks; room = c.is_queued.room };
          same_length = c.same_length;
          fine = c.fine;
        };
        once = refl;
        count = h;
        woken_running = k;
      }

      go : (full : Bool) → (t.done == length t.futures) ≡ full → Returns n s
      go true q = (
        continue (ready t.state),
        (
          record t { polled_once = true; state = State.done },
          (
            e ∙ ap (λ b. returned (ended shared f b t)) q,
            (
              w.same_state,
              settled-AllSettled t.futures (sym h ∙ eqb→eq t.done (length t.futures) q),
              c.fine,
              w.same_length,
            ),
          ),
        ),
      )
      go false q = (
        continue pending,
        (
          once,
          (
            e ∙ ap (λ b. returned (ended shared f b t)) q,
            (
              below (settled_le t.futures) (λ d. neb→ne t.done (length t.futures) q (h ∙ d)),
              c.fine,
              (λ k. counted (o k)),
              (λ k. counted (subst (All (IsOpen t.futures)) (sym k) tt)),
              record { same_length = w.same_length; same_state = w.same_state },
            ),
          ),
        ),
      )
        where
          below :
              settled t.futures ≤ length t.futures
              → (settled t.futures ≡ length t.futures → ⊥)
              → settled t.futures < length t.futures
          below a b = omega (arith, a, b)

  later :
      (n : ℕ) (s : JoinAll Q W F B C P)
      → length (shared.contents s.to_poll) < n
      → IsCounted shared Fine s
      → Returns n s
  unfolding Drained Gives poll_with
  later n s l c =
      let (o, (t, (e, d))) =
        drain shared f Fine Rest Breaks calm n (range 0 (length s.futures))
          (shared.contents s.to_poll) s l refl c in
      go o t e d
    where
      start :
          (once : Bool) (r : Option X × JoinAll Q W F B C P)
          → once ≡ true
          → poll_each shared f n (range 0 (length s.futures)) (record s { polled_once = once })
            ≡ returned r
          → poll_with shared f n (record s { polled_once = once }) ≡ returned (finished shared f r)
      start true r h e = rw (poll_with, e) refl
      start false r h e = absurd (cc)

      go :
          (o : Option X) (t : JoinAll Q W F B C P)
          → poll_each shared f n (range 0 (length s.futures)) s ≡ returned (o, t)
          → Drained shared f Fine Rest Breaks calm s o t
          → Returns n s
      go none t e d =
          finish n s t (start s.polled_once (none, t) c.once e) d.0.fit d.0.count
            (λ k. d.0.woken_running) d.1
      go (some b) t e d = (break b, (t, (start s.polled_once (some b, t) c.once e, d)))

  pub poll_with-first :
      (n : ℕ) (s : JoinAll Q W F B C P)
      → length s.futures < n
      → IsFit shared Fine s
      → s.polled_once ≡ false
      → Returns n s
  unfolding Swept Gives poll_with
  poll_with-first n s l c once =
      let (o, (t, (e, d))) =
        sweep shared f Fine Rest Breaks calm n (length s.futures) 0 (record s { done = 0 }) l
          (omega arith)
          (record {
            fit = record {
              is_queued = record { marks = c.is_queued.marks; room = c.is_queued.room };
              same_length = c.same_length;
              fine = c.fine;
            };
            once = once;
            count = refl;
          }) in
      go o t e d
    where
      start :
          (b : Bool) (r : Option X × JoinAll Q W F B C P)
          → b ≡ false
          → poll_each shared f n
              (range 0 (length s.futures))
              (record s { polled_once = b; done = 0 })
            ≡ returned r
          → poll_with shared f n (record s { polled_once = b }) ≡ returned (finished shared f r)
      start false r h e = rw (poll_with, e) refl
      start true r h e = absurd (cc)

      -- A queue that was empty still is; that the state was counted is refused.
      empty :
          (t : JoinAll Q W F B C P)
          → t.to_poll ≡ s.to_poll
          → IsClean s
          → All (IsOpen t.futures) (shared.contents t.to_poll)
      empty t h (inl k) = absurd (false_once k.once)
        where
          false_once : s.polled_once ≡ true → ⊥
          false_once e = cc
      empty t h (inr k) = subst (All (IsOpen t.futures)) (sym (ap shared.contents h ∙ k)) tt

      same : (t : JoinAll Q W F B C P) → Same (record s { done = 0 }) t → Same s t
      same t w = record { same_length = w.same_length; same_state = w.same_state }

      go :
          (o : Option X) (t : JoinAll Q W F B C P)
          → poll_each shared f n (range 0 (length s.futures)) (record s { done = 0 })
            ≡ returned (o, t)
          → Swept shared f Fine Rest Breaks calm (record s { done = 0 }) o t
          → Returns n s
      go none t e d =
          finish n s t (start s.polled_once (none, t) once e) d.0.fit
            (d.0.count ∙ ap settled (take-length t.futures)) (empty t d.2) (same t d.1)
      go (some b) t e d =
          (break b, (t, (start s.polled_once (some b, t) once e, (d.0, d.1, same t d.2))))

  -- With fuel for the queue and for the futures, the call returns.
  pub poll_with-returned :
      (n : ℕ) (s : JoinAll Q W F B C P)
      → length (shared.contents s.to_poll) < n
      → length s.futures < n
      → IsStarted s
      → Returns n s
  poll_with-returned n s l m (inl c) = later n s l c
  poll_with-returned n s l m (inr (c, once)) = poll_with-first n s m c once
