-- ===== src/Future/Join/All/Later.antt =====
-- The rounds in which `poll_with` calls the woken futures.
use completion.Common.{
  Each, Each-put, Each-get_elem?, Each-map, ℕ, zero, suc, ◌+◌, ◌≡◌, ◌<◌, refl, sym, ap, ◌∙◌, subst,
  Bool, true, false, some, none, List, [], ◌∷◌, length, get_elem?, put, get_elem?-put, length-put,
  All, Option, arith,
}
use completion.Poll.{Poll, pending, ready, returned}
use completion.Future.Join.{ControlFlow, break, continue, FutureState, Visit}
use completion.Future.Join.All.Marks.{Marks}
use completion.Future.Join.All.Settled.{settled_one, settled, settled-put}
use completion.Future.Join.All.Rounds.{
  IsCalm, Answers, IsOpen, Marks-other, All-IsOpen-put, visit-returned, next-queue, next-empty,
  poll_each-suc, IsFit, IsCounted, Same,
}
use completion.Future.Join.All.{Shared, JoinAll, cleared, visit, counted, poll_each, visited}

module _ {Q W F B C P X : Type 0} (shared : Shared Q W) (f : ℕ → FutureState F C → Visit F C X)
    (Fine Rest : ℕ → FutureState F C → Type 0) (Breaks : X → Type 0)
    (calm : IsCalm f Fine Rest Breaks) where
  -- The loop ends with an empty queue, or by a break.
  unfoldable pub Drained : JoinAll Q W F B C P → Option X → JoinAll Q W F B C P → Type 0
  Drained s none t = IsCounted shared Fine t × Same s t
  Drained s (some b) t = Breaks b × IsFit shared Rest t × Same s t

  abbrev Drains : ℕ → List ℕ → JoinAll Q W F B C P → Type 0
  Drains n is s =
      (o : Option X) × ((t : JoinAll Q W F B C P) × ((poll_each shared f n is s ≡ returned (o, t))
          × Drained s o t))

  -- The state behind the call of the first future of the queue.
  abbrev after : ℕ → Q → FutureState F C → JoinAll Q W F B C P → JoinAll Q W F B C P
  after i r u s = record s {
    to_poll = r;
    notified = put i false s.notified;
    futures = put i u s.futures;
  }

  module _ (s : JoinAll Q W F B C P) (c : IsCounted shared Fine s) (i : ℕ) (is : List ℕ)
      (e : shared.contents s.to_poll ≡ i ∷ is) (r : Q) (d : shared.contents r ≡ is)
      (k : shared.capacity r ≡ shared.capacity s.to_poll) where
    marks : Marks (i ∷ is) s.notified
    marks = subst (λ l. Marks l s.notified) e c.fit.is_queued.marks

    IsOpen-queue : All (IsOpen s.futures) (i ∷ is)
    IsOpen-queue = subst (All (IsOpen s.futures)) e c.woken_running

    after-IsFit :
        (P' : ℕ → FutureState F C → Type 0) (u : FutureState F C)
        → Each P' s.futures
        → P' i u
        → IsFit shared P' (after i r u s)
    after-IsFit P' u h h' = record {
      is_queued = record {
        marks = subst (λ l. Marks l (put i false s.notified)) (sym d) marks.1;
        room = k ∙ c.fit.is_queued.room ∙ sym (length-put i false s.notified);
      };
      same_length =
          length-put i false s.notified ∙ c.fit.same_length ∙ sym (length-put i u s.futures);
      fine = Each-put P' i u s.futures h h';
    }

    after-IsOpen : (u : FutureState F C) → All (IsOpen (put i u s.futures)) (shared.contents r)
    after-IsOpen u = subst (All (IsOpen (put i u s.futures))) (sym d) (
        All-IsOpen-put i u s.futures is
          (Marks-other i is (put i false s.notified) (get_elem?-put i false s.notified marks.0)
            marks.1)
          IsOpen-queue.1)

    after-IsCounted :
        (u : FutureState F C) (done : ℕ)
        → Fine i u
        → done ≡ settled (put i u s.futures)
        → IsCounted shared Fine (record (after i r u s) { done = done })
    after-IsCounted u done h e' =
        let fit = after-IsFit Fine u c.fit.fine h in
        record {
          fit = record {
            is_queued = record { marks = fit.is_queued.marks; room = fit.is_queued.room };
            same_length = fit.same_length;
            fine = fit.fine;
          };
          once = c.once;
          count = e';
          woken_running = after-IsOpen u;
        }

  -- What the rest of the loop gives, given what the call of the first future gave.
  drain_on :
      (n : ℕ) (rest is : List ℕ) (s : JoinAll Q W F B C P) (i : ℕ) (r : Q)
      → ((t : JoinAll Q W F B C P)
          → IsCounted shared Fine t
          → shared.contents t.to_poll ≡ is
          → Drains n rest t)
      → IsCounted shared Fine s
      → shared.contents s.to_poll ≡ i ∷ is
      → shared.pop s.to_poll ≡ some (i, r)
      → shared.contents r ≡ is
      → shared.capacity r ≡ shared.capacity s.to_poll
      → Drains (suc n) rest s
  unfolding Drained
  drain_on n rest is s i r more c e h d k =
      let (st, (g, o)) = (IsOpen-queue s c i is e r d k).0 in
      let (p, (u, (a, w))) = calm.answers i st (Each-get_elem? Fine i st s.futures c.fit.fine g) in
      go st g o u p a w
    where
      popped : JoinAll Q W F B C P
      popped = record s { to_poll = r }

      cleared_lem :
          (once : Bool)
          → once ≡ true
          → cleared shared i (record popped { polled_once = once })
            ≡ record popped { polled_once = once; notified = put i false s.notified }
      cleared_lem true h = refl
      cleared_lem false h = absurd (cc)

      same : (u : FutureState F C) → Same s (after i r u s)
      same u = record { same_length = length-put i u s.futures; same_state = refl }

      called :
          (st u : FutureState F C) (p : Poll (ControlFlow X (Unit {0})))
          → get_elem? s.futures i ≡ some st
          → f i st ≡ returned (p, u, [])
          → visit shared f i popped ≡ returned (counted shared f p (after i r u s))
      called st u p g a =
          visit-returned shared f i popped st u p g a
          ∙ ap
              (λ (t : JoinAll Q W F B C P).
                returned (counted shared f p (record t { futures = put i u s.futures })))
              (cleared_lem s.polled_once c.once)

      step :
          (st u : FutureState F C) (p : Poll (ControlFlow X (Unit {0})))
          → get_elem? s.futures i ≡ some st
          → f i st ≡ returned (p, u, [])
          → poll_each shared f (suc n) rest s
            ≡ visited shared f (poll_each shared f n rest) (counted shared f p (after i r u s))
      step st u p g a =
          poll_each-suc shared f n i rest rest s popped ((counted shared f p (after i r u s)).1)
            ((counted shared f p (after i r u s)).0) (next-queue shared f rest s i r c.once h)
            (called st u p g a)

      onward :
          (t : JoinAll Q W F B C P)
          → Same s t
          → poll_each shared f (suc n) rest s ≡ poll_each shared f n rest t
          → Drains n rest t
          → Drains (suc n) rest s
      onward t w q (none, (v, (a, b))) = (
        none,
        (
          v,
          (
            q ∙ a,
            (
              b.0,
              record {
                same_length = b.1.same_length ∙ w.same_length;
                same_state = b.1.same_state ∙ w.same_state;
              },
            ),
          ),
        ),
      )
      onward t w q (some x, (v, (a, b))) = (
        some x,
        (
          v,
          (
            q ∙ a,
            (
              b.0,
              b.1,
              record {
                same_length = b.2.same_length ∙ w.same_length;
                same_state = b.2.same_state ∙ w.same_state;
              },
            ),
          ),
        ),
      )

      go :
          (st : FutureState F C)
          → get_elem? s.futures i ≡ some st
          → settled_one st ≡ 0
          → (u : FutureState F C) (p : Poll (ControlFlow X (Unit {0})))
          → f i st ≡ returned (p, u, [])
          → Answers f Fine Rest Breaks i st p u
          → Drains (suc n) rest s
      go st g o u pending a w = onward (after i r u s) (same u) (step st u pending g a) (
          more (after i r u s)
            (after-IsCounted s c i is e r d k u s.done w.2
              (omega (arith, settled-put i st u s.futures g, c.count, w.1, o)))
            d)
      go st g o u (ready (continue v)) a w =
          onward (record (after i r u s) { done = s.done + 1 })
            (record { same_length = length-put i u s.futures; same_state = refl })
            (step st u (ready (continue v)) g a)
            (more (record (after i r u s) { done = s.done + 1 })
              (after-IsCounted s c i is e r d k u (s.done + 1) w.1
                (omega (arith, settled-put i st u s.futures g, c.count, w.0, o)))
              d)
      go st g o u (ready (break b)) a w = (
        some b,
        (
          after i r u s,
          (
            step st u (ready (break b)) g a,
            (
              w.0,
              after-IsFit s c i is e r d k Rest u
                  (Each-map Fine Rest s.futures calm.rest c.fit.fine) w.1,
              same u,
            ),
          ),
        ),
      )

  pub drain :
      (n : ℕ) (rest is : List ℕ) (s : JoinAll Q W F B C P)
      → length is < n
      → shared.contents s.to_poll ≡ is
      → IsCounted shared Fine s
      → Drains n rest s
  unfolding Drained poll_each
  drain zero rest is s l e c = absurd (omega arith)
  drain (suc n) rest [] s l e c = (
    none,
    (
      s,
      (
        rw (poll_each, next-empty shared f rest s c.once (shared.pop-empty s.to_poll e)) refl,
        (c, record { same_length = refl; same_state = refl }),
      ),
    ),
  )
  drain (suc n) rest (i ∷ is) s l e c =
      let (r, (h, d, k)) = shared.pop-contents i is s.to_poll e in
      drain_on n rest is s i r (λ t c e. drain n rest is t (omega arith) e c) c e h d k
