-- ===== src/Future/Join/All/First.antt =====
-- The round in which `poll_with` calls every future, one by one.
use completion.Common.{
  Each, Each-put, Each-get_elem?, Each-map, ℕ, zero, suc, ◌+◌, ◌≡◌, ◌<◌, refl, sym, ap, ◌∙◌, subst,
  Bool, true, false, some, none, List, [], ◌∷◌, length, get_elem?, get_elem?-some, put, length-put,
  take, Option, arith,
}
use completion.Poll.{Poll, pending, ready, returned}
use completion.Future.Join.{ControlFlow, break, continue, FutureState, Visit}
use completion.Future.Join.All.Settled.{settled_one, settled, settled-take-put}
use completion.Future.Join.All.Rounds.{IsCalm, Answers, visit-returned, poll_each-suc, IsFit, Same}
use completion.Future.Join.All.{Shared, JoinAll, next, cleared, counted, poll_each, visited, range}

pub take-length : {A : Type 0} (xs : List A) → take (length xs) xs ≡ xs
take-length [] = refl
take-length (x ∷ xs) = ap (x ∷◌) (take-length xs)

module _ {Q W F B C P X : Type 0} (shared : Shared Q W) (f : ℕ → FutureState F C → Visit F C X)
    (Fine Rest : ℕ → FutureState F C → Type 0) (Breaks : X → Type 0)
    (calm : IsCalm f Fine Rest Breaks) where
  -- The futures before `k` have been called.
  pub record IsPart (k : ℕ) (s : JoinAll Q W F B C P) : Type 0 where
    pub fit : IsFit shared Fine s
    pub once : s.polled_once ≡ false
    pub count : s.done ≡ settled (take k s.futures)

  -- The loop ends behind the last future, or by a break.
  unfoldable pub Swept : JoinAll Q W F B C P → Option X → JoinAll Q W F B C P → Type 0
  Swept s none t = IsPart (length t.futures) t × Same s t × (t.to_poll ≡ s.to_poll)
  Swept s (some b) t = Breaks b × IsFit shared Rest t × Same s t

  abbrev pub Sweeps : ℕ → List ℕ → JoinAll Q W F B C P → Type 0
  Sweeps n is s =
      (o : Option X) × ((t : JoinAll Q W F B C P) × ((poll_each shared f n is s ≡ returned (o, t))
          × Swept s o t))

  -- The state behind the call of a future.
  abbrev after : ℕ → FutureState F C → JoinAll Q W F B C P → JoinAll Q W F B C P
  after i u s = record s { futures = put i u s.futures }

  after-IsFit :
      (P' : ℕ → FutureState F C → Type 0) (i : ℕ) (u : FutureState F C) (s : JoinAll Q W F B C P)
      → IsFit shared Fine s
      → Each P' s.futures
      → P' i u
      → IsFit shared P' (after i u s)
  after-IsFit P' i u s c h h' = record {
    is_queued = record { marks = c.is_queued.marks; room = c.is_queued.room };
    same_length = c.same_length ∙ sym (length-put i u s.futures);
    fine = Each-put P' i u s.futures h h';
  }

  after-IsPart :
      (i done : ℕ) (u st : FutureState F C) (s : JoinAll Q W F B C P)
      → IsPart i s
      → get_elem? s.futures i ≡ some st
      → Fine i u
      → done ≡ s.done + settled_one u
      → IsPart (suc i) (record (after i u s) { done = done })
  after-IsPart i done u st s c g h e =
      let fit = after-IsFit Fine i u s c.fit c.fit.fine h in
      record {
        fit = record {
          is_queued = record { marks = fit.is_queued.marks; room = fit.is_queued.room };
          same_length = fit.same_length;
          fine = fit.fine;
        };
        once = c.once;
        count = omega (arith, settled-take-put i st u s.futures g, c.count, e);
      }

  step :
      (n i : ℕ) (rest : List ℕ) (s : JoinAll Q W F B C P) (st u : FutureState F C)
      (p : Poll (ControlFlow X (Unit {0})))
      → s.polled_once ≡ false
      → get_elem? s.futures i ≡ some st
      → f i st ≡ returned (p, u, [])
      → poll_each shared f (suc n) (i ∷ rest) s
        ≡ visited shared f (poll_each shared f n rest) (counted shared f p (after i u s))
  step n i rest s st u p once g a =
      poll_each-suc shared f n i (i ∷ rest) rest s s ((counted shared f p (after i u s)).1)
        ((counted shared f p (after i u s)).0) (next_lem s.polled_once once)
        (visit-returned shared f i s st u p g a
          ∙ ap
              (λ (t : JoinAll Q W F B C P).
                returned (counted shared f p (record t { futures = put i u s.futures })))
              (cleared_lem s.polled_once once))
    where
      next_lem :
          (b : Bool)
          → b ≡ false
          → next shared (i ∷ rest) (record s { polled_once = b })
            ≡ some (i, rest, record s { polled_once = b })
      next_lem false e = refl
      next_lem true e = absurd (cc)

      cleared_lem :
          (b : Bool)
          → b ≡ false
          → cleared shared i (record s { polled_once = b }) ≡ record s { polled_once = b }
      cleared_lem false e = refl
      cleared_lem true e = absurd (cc)

  onward :
      (n i m : ℕ) (s t : JoinAll Q W F B C P)
      → length t.futures ≡ length s.futures
      → t.state ≡ s.state
      → t.to_poll ≡ s.to_poll
      → poll_each shared f (suc n) (range i (suc m)) s ≡ poll_each shared f n (range (suc i) m) t
      → Sweeps n (range (suc i) m) t
      → Sweeps (suc n) (range i (suc m)) s
  unfolding Swept
  onward n i m s t l w z q (none, (v, (a, b))) = (
    none,
    (
      v,
      (
        q ∙ a,
        (
          b.0,
          record { same_length = b.1.same_length ∙ l; same_state = b.1.same_state ∙ w },
          b.2 ∙ z,
        ),
      ),
    ),
  )
  onward n i m s t l w z q (some x, (v, (a, b))) = (
    some x,
    (
      v,
      (
        q ∙ a,
        (b.0, b.1, record { same_length = b.2.same_length ∙ l; same_state = b.2.same_state ∙ w }),
      ),
    ),
  )

  pub sweep :
      (n m k : ℕ) (s : JoinAll Q W F B C P)
      → m < n
      → k + m ≡ length s.futures
      → IsPart k s
      → Sweeps n (range k m) s
  unfolding Swept poll_each
  sweep zero m k s l e c = absurd (omega arith)
  sweep (suc n) zero k s l e c = (
    none,
    (
      s,
      (
        ended s.polled_once c.once,
        (all_part, record { same_length = refl; same_state = refl }, refl),
      ),
    ),
  )
    where
      ended :
          (b : Bool)
          → b ≡ false
          → poll_each shared f (suc n) [] (record s { polled_once = b })
            ≡ returned (none, record s { polled_once = b })
      ended false h = refl
      ended true h = absurd (cc)

      all_part : IsPart (length s.futures) s
      all_part = subst (λ j. IsPart j s) (omega (arith, e)) c
  sweep (suc n) (suc m) k s l e c =
      let (st, g) = get_elem?-some k s.futures (omega (arith, e)) in
      let (p, (u, (a, w))) = calm.answers k st (Each-get_elem? Fine k st s.futures c.fit.fine g) in
      go (λ t h d. sweep n m (suc k) t (omega arith) h d) st g u p a w
    where
      go :
          ((t : JoinAll Q W F B C P)
            → suc k + m ≡ length t.futures
            → IsPart (suc k) t
            → Sweeps n (range (suc k) m) t)
          → (st : FutureState F C) → get_elem? s.futures k ≡ some st
          → (u : FutureState F C) (p : Poll (ControlFlow X (Unit {0})))
          → f k st ≡ returned (p, u, [])
          → Answers f Fine Rest Breaks k st p u
          → Sweeps (suc n) (range k (suc m)) s
      go more st g u pending a w =
          onward n k m s (after k u s) (length-put k u s.futures) refl refl
            (step n k (range (suc k) m) s st u pending c.once g a)
            (more (after k u s) (omega (arith, e, length-put k u s.futures))
              (after-IsPart k s.done u st s c g w.2 (omega (arith, w.1))))
      go more st g u (ready (continue v)) a w =
          onward n k m s (record (after k u s) { done = s.done + 1 }) (length-put k u s.futures)
            refl refl (step n k (range (suc k) m) s st u (ready (continue v)) c.once g a)
            (more (record (after k u s) { done = s.done + 1 })
              (omega (arith, e, length-put k u s.futures))
              (after-IsPart k (s.done + 1) u st s c g w.1 (omega (arith, w.0))))
      go more st g u (ready (break b)) a w = (
        some b,
        (
          after k u s,
          (
            step n k (range (suc k) m) s st u (ready (break b)) c.once g a,
            (
              w.0,
              after-IsFit Rest k u s c.fit (Each-map Fine Rest s.futures calm.rest c.fit.fine) w.1,
              record { same_length = length-put k u s.futures; same_state = refl },
            ),
          ),
        ),
      )
