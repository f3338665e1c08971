-- ===== src/Future/Join/All/Queue.antt =====
-- The queue of the woken futures and the flags of their wakers agree.
use completion.Common.{
  ℕ, zero, suc, ◌≡◌, ◌<◌, ◌++◌, refl, sym, ◌∙◌, subst, Bool, true, false, Option, none, some, List,
  [], ◌∷◌, length, get_elem?, put, length-put, Option-cases, inl, inr, ◌⊎◌, if◌then◌else◌, ◌==◌,
}
use completion.Poll.{Poll, pending, ready, Run, out_of_fuel, panicked, returned, ◌>>=◌}
use completion.Future.Join.{ControlFlow, break, continue, FutureState, Visit}
use completion.Future.Join.All.Marks.{Marks, Marks-push, length-Marks}
use completion.Future.Join.All.{
  Shared, JoinAll, wake, wake_each, visit, poll_each, poll_with, counted, next, finished, range,
  ended, pushed, visited, cleared, called,
}

module _ {Q W F B C P : Type 0} (shared : Shared Q W) where
  pub record IsQueued (s : JoinAll Q W F B C P) : Type 0 where
    pub marks : Marks (shared.contents s.to_poll) s.notified
    pub room : shared.capacity s.to_poll ≡ length s.notified

  -- The new state differs in the queue, the flags and the outer waker alone.
  pub record Woken (i : ℕ) (s t : JoinAll Q W F B C P) : Type 0 where
    pub is_queued : IsQueued t
    pub same_flags : length t.notified ≡ length s.notified
    pub queue :
        ((get_elem? s.notified i ≡ some true)
          × (shared.contents t.to_poll ≡ shared.contents s.to_poll))
        ⊎ (shared.contents t.to_poll ≡ shared.contents s.to_poll ++ (i ∷ []))
    pub kept : t ≡ record s { to_poll = t.to_poll; waker = t.waker; notified = t.notified }

  pub wake_lem :
      (i : ℕ) (s : JoinAll Q W F B C P) (b : Bool)
      → IsQueued s
      → get_elem? s.notified i ≡ some b
      → (t : JoinAll Q W F B C P) × ((wake shared i s ≡ returned t) × Woken i s t)
  unfolding wake
  wake_lem i s true q e = (
    s,
    (
      rw (wake, e) refl,
      record { is_queued = q; same_flags = refl; queue = inl (e, refl); kept = refl },
    ),
  )
  wake_lem i s false q e =
      let (r, (p, c, k)) = shared.push-contents i s.to_poll (
        subst (length (shared.contents s.to_poll) <◌) (sym q.room)
          (length-Marks (shared.contents s.to_poll) i s.notified q.marks e)) in
      let flags = length-put i true s.notified in
      (
        record s { notified = put i true s.notified; to_poll = r; waker = shared.wake s.waker },
        (
          rw (wake, e, pushed, p) refl,
          record {
            is_queued = record {
              marks =
                  subst (λ l. Marks l (put i true s.notified)) (sym c)
                    (Marks-push (shared.contents s.to_poll) i s.notified q.marks e);
              room = k ∙ q.room ∙ sym flags;
            };
            same_flags = flags;
            queue = inr c;
            kept = refl;
          },
        ),
      )

  -- What a call leaves, if it comes to an end.
  abbrev pub Leaves {ℓ} :
      {A : Type ℓ} → (JoinAll Q W F B C P → Type 0) → Run (A × JoinAll Q W F B C P) → Type 0
  Leaves I out_of_fuel = Unit
  Leaves I panicked = Unit
  Leaves I (returned (a, t)) = I t

  pub Leaves-bind {ℓ κ} :
      {A : Type ℓ} {B' : Type κ} (I J : JoinAll Q W F B C P → Type 0)
      (r : Run (A × JoinAll Q W F B C P))
      (k : A × JoinAll Q W F B C P → Run (B' × JoinAll Q W F B C P))
      → Leaves I r
      → ((a : A) (t : JoinAll Q W F B C P) → I t → Leaves J (k (a, t)))
      → Leaves J (r >>= k)
  Leaves-bind I J out_of_fuel k h g = tt
  Leaves-bind I J panicked k h g = tt
  Leaves-bind I J (returned (a, t)) k h g = g a t h

  wake-cases :
      (i : ℕ) (s : JoinAll Q W F B C P)
      → (get_elem? s.notified i ≡ none) ⊎ ((b : Bool) × (get_elem? s.notified i ≡ some b))
  wake-cases i s = Option-cases (get_elem? s.notified i)

  -- Also when there is no such waker.
  abbrev pub StaysQueued : Run (JoinAll Q W F B C P) → Type 0
  StaysQueued out_of_fuel = Unit
  StaysQueued panicked = Unit
  StaysQueued (returned t) = IsQueued t

  pub wake-StaysQueued :
      (i : ℕ) (s : JoinAll Q W F B C P) → IsQueued s → StaysQueued (wake shared i s)
  unfolding wake
  wake-StaysQueued i s q = elim (wake-cases i s) [
    | inl e ↦ subst StaysQueued (sym (the_panic e)) tt
    | inr (b, e) ↦ let (t, (p, w)) = wake_lem i s b q e in subst StaysQueued (sym p) w.is_queued
  ]
    where
      the_panic : get_elem? s.notified i ≡ none → wake shared i s ≡ panicked
      the_panic e = rw (wake, e) refl

  wake_each-StaysQueued :
      (is : List ℕ) (s : JoinAll Q W F B C P) → IsQueued s → StaysQueued (wake_each shared is s)
  unfolding wake_each
  wake_each-StaysQueued [] s q = q
  wake_each-StaysQueued (i ∷ is) s q =
      go (λ t h. wake_each-StaysQueued is t h) (wake shared i s) (wake-StaysQueued i s q)
    where
      go :
          ((t : JoinAll Q W F B C P) → IsQueued t → StaysQueued (wake_each shared is t))
          → (r : Run (JoinAll Q W F B C P)) → StaysQueued r
          → StaysQueued (r >>= wake_each shared is)
      go k out_of_fuel h = tt
      go k panicked h = tt
      go k (returned t) h = k t h

  module _ {X : Type 0} (f : ℕ → FutureState F C → Visit F C X) where
    counted-IsQueued :
        (p : Poll (ControlFlow X (Unit {0}))) (s : JoinAll Q W F B C P)
        → IsQueued s
        → IsQueued ((counted shared f p s).1)
    counted-IsQueued pending s q = q
    counted-IsQueued (ready (break b)) s q = q
    counted-IsQueued (ready (continue u)) s q = record { marks = q.marks; room = q.room }

    called-IsQueued :
        (i : ℕ) (s : JoinAll Q W F B C P) (v : Visit F C X)
        → IsQueued s
        → Leaves IsQueued (called shared f i s v)
    called-IsQueued i s out_of_fuel q = tt
    called-IsQueued i s panicked q = tt
    called-IsQueued i s (returned (p, st, ws)) q =
        go (wake_each shared ws (record s { futures = put i st s.futures })) (
          wake_each-StaysQueued ws (record s { futures = put i st s.futures })
            (record { marks = q.marks; room = q.room }))
      where
        go :
            (r : Run (JoinAll Q W F B C P))
            → StaysQueued r
            → Leaves IsQueued (r >>= λ t. returned (counted shared f p t))
        go out_of_fuel h = tt
        go panicked h = tt
        go (returned t) h = counted-IsQueued p t h

    visit-IsQueued :
        (i : ℕ) (s : JoinAll Q W F B C P)
        → IsQueued (cleared shared i s)
        → Leaves IsQueued (visit shared f i s)
    unfolding visit
    visit-IsQueued i s q = go (get_elem? (cleared shared i s).futures i)
      where
        go :
            (o : Option (FutureState F C))
            → Leaves IsQueued (elim o [
              | none ↦ Run.panicked
              | some st ↦ called shared f i (cleared shared i s) (f i st)
            ])
        go none = tt
        go (some st) = called-IsQueued i (cleared shared i s) (f i st) q

  -- The step that takes an index leaves the state in which its flag is yet to be cleared.
  Taken : Option (ℕ × List ℕ × JoinAll Q W F B C P) → Type 0
  Taken none = Unit
  Taken (some (i, rest, t)) = IsQueued (cleared shared i t)

  next-Taken : (is : List ℕ) (s : JoinAll Q W F B C P) → IsQueued s → Taken (next shared is s)
  unfolding Taken
  next-Taken is s q = go s.polled_once is
    where
      go :
          (once : Bool) (rest : List ℕ) → Taken (next shared rest (record s { polled_once = once }))
      go false [] = tt
      go false (i ∷ rest) = record { marks = q.marks; room = q.room }
      go true rest = from_queue (shared.contents s.to_poll) refl
        where
          from_queue :
              (queue : List ℕ)
              → shared.contents s.to_poll ≡ queue
              → Taken (next shared rest (record s { polled_once = true }))
          from_queue [] c = rw (shared.pop-empty s.to_poll c) tt
          from_queue (i ∷ queue) c =
              let (r, (p, d, k)) = shared.pop-contents i queue s.to_poll c in
              let marks = subst (λ l. Marks l s.notified) c q.marks in
              rw p (record {
                marks = subst (λ l. Marks l (put i false s.notified)) (sym d) marks.1;
                room = k ∙ q.room ∙ sym (length-put i false s.notified);
              })

  module _ {X : Type 0} (f : ℕ → FutureState F C → Visit F C X) where
    poll_each-IsQueued :
        (n : ℕ) (is : List ℕ) (s : JoinAll Q W F B C P)
        → IsQueued s
        → Leaves IsQueued (poll_each shared f n is s)
    unfolding poll_each Taken
    poll_each-IsQueued zero is s q = tt
    poll_each-IsQueued (suc n) is s q =
        go (λ rest t r. poll_each-IsQueued n rest t r) (next shared is s) (next-Taken is s q)
      where
        go :
            ((rest : List ℕ) (t : JoinAll Q W F B C P)
              → IsQueued t
              → Leaves IsQueued (poll_each shared f n rest t))
            → (o : Option (ℕ × List ℕ × JoinAll Q W F B C P)) → Taken o
            → Leaves IsQueued (elim o [
              | none ↦ returned (none, s)
              | some (i, rest, t) ↦
                  visit shared f i t >>= visited shared f (poll_each shared f n rest)
            ])
        go h none k = q
        go h (some (i, rest, t)) k =
            Leaves-bind IsQueued IsQueued (visit shared f i t)
              (visited shared f (poll_each shared f n rest)) (visit-IsQueued f i t k) (on h rest)
          where
            on :
                ((rest : List ℕ) (t : JoinAll Q W F B C P)
                  → IsQueued t
                  → Leaves IsQueued (poll_each shared f n rest t))
                → (rest : List ℕ) (a : Option X) (u : JoinAll Q W F B C P) → IsQueued u
                → Leaves IsQueued (visited shared f (poll_each shared f n rest) (a, u))
            on h rest none u r = h rest u r
            on h rest (some b) u r = r

    finished-IsQueued :
        (a : Option X) (s : JoinAll Q W F B C P)
        → IsQueued s
        → IsQueued ((finished shared f (a, s)).1)
    finished-IsQueued (some b) s q = q
    finished-IsQueued none s q = go (s.done == length s.futures)
      where
        go : (full : Bool) → IsQueued ((ended shared f full s).1)
        go true = record { marks = q.marks; room = q.room }
        go false = record { marks = q.marks; room = q.room }

    pub poll_with-IsQueued :
        (n : ℕ) (s : JoinAll Q W F B C P) → IsQueued s → Leaves IsQueued (poll_with shared f n s)
    unfolding poll_with
    poll_with-IsQueued n s q =
        Leaves-bind IsQueued IsQueued
          (poll_each shared f n (range 0 (length s.futures))
            (if s.polled_once then s else record s { done = 0 }))
          (λ r. returned (finished shared f r)) (go s.polled_once) finished-IsQueued
      where
        go :
            (once : Bool)
            → Leaves IsQueued (
                poll_each shared f n
                  (range 0 (length s.futures))
                  (if once then s else record s { done = 0 }))
        go true = poll_each-IsQueued n (range 0 (length s.futures)) s q
        go false =
            poll_each-IsQueued n (range 0 (length s.futures)) (record s { done = 0 })
              (record { marks = q.marks; room = q.room })
