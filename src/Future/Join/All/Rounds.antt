-- ===== src/Future/Join/All/Rounds.antt =====
-- One call of `poll_with` while the futures wake no one: it returns, and counts the settled futures.
use completion.Common.{
  Each, ℕ, suc, ◌≡◌, refl, sym, ◌∙◌, Bool, true, false, some, none, List, [], ◌∷◌, length,
  get_elem?, put, get_elem?-put-other, All, Option,
}
use completion.Poll.{Poll, pending, ready, returned}
use completion.Future.Join.{ControlFlow, break, continue, FutureState, Visit}
use completion.Future.Join.All.Marks.{Marks}
use completion.Future.Join.All.Queue.{IsQueued}
use completion.Future.Join.All.Settled.{settled_one, settled}
use completion.Future.Join.All.{
  Shared, JoinAll, next, cleared, visit, wake_each, counted, poll_each, visited,
}

module _ {F C X : Type 0} (f : ℕ → FutureState F C → Visit F C X)
    (Fine Rest : ℕ → FutureState F C → Type 0) (Breaks : X → Type 0) where
  -- `Fine` futures can be called, and `Rest` holds of all of them behind a break.
  abbrev pub Answers :
      ℕ → FutureState F C → Poll (ControlFlow X (Unit {0})) → FutureState F C → Type 0
  Answers i st pending u = (settled_one st ≡ 0) × (settled_one u ≡ 0) × Fine i u
  Answers i st (ready (continue c)) u = (settled_one u ≡ 1) × Fine i u
  Answers i st (ready (break b)) u = Breaks b × Rest i u

  -- A call returns, and no waker is woken while it runs.
  pub record IsCalm : Type 0 where
    pub answers :
        (i : ℕ) (st : FutureState F C)
        → Fine i st
        → (p : Poll (ControlFlow X (Unit {0}))) × ((u : FutureState F C) × ((f i st
                ≡ returned (p, u, []))
              × Answers i st p u))
    pub rest : (i : ℕ) (st : FutureState F C) → Fine i st → Rest i st

-- The future at the index is running.
abbrev pub IsOpen : {F C : Type 0} → List (FutureState F C) → ℕ → Type 0
IsOpen {F} {C} sts j = (st : FutureState F C) × ((get_elem? sts j ≡ some st) × (settled_one st ≡ 0))

pub Marks-other :
    (i : ℕ) (is : List ℕ) (flags : List Bool)
    → get_elem? flags i ≡ some false
    → Marks is flags
    → All (λ j. i ≡ j → ⊥) is
Marks-other i [] flags h m = tt
Marks-other i (j ∷ is) flags h m = (
  other,
  Marks-other i is (put j false flags)
      (get_elem?-put-other j i false flags (λ e. other (sym e)) ∙ h) m.1,
)
  where
    other : i ≡ j → ⊥
    other e = absurd (cc)

pub All-IsOpen-put :
    {F C : Type 0} (i : ℕ) (u : FutureState F C) (sts : List (FutureState F C)) (is : List ℕ)
    → All (λ j. i ≡ j → ⊥) is
    → All (IsOpen sts) is
    → All (IsOpen (put i u sts)) is
All-IsOpen-put i u sts [] h k = tt
All-IsOpen-put i u sts (j ∷ is) h k =
    let (st, (e, o)) = k.0 in
    ((st, (get_elem?-put-other i j u sts h.0 ∙ e, o)), All-IsOpen-put i u sts is h.1 k.1)

module _ {Q W F B C P X : Type 0} (shared : Shared Q W)
    (f : ℕ → FutureState F C → Visit F C X) where
  pub visit-returned :
      (i : ℕ) (s : JoinAll Q W F B C P) (st u : FutureState F C)
      (p : Poll (ControlFlow X (Unit {0})))
      → get_elem? s.futures i ≡ some st
      → f i st ≡ returned (p, u, [])
      → visit shared f i s
        ≡ returned
            (counted shared f p (record (cleared shared i s) { futures = put i u s.futures }))
  unfolding visit wake_each
  visit-returned i s st u p e h = go s.polled_once
    where
      go :
          (once : Bool)
          → visit shared f i (record s { polled_once = once })
            ≡ returned (
                counted shared f p (record (cleared shared i (record s { polled_once = once })) {
                  futures = put i u s.futures;
                }))
      go true = rw (visit, e, h) refl
      go false = rw (visit, e, h) refl

  pub next-queue :
      (rest : List ℕ) (s : JoinAll Q W F B C P) (i : ℕ) (r : Q)
      → s.polled_once ≡ true
      → shared.pop s.to_poll ≡ some (i, r)
      → next shared rest s ≡ some (i, rest, record s { to_poll = r })
  next-queue rest s i r once h = go s.polled_once once
    where
      go :
          (b : Bool)
          → b ≡ true
          → next shared rest (record s { polled_once = b })
            ≡ some (i, rest, record s { polled_once = b; to_poll = r })
      go true e = rw h refl
      go false e = absurd (cc)

  pub next-empty :
      (rest : List ℕ) (s : JoinAll Q W F B C P)
      → s.polled_once ≡ true
      → shared.pop s.to_poll ≡ none
      → next shared rest s ≡ none
  next-empty rest s once h = go s.polled_once once
    where
      go : (b : Bool) → b ≡ true → next shared rest (record s { polled_once = b }) ≡ none
      go true e = rw h refl
      go false e = absurd (cc)

  -- One round of the loop whose index is known.
  pub poll_each-suc :
      (n i : ℕ) (is rest : List ℕ) (s t u : JoinAll Q W F B C P) (o : Option X)
      → next shared is s ≡ some (i, rest, t)
      → visit shared f i t ≡ returned (o, u)
      → poll_each shared f (suc n) is s ≡ visited shared f (poll_each shared f n rest) (o, u)
  unfolding poll_each
  poll_each-suc n i is rest s t u o e h = rw (poll_each, e, h) refl

module _ {Q W F B C P : Type 0} (shared : Shared Q W) (Fine : ℕ → FutureState F C → Type 0) where
  pub record IsFit (s : JoinAll Q W F B C P) : Type 0 where
    pub is_queued : IsQueued shared s
    pub same_length : length s.notified ≡ length s.futures
    pub fine : Each Fine s.futures

  -- Behind a round in which every future was called: `done` is the number of the settled futures, and only
  -- running futures are woken.
  pub record IsCounted (s : JoinAll Q W F B C P) : Type 0 where
    pub fit : IsFit s
    pub once : s.polled_once ≡ true
    pub count : s.done ≡ settled s.futures
    pub woken_running : All (IsOpen s.futures) (shared.contents s.to_poll)

-- What the rounds leave as it is.
pub record Same {Q W F B C P : Type 0} (s t : JoinAll Q W F B C P) : Type 0 where
  pub same_length : length t.futures ≡ length s.futures
  pub same_state : t.state ≡ s.state
