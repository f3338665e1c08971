-- ===== src/Future/Join/All/Joined.antt =====
-- Futures that neither panic nor wake a waker in a call.
use completion.Common.{
  ℕ, suc, ◌≡◌, ◌<◌, refl, some, List, [], ◌∷◌, length, get_elem?, All, Matches, arith, Result, ok,
  err, inl, inr,
}
use completion.Poll.{Poll, pending, ready, panicked, returned}
use completion.Future.Join.{ControlFlow, break, continue, ControlFlowFuture, FutureState, Visit}
use completion.Future.Join as Join
use completion.Future.Join.All.Settled.{settled_one, settled}
use completion.Future.Join.All.History.{
  Polled, Continues, BreaksOff, Cancelling, Cancelled, Joined, IsJoined, IsLeft, Broke,
}
use completion.Future.Join.All.Rounds.{IsCalm, Answers}
use completion.Future.Join.All.{outputs}

-- A future that can be polled.
abbrev pub IsLive : {F C : Type 0} → FutureState F C → Type 0
IsLive (FutureState.running f) = Unit
IsLive (FutureState.completed c) = Unit
IsLive _ = ⊥

-- If all futures have given a value, these are the values that are handed out, in order.
pub outputs-Matches :
    {F C : Type 0} (J : ℕ → F → FutureState F C → Type 0) (K : ℕ → F → C → Type 0)
    → ((i : ℕ) (f : F) (c : C) → J i f (FutureState.completed c) → K i f c)
    → ((i : ℕ) (f : F) (st : FutureState F C) → J i f st → IsLive st)
    → (futures : List F) (sts : List (FutureState F C))
    → Matches (λ i f st. (settled_one st ≡ 1) × J i f st) futures sts
    → (cs : List C) × ((outputs sts ≡ returned cs) × Matches K futures cs)
unfolding outputs
outputs-Matches J K done live [] [] m = ([], (refl, tt))
outputs-Matches J K done live (f ∷ futures) [] m = absurd m
outputs-Matches J K done live [] (st ∷ sts) m = absurd m
outputs-Matches J K done live (f ∷ futures) (FutureState.completed c ∷ sts) m =
    let (cs, (e, k)) =
      outputs-Matches (λ i. J (suc i)) (λ i. K (suc i)) (λ i. done (suc i)) (λ i. live (suc i))
        futures sts m.1 in
    (c ∷ cs, (rw e refl, (done 0 f c (m.0).1, k)))
outputs-Matches J K done live (f ∷ futures) (FutureState.running g ∷ sts) m =
    absurd (omega (arith, (m.0).0))
outputs-Matches J K done live (f ∷ futures) (FutureState.cancelled ∷ sts) m =
    absurd (live 0 f FutureState.cancelled (m.0).1)
outputs-Matches J K done live (f ∷ futures) (FutureState.taken ∷ sts) m =
    absurd (live 0 f FutureState.taken (m.0).1)

-- Another state than `completed` is reached.
pub outputs-running :
    {F C : Type 0} (sts : List (FutureState F C))
    → All IsLive sts
    → settled sts < length sts
    → outputs sts ≡ panicked
unfolding outputs
outputs-running [] h l = absurd (omega (arith, l))
outputs-running (FutureState.completed c ∷ sts) h l =
    rw (outputs, outputs-running sts h.1 (omega (arith, l))) refl
outputs-running (FutureState.running f ∷ sts) h l = refl
outputs-running (FutureState.cancelled ∷ sts) h l = absurd h.0
outputs-running (FutureState.taken ∷ sts) h l = absurd h.0

module _ {F B C P : Type 0} (fut : ControlFlowFuture F B C P) where
  -- A call returns, and wakes no waker before it does.
  pub record IsQuiet : Type 0 where
    pub polls :
        (i : ℕ) (f : F)
        → (p : Poll (ControlFlow B C)) × ((g : F) × (fut.poll i f ≡ (ok (p, g), [])))
    pub cancels :
        (i : ℕ) (f : F)
        → (p : Poll (Unit {0})) × ((g : F) × (fut.poll_cancel i f ≡ (ok (p, g), [])))

  pub Joined-IsLive : (i : ℕ) (f : F) (st : FutureState F C) → Joined fut i f st → IsLive st
  Joined-IsLive i f (FutureState.running g) h = tt
  Joined-IsLive i f (FutureState.completed c) h = tt
  Joined-IsLive i f FutureState.cancelled h = absurd h
  Joined-IsLive i f FutureState.taken h = absurd h

  module _ (futures : List F) where
    -- A break comes from one of the futures, and none has panicked.
    abbrev pub NoPanic : Result B P → Type 0
    NoPanic (ok b) = Broke fut futures b
    NoPanic (err p) = ⊥

    IsJoined-IsLeft :
        (i : ℕ) (st : FutureState F C) → IsJoined fut futures i st → IsLeft fut futures i st
    IsJoined-IsLeft i (FutureState.running g) (f, (e, h)) = (f, (e, Cancelling.begun h))
    IsJoined-IsLeft i (FutureState.completed c) h = h
    IsJoined-IsLeft i FutureState.cancelled (f, (e, h)) = absurd h
    IsJoined-IsLeft i FutureState.taken (f, (e, h)) = absurd h

    module _ (quiet : IsQuiet) where
      pub poll-IsCalm : IsCalm (Join.poll fut) (IsJoined fut futures) (IsLeft fut futures) NoPanic
      unfolding Join.poll
      poll-IsCalm = record { answers = answers; rest = IsJoined-IsLeft }
        where
          Answer : ℕ → FutureState F C → Type 0
          Answer i st =
              (p : Poll (ControlFlow (Result B P) (Unit {0}))) × ((u : FutureState F C)
                × ((Join.poll fut i st ≡ returned (p, u, []))
                    × Answers (Join.poll fut) (IsJoined fut futures) (IsLeft fut futures) NoPanic i
                        st p u))

          go :
              (i : ℕ) (f g : F) (p : Poll (ControlFlow B C)) (h : F)
              → get_elem? futures i ≡ some f
              → Polled fut i f g
              → fut.poll i g ≡ (ok (p, h), [])
              → Answer i (FutureState.running g)
          go i f g pending h e k q = (
            pending,
            (
              FutureState.running h,
              (rw (Join.poll, q) refl, (refl, refl, (f, (e, Polled.again k q)))),
            ),
          )
          go i f g (ready (continue c)) h e k q = (
            ready (continue tt),
            (
              FutureState.completed c,
              (rw (Join.poll, q) refl, (refl, (f, (e, Continues.goes_on k q)))),
            ),
          )
          go i f g (ready (break b)) h e k q = (
            ready (break (ok b)),
            (
              FutureState.cancelled,
              (
                rw (Join.poll, q) refl,
                ((i, (f, (e, BreaksOff.breaks k q))), (f, (e, inl (b, BreaksOff.breaks k q)))),
              ),
            ),
          )

          answers : (i : ℕ) (st : FutureState F C) → IsJoined fut futures i st → Answer i st
          answers i (FutureState.completed c) h =
              (ready (continue tt), (FutureState.completed c, (refl, (refl, h))))
          answers i FutureState.cancelled (f, (e, h)) = absurd h
          answers i FutureState.taken (f, (e, h)) = absurd h
          answers i (FutureState.running g) (f, (e, k)) =
              let (p, (h, q)) = quiet.polls i g in go i f g p h e k q

      pub poll_cancel-IsCalm :
          IsCalm (Join.poll_cancel fut) (IsLeft fut futures) (IsLeft fut futures) (λ (p : P). ⊥)
      unfolding Join.poll_cancel
      poll_cancel-IsCalm = record { answers = answers; rest = λ i st h. h }
        where
          Answer : ℕ → FutureState F C → Type 0
          Answer i st =
              (p : Poll (ControlFlow P (Unit {0}))) × ((u : FutureState F C) × ((Join.poll_cancel
                      fut i st
                    ≡ returned (p, u, []))
                  × Answers (Join.poll_cancel fut) (IsLeft fut futures) (IsLeft fut futures)
                      (λ (p : P). ⊥) i st p u))

          go :
              (i : ℕ) (f g : F) (p : Poll (Unit {0})) (h : F)
              → get_elem? futures i ≡ some f
              → Cancelling fut i f g
              → fut.poll_cancel i g ≡ (ok (p, h), [])
              → Answer i (FutureState.running g)
          go i f g pending h e k q = (
            pending,
            (
              FutureState.running h,
              (rw (Join.poll_cancel, q) refl, (refl, refl, (f, (e, Cancelling.again k q)))),
            ),
          )
          go i f g (ready v) h e k q = (
            ready (continue tt),
            (
              FutureState.cancelled,
              (rw (Join.poll_cancel, q) refl, (refl, (f, (e, inr (Cancelled.over k q))))),
            ),
          )

          answers : (i : ℕ) (st : FutureState F C) → IsLeft fut futures i st → Answer i st
          answers i (FutureState.completed c) h =
              (ready (continue tt), (FutureState.completed c, (refl, (refl, h))))
          answers i FutureState.cancelled h =
              (ready (continue tt), (FutureState.cancelled, (refl, (refl, h))))
          answers i FutureState.taken (f, (e, h)) = absurd h
          answers i (FutureState.running g) (f, (e, k)) =
              let (p, (h, q)) = quiet.cancels i g in go i f g p h e k q
