-- ===== src/Future/Join/All/History.antt =====
-- What the joined futures went through: a state, and the calls that led to it from the future at the
-- same index of the list that was joined.
use completion.Common.{ℕ, ◌≡◌, ◌⊎◌, some, List, get_elem?, ok}
use completion.Poll.{pending, ready}
use completion.Future.Join.{break, continue, ControlFlowFuture, FutureState}
use completion.Future.Join.All.Settled.{settled_one}

module _ {F B C P : Type 0} (fut : ControlFlowFuture F B C P) where
  -- The future `f` of the index `i`, behind calls of `poll` that were pending.
  pub data Polled (i : ℕ) (f : F) : F → Type 0 where
    begun : Polled i f f
    again :
        {g h : F} {ws : List ℕ} → Polled i f g → fut.poll i g ≡ (ok (pending, h), ws) → Polled i f h

  -- Its `poll` comes to give the value `c`, and the others go on.
  pub data Continues (i : ℕ) (f : F) (c : C) : Type 0 where
    goes_on :
        {g h : F} {ws : List ℕ}
        → Polled i f g
        → fut.poll i g ≡ (ok (ready (continue c), h), ws)
        → Continues i f c

  -- Its `poll` comes to give the value `b`, with which the others are broken off.
  pub data BreaksOff (i : ℕ) (f : F) (b : B) : Type 0 where
    breaks :
        {g h : F} {ws : List ℕ}
        → Polled i f g
        → fut.poll i g ≡ (ok (ready (break b), h), ws)
        → BreaksOff i f b

  -- Behind pending calls of `poll`, and then of `poll_cancel`.
  pub data Cancelling (i : ℕ) (f : F) : F → Type 0 where
    begun : {g : F} → Polled i f g → Cancelling i f g
    again :
        {g h : F} {ws : List ℕ}
        → Cancelling i f g
        → fut.poll_cancel i g ≡ (ok (pending, h), ws)
        → Cancelling i f h

  -- Its `poll_cancel` comes to its end.
  pub data Cancelled (i : ℕ) (f : F) : Type 0 where
    over :
        {g h : F} {u : Unit {0}} {ws : List ℕ}
        → Cancelling i f g
        → fut.poll_cancel i g ≡ (ok (ready u, h), ws)
        → Cancelled i f

  -- The states of a future while no other has broken it off.
  abbrev pub Joined : ℕ → F → FutureState F C → Type 0
  Joined i f (FutureState.running g) = Polled i f g
  Joined i f (FutureState.completed c) = Continues i f c
  Joined i f FutureState.cancelled = ⊥
  Joined i f FutureState.taken = ⊥

  -- The states of a future behind a break.
  abbrev pub Left : ℕ → F → FutureState F C → Type 0
  Left i f (FutureState.running g) = Cancelling i f g
  Left i f (FutureState.completed c) = Continues i f c
  Left i f FutureState.cancelled = ((b : B) × BreaksOff i f b) ⊎ Cancelled i f
  Left i f FutureState.taken = ⊥

  -- It has given a value, or has broken the others off, or its cancelling has come to its end.
  abbrev pub Ended : ℕ → F → FutureState F C → Type 0
  Ended i f st = (settled_one st ≡ 1) × Left i f st

  module _ (futures : List F) where
    abbrev pub IsJoined : ℕ → FutureState F C → Type 0
    IsJoined i st = (f : F) × ((get_elem? futures i ≡ some f) × Joined i f st)

    abbrev pub IsLeft : ℕ → FutureState F C → Type 0
    IsLeft i st = (f : F) × ((get_elem? futures i ≡ some f) × Left i f st)

    -- One of the futures has broken the others off with the value `b`.
    abbrev pub Broke : B → Type 0
    Broke b = (i : ℕ) × ((f : F) × ((get_elem? futures i ≡ some f) × BreaksOff i f b))
