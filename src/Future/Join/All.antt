-- ===== src/Future/Join/All.antt =====
-- src/future/join/all/base.rs: `JoinAll`, which polls the futures of a list, each at first and then the
-- woken ones.
pub mod Marks
pub mod Queue
pub mod Wakes
pub mod Settled
pub mod History
pub mod Rounds
pub mod Later
pub mod First
pub mod Whole
pub mod Joined
pub mod Results
pub mod Breaks
pub mod Polls
pub mod Steps
pub mod Runs
pub mod Stray
pub mod Variants
use completion.Common.{
  ℕ, zero, suc, ◌+◌, ◌≡◌, ◌<◌, ◌++◌, Bool, true, false, Option, none, some, List, [], ◌∷◌, length,
  get_elem?, put, replicate, map, if◌then◌else◌, ◌==◌, Result, ok, err,
}
use completion.Poll.{Poll, pending, ready, Run, out_of_fuel, returned, ◌>>=◌}
use completion.Future.Join.{ControlFlow, break, continue, ControlFlowFuture, FutureState, Visit}
use completion.Future.Join as Join

-- What the code uses of `concurrent_queue::ConcurrentQueue` (first in, first out, of a fixed
-- capacity) and of `atomic_waker::AtomicWaker`.
pub record Shared (Q W : Type 0) : Type 0 where
  pub bounded : ℕ → Run Q
  pub push : ℕ → Q → Option Q
  pub pop : Q → Option (ℕ × Q)
  pub contents : Q → List ℕ
  pub capacity : Q → ℕ
  pub waker : W
  pub register : W → W
  pub wake : W → W
  pub bounded-contents :
      (n : ℕ) → 0 < n → (q : Q) × ((bounded n ≡ returned q) × (contents q ≡ []) × (capacity q ≡ n))
  pub push-contents :
      (i : ℕ) (q : Q)
      → length (contents q) < capacity q
      → (r : Q) × ((push i q ≡ some r)
          × (contents r ≡ contents q ++ (i ∷ []))
          × (capacity r ≡ capacity q))
  pub pop-empty : (q : Q) → contents q ≡ [] → pop q ≡ none
  pub pop-contents :
      (i : ℕ) (is : List ℕ) (q : Q)
      → contents q ≡ i ∷ is
      → (r : Q) × ((pop q ≡ some (i, r)) × (contents r ≡ is) × (capacity r ≡ capacity q))

pub data State (B P : Type 0) : Type 0 where
  running : State B P
  broken : B → State B P
  cancelling : State B P
  panicked : P → State B P
  done : State B P

-- `notified` holds the flags of the list `waker_states`.
pub record JoinAll (Q W F B C P : Type 0) : Type 0 where
  pub futures : List (FutureState F C)
  pub state : State B P
  pub polled_once : Bool
  pub done : ℕ
  pub to_poll : Q
  pub waker : W
  pub notified : List Bool

-- The range from `k` on, of `n` numbers.
abbrev pub range : ℕ → ℕ → List ℕ
range k zero = []
range k (suc n) = k ∷ range (suc k) n

module _ {Q W F B C P : Type 0} (shared : Shared Q W) where
  unfoldable pub new : List F → Run (JoinAll Q W F B C P)
  new futures = shared.bounded (length futures) >>= λ q. returned (record {
    futures = map FutureState.running futures;
    state = State.running;
    polled_once = false;
    done = 0;
    to_poll = q;
    waker = shared.waker;
    notified = replicate (length futures) false;
  })

  -- `to_poll.push(index).unwrap()`, and what follows it.
  abbrev pub pushed : ℕ → JoinAll Q W F B C P → Run (JoinAll Q W F B C P)
  pushed i s = elim (shared.push i s.to_poll) [
    | none ↦ Run.panicked
    | some q ↦
        returned
          (record s { notified = put i true s.notified; to_poll = q; waker = shared.wake s.waker })
  ]

  -- `WakerState::wake` of the waker with an index. There is no waker past the end of the list.
  unfoldable pub wake : ℕ → JoinAll Q W F B C P → Run (JoinAll Q W F B C P)
  wake i s = elim (get_elem? s.notified i) [
    | none ↦ Run.panicked
    | some true ↦ returned s
    | some false ↦ pushed i s
  ]

  unfoldable pub wake_each : List ℕ → JoinAll Q W F B C P → Run (JoinAll Q W F B C P)
  wake_each [] s = returned s
  wake_each (i ∷ is) s = wake i s >>= wake_each is

  -- The next index, from the queue or from the range, with the rest of the range.
  abbrev pub next : List ℕ → JoinAll Q W F B C P → Option (ℕ × List ℕ × JoinAll Q W F B C P)
  next is s =
      if s.polled_once
      then elim (shared.pop s.to_poll) [
        | none ↦ none
        | some (i, q) ↦ some (i, is, record s { to_poll = q })
      ]
      else elim is [ [] ↦ none | i ∷ rest ↦ some (i, rest, s) ]

  -- The flag is cleared before the call, in all polls but the first.
  abbrev pub cleared : ℕ → JoinAll Q W F B C P → JoinAll Q W F B C P
  cleared i s = if s.polled_once then record s { notified = put i false s.notified } else s

  module _ {X : Type 0} (f : ℕ → FutureState F C → Visit F C X) where
    abbrev pub counted :
        Poll (ControlFlow X (Unit {0})) → JoinAll Q W F B C P → Option X × JoinAll Q W F B C P
    counted (ready (continue u)) s = (none, record s { done = s.done + 1 })
    counted (ready (break b)) s = (some b, s)
    counted pending s = (none, s)

    abbrev pub called : ℕ → JoinAll Q W F B C P → Visit F C X → Run (Option X × JoinAll Q W F B C P)
    called i s v = v >>= λ r.
        wake_each r.2 (record s { futures = put i r.1 s.futures }) >>= λ t. returned (counted r.0 t)

    -- The body of the loop for one index.
    unfoldable pub visit : ℕ → JoinAll Q W F B C P → Run (Option X × JoinAll Q W F B C P)
    visit i s =
        let t = cleared i s in
        elim (get_elem? t.futures i) [ none ↦ Run.panicked | some st ↦ called i t (f i st) ]

    abbrev pub visited :
        (JoinAll Q W F B C P → Run (Option X × JoinAll Q W F B C P))
        → Option X × JoinAll Q W F B C P
        → Run (Option X × JoinAll Q W F B C P)
    visited rest (some b, s) = returned (some b, s)
    visited rest (none, s) = rest s

    unfoldable pub poll_each :
        ℕ → List ℕ → JoinAll Q W F B C P → Run (Option X × JoinAll Q W F B C P)
    poll_each zero is s = out_of_fuel
    poll_each (suc n) is s = elim (next is s) [
      | none ↦ returned (none, s)
      | some (i, rest, t) ↦ visit i t >>= visited (poll_each n rest)
    ]

    -- The end of the loop; the test is whether all futures are done.
    abbrev pub ended :
        Bool → JoinAll Q W F B C P → ControlFlow X (Poll (State B P)) × JoinAll Q W F B C P
    ended true s = (continue (ready s.state), record s { polled_once = true; state = State.done })
    ended false s = (continue pending, record s { polled_once = true })

    abbrev pub finished :
        Option X × JoinAll Q W F B C P → ControlFlow X (Poll (State B P)) × JoinAll Q W F B C P
    finished (some b, s) = (break b, s)
    finished (none, s) = ended (s.done == length s.futures) s

    unfoldable pub poll_with :
        ℕ → JoinAll Q W F B C P → Run (ControlFlow X (Poll (State B P)) × JoinAll Q W F B C P)
    poll_with n s =
        poll_each n (range 0 (length s.futures))
          (if s.polled_once then s else record s { done = 0 })
        >>= λ r. returned (finished r)

  module _ (fut : ControlFlowFuture F B C P) where
    -- What a call of `poll` gives.
    abbrev pub Step : Type 0
    Step = Run (Poll (ControlFlow B (List (FutureState F C))) × JoinAll Q W F B C P)

    -- The call `poll_panicked()`, at whose end the panic goes on, and the result `pending` behind it.
    abbrev pub resumed :
        {R : Type 0}
        → ControlFlow ⊥ (Poll (State B P)) × JoinAll Q W F B C P
        → Run (Poll R × JoinAll Q W F B C P)
    resumed (break e, s) = absurd e
    resumed (continue (ready st), s) = Run.panicked
    resumed (continue pending, s) = returned (pending, s)

    unfoldable pub resume :
        {R : Type 0} → ℕ → JoinAll Q W F B C P → Run (Poll R × JoinAll Q W F B C P)
    resume n s = poll_with (Join.poll_panicked fut) n s >>= resumed

    abbrev pub after_break : ℕ → ControlFlow P (Poll (State B P)) × JoinAll Q W F B C P → Step
    after_break n (break p, s) = resume n (record s { state = State.panicked p })
    after_break n (continue pending, s) = returned (pending, s)
    after_break n (continue (ready (State.broken b)), s) = returned (ready (break b), s)
    after_break n (continue (ready _), s) = Run.panicked

    unfoldable pub poll_broken : ℕ → JoinAll Q W F B C P → Step
    poll_broken n s = elim s.state [
      | State.broken b ↦ poll_with (Join.poll_cancel fut) n s >>= after_break n
      | _ ↦ resume n s
    ]

    abbrev pub after_run :
        ℕ → ControlFlow (Result B P) (Poll (State B P)) × JoinAll Q W F B C P → Step
    after_run n (break (ok b), s) =
        poll_broken n (record s { polled_once = false; state = State.broken b })
    after_run n (break (err p), s) =
        poll_broken n (record s { polled_once = false; state = State.panicked p })
    after_run n (continue pending, s) = returned (pending, s)
    after_run n (continue (ready st), s) =
        returned (ready (continue s.futures), record s { futures = [] })

    unfoldable pub poll : ℕ → JoinAll Q W F B C P → Step
    poll n s =
        let t = record s { waker = shared.register s.waker } in
        elim t.state [
          | State.running ↦ poll_with (Join.poll fut) n t >>= after_run n
          | _ ↦ poll_broken n t
        ]

    abbrev pub after_cancel :
        ℕ
        → ControlFlow P (Poll (State B P)) × JoinAll Q W F B C P
        → Run (Poll (Unit {0}) × JoinAll Q W F B C P)
    after_cancel n (break p, s) = resume n (record s { state = State.panicked p })
    after_cancel n (continue pending, s) = returned (pending, s)
    after_cancel n (continue (ready st), s) = returned (ready tt, s)

    -- The first lines of `poll_cancel`: the state in which the cancelling begins.
    abbrev pub begin_cancel : JoinAll Q W F B C P → JoinAll Q W F B C P
    begin_cancel s = elim s.state [
      | State.running ↦ record s { state = State.cancelling; polled_once = false }
      | State.broken b ↦ record s { state = State.cancelling; polled_once = false }
      | _ ↦ s
    ]

    unfoldable pub poll_cancel :
        ℕ → JoinAll Q W F B C P → Run (Poll (Unit {0}) × JoinAll Q W F B C P)
    poll_cancel n s =
        let t = begin_cancel (record s { waker = shared.register s.waker }) in
        elim t.state [
          | State.cancelling ↦ poll_with (Join.poll_cancel fut) n t >>= after_cancel n
          | _ ↦ resume n t
        ]

-- The values of `JoinAllOutput`, whose `next` takes the futures in order; another state than
-- `completed` is the `unreachable!()` of the code.
unfoldable pub outputs : {F C : Type 0} → List (FutureState F C) → Run (List C)
outputs [] = returned []
outputs (FutureState.completed c ∷ rest) = outputs rest >>= λ cs. returned (c ∷ cs)
outputs (_ ∷ rest) = Run.panicked
