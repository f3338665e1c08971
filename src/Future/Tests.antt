-- ===== src/Future/Tests.antt =====
-- A queue, futures that take some polls, and the witnesses of the theorems on `JoinAll`.
use completion.Common.{
  ℕ, zero, suc, ◌+◌, ◌<◌, ◌≡◌, refl, true, false, Option, none, some, List, [], ◌∷◌, ◌++◌, length,
  ltb, lt→ltb, if◌then◌else◌, arith, Result, ok, inl, inr,
}
use completion.Poll.{Poll, pending, ready, panicked, returned, ◌>>=◌}
use completion.Future.Join.{ControlFlow, break, continue, ControlFlowFuture, FutureState}
use completion.Future.Join as Join
use completion.Future.Join.Futures.{JoinedFuture, zip_future, race_future}
use completion.Future.Join.All.Queue.{Woken}
use completion.Future.Join.All.Wakes.{fresh, Reached, wake-Woken}
use completion.Future.Join.All.Joined.{IsQuiet}
use completion.Future.Join.All.Results.{JoinResult}
use completion.Future.Join.All.Runs.{Runs, Cancels, poll-JoinResult}
use completion.Future.Join.All.Stray.{poll-stray_wake}
use completion.Future.Join.All.Variants.{race_all_poll, RaceResult, race_all-RaceResult}
use completion.Future.Join.All.{
  Shared, JoinAll, State, new, wake, wake_each, poll, poll_with, poll_each, visit, poll_broken,
  outputs,
}

-- The capacity and the indices. The waker is the number of its wakes.
abbrev Queue : Type 0
Queue = ℕ × List ℕ

abbrev push_back : ℕ → Queue → Option Queue
push_back i q = if ltb (length q.1) q.0 then some (q.0, q.1 ++ (i ∷ [])) else none

push_back_lem :
    (i : ℕ) (q : Queue)
    → length q.1 < q.0
    → (r : Queue) × ((push_back i q ≡ some r) × (r.1 ≡ q.1 ++ (i ∷ [])) × (r.0 ≡ q.0))
push_back_lem i q l = ((q.0, q.1 ++ (i ∷ [])), (rw (lt→ltb (length q.1) q.0 l) refl, refl, refl))

abbrev pop_front : Queue → Option (ℕ × Queue)
pop_front (cap, []) = none
pop_front (cap, i ∷ is) = some (i, (cap, is))

pop_front-empty : (q : Queue) → q.1 ≡ [] → pop_front q ≡ none
pop_front-empty (cap, []) e = refl
pop_front-empty (cap, i ∷ is) e = absurd (cc)

pop_front_lem :
    (i : ℕ) (is : List ℕ) (q : Queue)
    → q.1 ≡ i ∷ is
    → (r : Queue) × ((pop_front q ≡ some (i, r)) × (r.1 ≡ is) × (r.0 ≡ q.0))
pop_front_lem i is (cap, []) e = absurd (cc)
pop_front_lem i is (cap, j ∷ js) e = ((cap, js), (cc, cc, refl))

abbrev queue : Shared Queue ℕ
queue = record {
  bounded = λ n. if ltb 0 n then returned (n, []) else panicked;
  push = push_back;
  pop = pop_front;
  contents = λ q. q.1;
  capacity = λ q. q.0;
  waker = 0;
  register = λ w. w;
  wake = λ w. w + 1;
  bounded-contents = λ n l. ((n, []), (rw (lt→ltb 0 n l) refl, refl, refl));
  push-contents = push_back_lem;
  pop-empty = pop_front-empty;
  pop-contents = pop_front_lem;
}

-- Pending for some polls, and for one poll of a cancel, and then a value.
abbrev Delay : Type 0
Delay = ℕ × ℕ

abbrev poll_delay : ℕ → Delay → Result (Poll ℕ × Delay) (Unit {0}) × List ℕ
poll_delay i (zero, value) = (ok (ready value, (zero, value)), [])
poll_delay i (suc n, value) = (ok (pending, (n, value)), [])

abbrev delay : JoinedFuture Delay ℕ (Unit {0})
delay = record { poll = poll_delay; poll_cancel = λ i f. (ok (ready tt, f), []) }

zip_delay-IsQuiet : IsQuiet (zip_future delay)
unfolding zip_future
zip_delay-IsQuiet = record { polls = polls; cancels = λ i f. (ready tt, (f, refl)) }
  where
    polls :
        (i : ℕ) (f : Delay)
        → (p : Poll (ControlFlow ⊥ ℕ)) × ((g : Delay) × ((zip_future delay).poll i f
              ≡ (ok (p, g), [])))
    polls i (zero, value) = (ready (continue value), ((zero, value), refl))
    polls i (suc n, value) = (pending, ((n, value), refl))

abbrev delays : List Delay
delays = (1, 7) ∷ (0, 9) ∷ []

-- Before any poll, and behind the first one, in which the second future completes.
abbrev begun : JoinAll Queue ℕ Delay ⊥ ℕ (Unit {0})
begun = fresh queue delays (2, [])

abbrev polled_once : JoinAll Queue ℕ Delay ⊥ ℕ (Unit {0})
polled_once = record {
  futures = FutureState.running (0, 7) ∷ FutureState.completed 9 ∷ [];
  state = State.running;
  polled_once = true;
  done = 1;
  to_poll = (2, []);
  waker = 0;
  notified = false ∷ false ∷ [];
}

begun-new : new queue delays ≡ returned begun
unfolding new
begun-new = refl

polled_once-poll : poll queue (zip_future delay) 5 begun ≡ returned (pending, polled_once)
unfolding poll poll_with poll_each visit wake_each Join.poll zip_future
polled_once-poll = refl

begun-Runs : Runs queue (zip_future delay) delays zip_delay-IsQuiet begun
begun-Runs = Runs.made (omega arith) begun-new

polled_once-Runs : Runs queue (zip_future delay) delays zip_delay-IsQuiet polled_once
polled_once-Runs = Runs.polled 5 begun-Runs (omega arith) polled_once-poll refl

wake-Woken_example :
    (t : JoinAll Queue ℕ Delay ⊥ ℕ (Unit {0})) × ((wake queue 0 polled_once ≡ returned t)
      × Woken queue 0 polled_once t)
wake-Woken_example =
    wake-Woken queue (zip_future delay) 0 polled_once
      (Reached.polled 5 (Reached.made delays (omega arith) begun-new) polled_once-poll)
      (omega arith)

poll-JoinResult_example :
    (p : Poll (ControlFlow ⊥ (List (FutureState Delay ℕ)))) × ((t : JoinAll Queue ℕ Delay ⊥ ℕ
        (Unit {0}))
      × ((poll queue (zip_future delay) 5 polled_once ≡ returned (p, t))
          × JoinResult queue (zip_future delay) delays p t))
poll-JoinResult_example =
    poll-JoinResult queue (zip_future delay) delays zip_delay-IsQuiet 5 polled_once
      (inl polled_once-Runs) (omega arith)

poll-stray_wake_example :
    (t : JoinAll Queue ℕ Delay ⊥ ℕ (Unit {0})) × ((u : JoinAll Queue ℕ Delay ⊥ ℕ (Unit {0}))
      × ((wake queue 1 polled_once ≡ returned t)
          × (poll queue (zip_future delay) 2 t ≡ returned (ready (continue polled_once.futures), u))
          × (outputs polled_once.futures ≡ panicked)))
poll-stray_wake_example =
    poll-stray_wake queue (zip_future delay) zip_delay-IsQuiet 0 1 polled_once 9 polled_once-Runs
      refl refl refl refl

-- The values of both futures.
zipped :
    poll queue
      (zip_future delay)
      5
      (record polled_once { to_poll = (2, 0 ∷ []); notified = true ∷ false ∷ [] })
    ≡ returned (
      ready (continue (FutureState.completed 7 ∷ FutureState.completed 9 ∷ [])),
      record polled_once { futures = []; done = 2; state = State.done },
    )
unfolding poll poll_with poll_each visit wake_each Join.poll zip_future
zipped = refl

-- Futures whose cancelling takes some polls too: the second number.
abbrev Slow : Type 0
Slow = ℕ × ℕ × ℕ

abbrev poll_slow : ℕ → Slow → Result (Poll ℕ × Slow) (Unit {0}) × List ℕ
poll_slow i (zero, m, value) = (ok (ready value, (zero, m, value)), [])
poll_slow i (suc n, m, value) = (ok (pending, (n, m, value)), [])

abbrev cancel_slow : ℕ → Slow → Result (Poll (Unit {0}) × Slow) (Unit {0}) × List ℕ
cancel_slow i (n, zero, value) = (ok (ready tt, (n, zero, value)), [])
cancel_slow i (n, suc m, value) = (ok (pending, (n, m, value)), [])

abbrev slow : JoinedFuture Slow ℕ (Unit {0})
slow = record { poll = poll_slow; poll_cancel = cancel_slow }

race_slow-IsQuiet : IsQuiet (race_future slow)
unfolding race_future
race_slow-IsQuiet = record { polls = polls; cancels = cancels }
  where
    polls :
        (i : ℕ) (f : Slow)
        → (p : Poll (ControlFlow ℕ ⊥)) × ((g : Slow) × ((race_future slow).poll i f
              ≡ (ok (p, g), [])))
    polls i (zero, m, value) = (ready (break value), ((zero, m, value), refl))
    polls i (suc n, m, value) = (pending, ((n, m, value), refl))

    cancels :
        (i : ℕ) (f : Slow)
        → (p : Poll (Unit {0})) × ((g : Slow) × ((race_future slow).poll_cancel i f
              ≡ (ok (p, g), [])))
    cancels i (n, zero, value) = (ready tt, ((n, zero, value), refl))
    cancels i (n, suc m, value) = (pending, ((n, m, value), refl))

abbrev racers : List Slow
racers = (0, 0, 7) ∷ (5, 1, 8) ∷ []

-- Before any poll; behind the first one, in which the first future ends; and behind a wake of the
-- second, whose cancelling is under way.
abbrev raced : JoinAll Queue ℕ Slow ℕ ⊥ (Unit {0})
raced = fresh queue racers (2, [])

abbrev won : JoinAll Queue ℕ Slow ℕ ⊥ (Unit {0})
won = record {
  futures = FutureState.cancelled ∷ FutureState.running (5, 0, 8) ∷ [];
  state = State.broken 7;
  polled_once = true;
  done = 1;
  to_poll = (2, []);
  waker = 0;
  notified = false ∷ false ∷ [];
}

abbrev won_woken : JoinAll Queue ℕ Slow ℕ ⊥ (Unit {0})
won_woken = record won { to_poll = (2, 1 ∷ []); waker = 1; notified = false ∷ true ∷ [] }

raced-new : new queue racers ≡ returned raced
unfolding new
raced-new = refl

won-poll : poll queue (race_future slow) 5 raced ≡ returned (pending, won)
unfolding poll poll_with poll_each visit wake_each poll_broken Join.poll Join.poll_cancel
    race_future
won-poll = refl

won-wake : wake queue 1 won ≡ returned won_woken
unfolding wake
won-wake = refl

won_woken-Cancels : Cancels queue (race_future slow) racers race_slow-IsQuiet won_woken
won_woken-Cancels =
    Cancels.woken 1
      (Cancels.broke 5 (Runs.made (omega arith) raced-new) (omega arith) won-poll refl refl)
      (FutureState.running (5, 0, 8), (refl, refl)) won-wake

race_all-RaceResult_example :
    (p : Poll ℕ) × ((t : JoinAll Queue ℕ Slow ℕ ⊥ (Unit {0})) × ((race_all_poll queue slow 5
            won_woken
          ≡ returned (p, t))
        × RaceResult queue slow racers race_slow-IsQuiet p t))
race_all-RaceResult_example =
    race_all-RaceResult queue slow racers race_slow-IsQuiet 5 won_woken (inr won_woken-Cancels)
      (omega arith)

-- Behind the first poll of three futures.
abbrev three : JoinAll Queue ℕ Slow ℕ ⊥ (Unit {0})
three = record {
  futures =
      FutureState.running (0, 0, 7)
      ∷ FutureState.running (5, 0, 8)
      ∷ FutureState.running (5, 3, 9)
      ∷ [];
  state = State.running;
  polled_once = true;
  done = 0;
  to_poll = (3, []);
  waker = 0;
  notified = false ∷ false ∷ false ∷ [];
}

-- All three are woken, and the first ends. The second is cancelled at once, and its index, still in the
-- queue, is counted once more: the value is given while the third is being cancelled.
early_break :
    (wake queue 0 three
      >>= wake queue 1
      >>= wake queue 2
      >>= poll queue (race_future slow) 9
      >>= λ r. poll queue (race_future slow) 9 (r.1))
    ≡ returned (
      ready (break 7),
      record three {
        futures =
            FutureState.cancelled ∷ FutureState.cancelled ∷ FutureState.running (5, 1, 9) ∷ [];
        state = State.done;
        done = 3;
        waker = 3;
      },
    )
unfolding wake poll poll_with poll_each visit wake_each poll_broken Join.poll Join.poll_cancel
    race_future
early_break = refl

-- The third is still in the queue behind the first poll, and a wake of it wakes no task.
lost_wake :
    (wake queue 0 three >>= wake queue 2 >>= poll queue (race_future slow) 9 >>= λ r.
    wake queue 2 (r.1))
    ≡ returned (record three {
      futures = FutureState.cancelled ∷ FutureState.cancelled ∷ FutureState.running (5, 2, 9) ∷ [];
      state = State.broken 7;
      done = 2;
      to_poll = (3, 2 ∷ []);
      waker = 2;
      notified = false ∷ false ∷ true ∷ [];
    })
unfolding wake poll poll_with poll_each visit wake_each poll_broken Join.poll Join.poll_cancel
    race_future
lost_wake = refl
