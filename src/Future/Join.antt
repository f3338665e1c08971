-- ===== src/Future/Join.antt =====
-- src/future/join/mod.rs: `ControlFlow`, the futures that `zip`, `race` and their variants join, and
-- `FutureState`, the state of one joined future.
pub mod All
pub mod Futures
use completion.Common.{ℕ, Option, none, some, List, [], Result, ok, err}
use completion.Poll.{Poll, pending, ready, Run, panicked, returned}

pub data ControlFlow {ℓ κ} (B : Type ℓ) (C : Type κ) : Type (ℓ ⊔ κ) where
  break : B → ControlFlow B C
  continue : C → ControlFlow B C

-- One call of a joined future under `catch_unwind`: what it gives, or the payload of its panic, and the
-- wakers that are woken while it runs, by their index. A future that has panicked is dropped.
abbrev pub Call : Type 0 → Type 0 → Type 0 → Type 0
Call R F P = Result (Poll R × F) P × List ℕ

-- The number is the index of the waker in the context of the call.
pub record ControlFlowFuture (F B C P : Type 0) : Type 0 where
  pub poll : ℕ → F → Call (ControlFlow B C) F P
  pub poll_cancel : ℕ → F → Call (Unit {0}) F P

pub data FutureState (F C : Type 0) : Type 0 where
  running : F → FutureState F C
  completed : C → FutureState F C
  cancelled : FutureState F C
  taken : FutureState F C

unfoldable pub take_output : {F C : Type 0} → FutureState F C → Option C × FutureState F C
take_output (completed c) = (some c, taken)
take_output st = (none, st)

-- A call of a `FutureState`, with the wakers that are woken during it.
abbrev pub Visit : Type 0 → Type 0 → Type 0 → Type 0
Visit F C X = Run (Poll (ControlFlow X (Unit {0})) × FutureState F C × List ℕ)

module _ {F B C P : Type 0} (fut : ControlFlowFuture F B C P) where
  abbrev polled : Call (ControlFlow B C) F P → Visit F C (Result B P)
  polled (ok (ready (continue c), f), ws) = returned (ready (continue tt), completed c, ws)
  polled (ok (ready (break b), f), ws) = returned (ready (break (ok b)), cancelled, ws)
  polled (ok (pending, f), ws) = returned (pending, running f, ws)
  polled (err p, ws) = returned (ready (break (err p)), cancelled, ws)

  unfoldable pub poll : ℕ → FutureState F C → Visit F C (Result B P)
  poll i (running f) = polled (fut.poll i f)
  poll i (completed c) = returned (ready (continue tt), completed c, [])
  poll i cancelled = panicked
  poll i taken = panicked

  abbrev cancel_polled : Call (Unit {0}) F P → Visit F C P
  cancel_polled (ok (ready u, f), ws) = returned (ready (continue tt), cancelled, ws)
  cancel_polled (ok (pending, f), ws) = returned (pending, running f, ws)
  cancel_polled (err p, ws) = returned (ready (break p), cancelled, ws)

  unfoldable pub poll_cancel : ℕ → FutureState F C → Visit F C P
  poll_cancel i (running f) = cancel_polled (fut.poll_cancel i f)
  poll_cancel i (completed c) = returned (ready (continue tt), completed c, [])
  poll_cancel i cancelled = returned (ready (continue tt), cancelled, [])
  poll_cancel i taken = panicked

  abbrev panic_polled : Call (Unit {0}) F P → Visit F C ⊥
  panic_polled (ok (ready u, f), ws) = returned (ready (continue tt), cancelled, ws)
  panic_polled (ok (pending, f), ws) = returned (pending, running f, ws)
  panic_polled (err p, ws) = returned (ready (continue tt), cancelled, ws)

  unfoldable pub poll_panicked : ℕ → FutureState F C → Visit F C ⊥
  poll_panicked i (running f) = panic_polled (fut.poll_cancel i f)
  poll_panicked i (completed c) = returned (ready (continue tt), completed c, [])
  poll_panicked i cancelled = returned (ready (continue tt), cancelled, [])
  poll_panicked i taken = panicked
