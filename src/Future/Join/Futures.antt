-- ===== src/Future/Join/Futures.antt =====
-- src/future/join/mod.rs: the wrappers that say when a joined future breaks the others off.
use completion.Common.{ℕ, Result, ok, err}
use completion.Poll.{pending, ready}
use completion.Future.Join.{ControlFlow, break, continue, Call, ControlFlowFuture}

-- A future, by its calls under `catch_unwind`.
pub record JoinedFuture (F R P : Type 0) : Type 0 where
  pub poll : ℕ → F → Call R F P
  pub poll_cancel : ℕ → F → Call (Unit {0}) F P

-- `Poll::map` of what a call gives.
abbrev pub map_call : {R S F P : Type 0} → (R → S) → Call R F P → Call S F P
map_call g (ok (pending, f), ws) = (ok (pending, f), ws)
map_call g (ok (ready r, f), ws) = (ok (ready (g r), f), ws)
map_call g (err p, ws) = (err p, ws)

abbrev pub try_zip_flow : {T E : Type 0} → Result T E → ControlFlow E T
try_zip_flow (ok val) = continue val
try_zip_flow (err e) = break e

abbrev pub race_ok_flow : {T E : Type 0} → Result T E → ControlFlow T E
race_ok_flow (ok val) = break val
race_ok_flow (err e) = continue e

-- A joined future whose result is told to go on or to break by a function.
abbrev pub with_flow :
    {F R B C P : Type 0} → (R → ControlFlow B C) → JoinedFuture F R P → ControlFlowFuture F B C P
with_flow flow fut = record {
  poll = λ i f. map_call flow (fut.poll i f);
  poll_cancel = fut.poll_cancel;
}

unfoldable pub zip_future : {F R P : Type 0} → JoinedFuture F R P → ControlFlowFuture F ⊥ R P
zip_future fut = with_flow continue fut

unfoldable pub try_zip_future :
    {F T E P : Type 0} → JoinedFuture F (Result T E) P → ControlFlowFuture F E T P
try_zip_future fut = with_flow try_zip_flow fut

unfoldable pub race_future : {F R P : Type 0} → JoinedFuture F R P → ControlFlowFuture F R ⊥ P
race_future fut = with_flow break fut

unfoldable pub race_ok_future :
    {F T E P : Type 0} → JoinedFuture F (Result T E) P → ControlFlowFuture F T E P
race_ok_future fut = with_flow race_ok_flow fut
