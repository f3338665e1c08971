-- ===== src/Io/WriteAll.antt =====
-- src/io/write/write_all.rs: the future that writes a whole buffer.
pub mod Output
use completion.Common.{
  ℕ, zero, suc, ◌+◌, ◌≤◌, ◌<◌, ◌≡◌, refl, ap, sym, ◌∙◌, subst, inl, inr, Bool, true, false, List,
  [], ◌∷◌, ◌++◌, length, take, drop, leb, leb→le, le→leb, if◌then◌else◌, arith, Result, ok, err,
  Bool-cases, append-nil, append_assoc, take-append-drop, length-drop,
}
use completion.Poll.{
  Poll, pending, ready, Run, out_of_fuel, panicked, returned, ready_then, map_state,
}
use completion.Poll.Machine.{Machine, PollsTo, PollsTo-suc, Completes, Completes-of_polls}
use completion.Stream.{CompletionFuture}
use completion.Io.Base.{Errors, AsyncWrite, Loan, free, lent}

pub record WriteAll (W F : Type 0) : Type 0 where
  pub writer : Loan W F
  pub buf : List ℕ

module _ {W F E : Type 0} (errors : Errors E) (io : AsyncWrite W F E) where
  abbrev pub new : W → List ℕ → WriteAll W F
  new writer buf = record { writer = free writer; buf = buf }

  abbrev pub Step : Type 0
  Step = Run (Poll (Result (Unit {0}) E) × WriteAll W F)

  -- The end of a round: it is over, or another write begins, and `rest` is the next round.
  abbrev pub start : (WriteAll W F → Step) → W → List ℕ → Step
  start rest writer [] = returned (ready (ok tt), record { writer = free writer; buf = [] })
  start rest writer (b ∷ bs) =
      rest (record { writer = lent (io.write writer (b ∷ bs)); buf = b ∷ bs })

  -- What a finished write leads to.
  abbrev pub finish : (WriteAll W F → Step) → W → List ℕ → Result ℕ E → Step
  finish rest writer buf (ok zero) =
      returned (ready (err errors.write_zero), record { writer = free writer; buf = buf })
  finish rest writer buf (ok (suc k)) =
      if leb (suc k) (length buf) then start rest writer (drop (suc k) buf) else panicked
  finish rest writer buf (err e) =
      if errors.is_interrupted e
      then start rest writer buf
      else returned (ready (err e), record { writer = free writer; buf = buf })

  unfoldable pub write_all_poll : Machine (WriteAll W F) (Result (Unit {0}) E)
  write_all_poll zero t = out_of_fuel
  write_all_poll (suc n) t = elim t.writer [
    | free writer ↦ start (write_all_poll n) writer t.buf
    | lent fut ↦
        ready_then (io.poll n fut) (λ g. record t { writer = lent g })
          (λ res g. finish (write_all_poll n) (io.release g) t.buf res)
  ]

  pub write_all : CompletionFuture (WriteAll W F) (Result (Unit {0}) E)
  write_all = record {
    poll = write_all_poll;
    poll_cancel = λ n t. elim t.writer [
      | free writer ↦ returned (ready tt, t)
      | lent fut ↦ map_state (λ g. record t { writer = lent g }) (io.poll_cancel n fut)
    ];
  }
