-- ===== src/Io/ReadExact.antt =====
-- src/io/read/read_exact.rs: the future that fills a buffer.
pub mod Contents
use completion.Common.{
  ℕ, zero, suc, ◌≡◌, ◌==◌, Bool, true, false, List, length, if◌then◌else◌, Result, ok, err,
}
use completion.Poll.{
  Poll, pending, ready, Run, out_of_fuel, panicked, returned, ready_then, map_state,
}
use completion.Poll.Machine.{Machine}
use completion.Stream.{CompletionFuture}
use completion.Io.Base.{Errors, AsyncRead, Loan, free, lent}
use completion.Io.ReadBuf.{ReadBuf, remaining, filled_cells}

-- The future of `read` borrows the reader and the buffer.
pub record ReadExact (R F : Type 0) : Type 0 where
  pub source : Loan (R × ReadBuf) F
  pub previous_filled : ℕ

module _ {R F E : Type 0} (errors : Errors E) (io : AsyncRead R F E) where
  abbrev pub new : R → ReadBuf → ReadExact R F
  new reader buf = record { source = free (reader, buf); previous_filled = 0 }

  abbrev pub Step : Type 0
  Step = Run (Poll (Result (Unit {0}) E) × ReadExact R F)

  abbrev pub idle : R → ReadBuf → ℕ → ReadExact R F
  idle reader buf p = record { source = free (reader, buf); previous_filled = p }

  -- The end of a round: the buffer is full, or another read begins, and `rest` is the next round.
  abbrev pub start : (ReadExact R F → Step) → R → ReadBuf → ℕ → Step
  start rest reader buf previous =
      let again =
        rest (record { source = lent (io.read reader buf); previous_filled = buf.filled }) in
      if remaining buf == 0 then returned (ready (ok tt), idle reader buf previous) else again

  -- What a finished read leads to.
  abbrev pub finish : (ReadExact R F → Step) → R → ReadBuf → ℕ → Result (Unit {0}) E → Step
  finish rest reader buf previous (ok u) =
      if buf.filled == previous
      then returned (ready (err errors.unexpected_eof), idle reader buf previous)
      else start rest reader buf previous
  finish rest reader buf previous (err e) =
      if errors.is_interrupted e
      then start rest reader buf previous
      else returned (ready (err e), idle reader buf previous)

  unfoldable pub read_exact_poll : Machine (ReadExact R F) (Result (Unit {0}) E)
  read_exact_poll zero t = out_of_fuel
  read_exact_poll (suc n) t = elim t.source [
    | free (reader, buf) ↦ start (read_exact_poll n) reader buf t.previous_filled
    | lent fut ↦
        ready_then (io.poll n fut) (λ g. record t { source = lent g })
          (λ res g.
            finish (read_exact_poll n) (io.release g) (io.release_buf g) t.previous_filled res)
  ]

  pub read_exact : CompletionFuture (ReadExact R F) (Result (Unit {0}) E)
  read_exact = record {
    poll = read_exact_poll;
    poll_cancel = λ n t. elim t.source [
      | free source ↦ returned (ready tt, t)
      | lent fut ↦ map_state (λ g. record t { source = lent g }) (io.poll_cancel n fut)
    ];
  }
