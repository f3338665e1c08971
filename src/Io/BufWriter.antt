-- ===== src/Io/BufWriter.antt =====
-- src/io/buffered/buf_writer.rs: `BufWriter`, which collects bytes before it writes them.
pub mod Flushed
pub mod Write
use completion.Common.{
  ℕ, zero, suc, ◌+◌, ◌%◌, Bool, true, false, List, [], ◌∷◌, ◌++◌, length, drop, ltb, leb,
  if◌then◌else◌, Result, ok, err,
}
use completion.Poll.{
  Poll, pending, ready, Run, out_of_fuel, panicked, returned, ready_then, map_state, usize_limit,
}
use completion.Poll.Machine.{Machine}
use completion.Stream.{CompletionFuture}
use completion.Io.Base.{Errors, AsyncWrite, Loan, free, lent}

-- `capacity` is that of the vector `buf`.
pub record BufWriter (W : Type 0) : Type 0 where
  pub inner : W
  pub buf : List ℕ
  pub capacity : ℕ

-- The future has the writer and the buffer of a `BufWriter`; when it has completed, the buffer is empty.
pub data FlushBuf (W F : Type 0) : Type 0 where
  flushing : Loan W F → List ℕ → ℕ → FlushBuf W F
  flushed : W → FlushBuf W F

-- The writer and the internal buffer stay with the future until it is dropped, also when it is done
-- with them.
pub data WriteState (W F : Type 0) : Type 0 where
  flush_buf : FlushBuf W F → WriteState W F
  mid : W → List ℕ → WriteState W F
  bypass : F → List ℕ → WriteState W F
  temporary : W → List ℕ → WriteState W F

pub record WriteBufWriter (W F : Type 0) : Type 0 where
  pub state : WriteState W F
  pub buf : List ℕ
  pub capacity : ℕ

abbrev pub default_capacity : ℕ
default_capacity = 8192

abbrev pub with_capacity : {W : Type 0} → ℕ → W → BufWriter W
with_capacity capacity inner = record { inner = inner; buf = []; capacity = capacity }

module _ {W F E : Type 0} (errors : Errors E) (io : AsyncWrite W F E) where
  abbrev pub FlushStep : Type 0
  FlushStep = Run (Poll (Result (Unit {0}) E) × FlushBuf W F)

  -- The end of a round: all is written, or another write begins, and `rest` is the next round.
  abbrev pub next_write : (FlushBuf W F → FlushStep) → W → List ℕ → ℕ → FlushStep
  next_write rest writer buf written =
      let more = rest (FlushBuf.flushing (lent (io.write writer (drop written buf))) buf written) in
      if leb (length buf) written then returned (ready (ok tt), FlushBuf.flushed writer) else more

  -- The end with an error: the written bytes leave the buffer.
  abbrev pub failed : W → List ℕ → ℕ → E → FlushStep
  failed writer buf written e = returned (
    ready (err e),
    FlushBuf.flushing (free writer) (if ltb 0 written then drop written buf else buf) written,
  )

  -- What a finished write leads to.
  abbrev pub after_write : (FlushBuf W F → FlushStep) → W → List ℕ → ℕ → Result ℕ E → FlushStep
  after_write rest writer buf written (ok zero) = failed writer buf written errors.write_zero
  after_write rest writer buf written (ok (suc k)) =
      next_write rest writer buf ((written + suc k) % usize_limit)
  after_write rest writer buf written (err e) =
      let more = next_write rest writer buf written in
      if errors.is_interrupted e then more else failed writer buf written e

  unfoldable pub flush_buf_poll : Machine (FlushBuf W F) (Result (Unit {0}) E)
  flush_buf_poll zero t = out_of_fuel
  flush_buf_poll (suc n) (FlushBuf.flushed writer) = panicked
  flush_buf_poll (suc n) (FlushBuf.flushing (free writer) buf written) =
      next_write (flush_buf_poll n) writer buf written
  flush_buf_poll (suc n) (FlushBuf.flushing (lent fut) buf written) =
      ready_then (io.poll n fut) (λ g. FlushBuf.flushing (lent g) buf written)
        (λ res g. after_write (flush_buf_poll n) (io.release g) buf written res)

  unfoldable pub flush_buf_cancel : Machine (FlushBuf W F) (Unit {0})
  flush_buf_cancel n (FlushBuf.flushing (lent fut) buf written) =
      map_state (λ g. FlushBuf.flushing (lent g) buf written) (io.poll_cancel n fut)
  flush_buf_cancel n (FlushBuf.flushing (free writer) buf written) =
      returned (ready tt, FlushBuf.flushing (free writer) buf written)
  flush_buf_cancel n (FlushBuf.flushed writer) = returned (ready tt, FlushBuf.flushed writer)

  abbrev pub new_flush_buf : BufWriter W → FlushBuf W F
  new_flush_buf b = FlushBuf.flushing (free b.inner) b.buf 0

  -- `BufWriter::write`.
  unfoldable pub write : BufWriter W → List ℕ → WriteBufWriter W F
  write b buf = record {
    state =
        if ltb b.capacity (length b.buf + length buf)
        then WriteState.flush_buf (new_flush_buf b)
        else WriteState.mid b.inner b.buf;
    buf = buf;
    capacity = b.capacity;
  }

  abbrev pub Step : Type 0
  Step = Run (Poll (Result ℕ E) × WriteBufWriter W F)

  abbrev pub poll_mid : ℕ → WriteBufWriter W F → W → List ℕ → Step
  poll_mid n t writer internal =
      if leb t.capacity (length t.buf)
      then map_state (λ f. record t { state = WriteState.bypass f internal })
          (io.poll n (io.write writer t.buf))
      else returned (
        ready (ok (length t.buf)),
        record t { state = WriteState.temporary writer (internal ++ t.buf) },
      )

  abbrev pub after_flush : ℕ → WriteBufWriter W F → Result (Unit {0}) E → FlushBuf W F → Step
  after_flush n t (err e) f = returned (ready (err e), record t { state = WriteState.flush_buf f })
  after_flush n t (ok u) (FlushBuf.flushed writer) = poll_mid n t writer []
  after_flush n t (ok u) (FlushBuf.flushing writer buf written) = panicked

  unfoldable pub write_poll : Machine (WriteBufWriter W F) (Result ℕ E)
  write_poll zero t = out_of_fuel
  write_poll (suc n) t = elim t.state [
    | WriteState.flush_buf fut ↦
        ready_then (flush_buf_poll n fut) (λ f. record t { state = WriteState.flush_buf f })
          (after_flush n t)
    | WriteState.mid writer internal ↦ poll_mid n t writer internal
    | WriteState.bypass fut internal ↦
        map_state (λ f. record t { state = WriteState.bypass f internal }) (io.poll n fut)
    | WriteState.temporary writer internal ↦ panicked
  ]

  pub write_buf_writer : CompletionFuture (WriteBufWriter W F) (Result ℕ E)
  write_buf_writer = record {
    poll = write_poll;
    poll_cancel = λ n t. elim t.state [
      | WriteState.flush_buf fut ↦
          map_state (λ f. record t { state = WriteState.flush_buf f }) (flush_buf_cancel n fut)
      | WriteState.bypass fut internal ↦
          map_state (λ f. record t { state = WriteState.bypass f internal }) (io.poll_cancel n fut)
      | _ ↦ returned (ready tt, t)
    ];
  }

  -- The `BufWriter` when the future is dropped.
  abbrev pub loaned : Loan W F → W
  loaned (free writer) = writer
  loaned (lent fut) = io.release fut

  abbrev pub flush_release : ℕ → FlushBuf W F → BufWriter W
  flush_release capacity (FlushBuf.flushing writer buf written) = record {
    inner = loaned writer;
    buf = buf;
    capacity = capacity;
  }
  flush_release capacity (FlushBuf.flushed writer) = record {
    inner = writer;
    buf = [];
    capacity = capacity;
  }

  unfoldable pub release : WriteBufWriter W F → BufWriter W
  release t = elim t.state [
    | WriteState.flush_buf fut ↦ flush_release t.capacity fut
    | WriteState.mid writer internal ↦ record {
      inner = writer;
      buf = internal;
      capacity = t.capacity;
    }
    | WriteState.bypass fut internal ↦ record {
      inner = io.release fut;
      buf = internal;
      capacity = t.capacity;
    }
    | WriteState.temporary writer internal ↦ record {
      inner = writer;
      buf = internal;
      capacity = t.capacity;
    }
  ]
