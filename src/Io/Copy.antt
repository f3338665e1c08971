-- ===== src/Io/Copy.antt =====
-- src/io/copy.rs: `copy`, which writes everything that a reader gives.
pub mod Transfer
pub mod Total
use completion.Common.{
  ℕ, zero, suc, ◌+◌, ◌%◌, ◌==◌, Bool, true, false, Option, none, some, List, [], ◌∷◌, if◌then◌else◌,
  Result, ok, err, replicate,
}
use completion.Poll.{
  Poll, pending, ready, Run, out_of_fuel, panicked, returned, ready_then, map_state, usize_limit,
}
use completion.Poll.Machine.{Machine}
use completion.Stream.{CompletionFuture}
use completion.Io.Base.{Errors, AsyncRead, AsyncWrite, Loan, free, lent}
use completion.Io.ReadBuf.{ReadBuf, Cell, uninit, clear, filled_cells}
use completion.Io.WriteAll.{WriteAll, write_all}
use completion.Io.WriteAll

-- The bytes of a slice; one that was never written has no value and is left out.
abbrev pub values : List Cell → List ℕ
values [] = []
values (none ∷ cells) = values cells
values (some b ∷ cells) = b ∷ values cells

pub data CopyState (F W G : Type 0) : Type 0 where
  pre_read : CopyState F W G
  reading : F → CopyState F W G
  writing : WriteAll W G → ℕ → CopyState F W G

-- The reader and the buffer are with the future while `state` is `reading`, and the writer while it is
-- `writing`; the fields then have no part.
pub record Copy (R F W G : Type 0) : Type 0 where
  pub state : CopyState F W G
  pub reader : R
  pub writer : W
  pub buf : Option ReadBuf
  pub buf_storage : List Cell
  pub written : ℕ

abbrev pub copy_buf_size : ℕ
copy_buf_size = 8192

module _ {R F W G E : Type 0} (errors : Errors E) (input : AsyncRead R F E)
    (out : AsyncWrite W G E) where
  abbrev pub new : R → W → Copy R F W G
  new reader writer = record {
    state = pre_read;
    reader = reader;
    writer = writer;
    buf = none;
    buf_storage = replicate copy_buf_size none;
    written = 0;
  }

  abbrev pub Step : Type 0
  Step = Run (Poll (Result ℕ E) × Copy R F W G)

  -- The buffer for the next read: made from the storage at first, and cleared.
  abbrev pub next_buf : Copy R F W G → ReadBuf
  next_buf t = clear (elim t.buf [ none ↦ uninit t.buf_storage | some buf ↦ buf ])

  -- What a finished read leads to.
  abbrev pub after_read :
      (Copy R F W G → Step) → Copy R F W G → ReadBuf → Result (Unit {0}) E → Step
  after_read rest t buf (ok u) =
      let more = rest (record t {
        state = writing (WriteAll.new errors out t.writer (values (filled_cells buf))) buf.filled;
      }) in
      if buf.filled == 0 then returned (ready (ok t.written), t) else more
  after_read rest t buf (err e) =
      let more = rest t in if errors.is_interrupted e then more else returned (ready (err e), t)

  abbrev pub writer_of : Loan W G → W
  writer_of (free writer) = writer
  writer_of (lent fut) = out.release fut

  unfoldable pub copy_poll : Machine (Copy R F W G) (Result ℕ E)
  copy_poll zero t = out_of_fuel
  copy_poll (suc n) t = elim t.state [
    | pre_read ↦ copy_poll n (record t { state = reading (input.read t.reader (next_buf t)) })
    | reading fut ↦
        ready_then (input.poll n fut) (λ f. record t { state = reading f })
          (λ res f.
            after_read (copy_poll n)
              (record t {
                state = pre_read;
                reader = input.release f;
                buf = some (input.release_buf f);
              })
              (input.release_buf f) res)
    | writing fut bytes ↦
        ready_then ((write_all errors out).poll n fut) (λ f. record t { state = writing f bytes })
          λ res f. elim res [
            | err e ↦ returned (ready (err e), record t { state = writing f bytes })
            | ok u ↦ copy_poll n (record t {
              state = pre_read;
              writer = writer_of f.writer;
              written = (t.written + bytes) % usize_limit;
            })
          ]
  ]

  pub copy : CompletionFuture (Copy R F W G) (Result ℕ E)
  copy = record {
    poll = copy_poll;
    poll_cancel = λ n t. elim t.state [
      | pre_read ↦ returned (ready tt, t)
      | reading fut ↦ map_state (λ f. record t { state = reading f }) (input.poll_cancel n fut)
      | writing fut bytes ↦
          map_state (λ f. record t { state = writing f bytes })
            ((write_all errors out).poll_cancel n fut)
    ];
  }
