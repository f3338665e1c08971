-- ===== src/Io/Take.antt =====
-- src/io/read/take.rs: the reader that ends after a number of bytes.
pub mod Shorten
pub mod Sync
pub mod Limit
use completion.Common.{
  ℕ, zero, suc, ◌+◌, ◌-◌, ◌%◌, min, ◌==◌, ltb, Bool, true, false, List, ◌++◌, length, take, drop,
  if◌then◌else◌, Result, ok, err,
}
use completion.Poll.{
  wrapping_sub, Poll, pending, ready, Run, out_of_fuel, panicked, returned, ready_then, map_state,
  ◌>>=◌, usize_limit,
}
use completion.Poll.Machine.{Machine}
use completion.Stream.{CompletionFuture}
use completion.Io.Base.{AsyncRead, Loan, free, lent}
use completion.Io.ReadBuf.{ReadBuf, uninit, remaining, set_filled, assume_init}

pub record Take (R : Type 0) : Type 0 where
  pub inner : R
  pub limit : ℕ

-- The buffer that the reader gets if the limit is smaller than the space in `b`: it shares the first
-- bytes of `b`.
unfoldable pub shorten : ReadBuf → ℕ → Run ReadBuf
unfolding uninit assume_init
shorten b limit =
    let shortened = take (b.filled + limit) b.bytes in
    set_filled (assume_init (uninit shortened) (wrapping_sub (min limit b.initialized) b.filled))
      b.filled

-- `short_buf` says whether the future has a buffer of its own; `buf` is the buffer that was passed in,
-- whose bytes are with the future as long as there is one.
pub record ReadTake (R F : Type 0) : Type 0 where
  pub source : Loan R F
  pub short_buf : Bool
  pub buf : ReadBuf
  pub initial_filled : ℕ
  pub limit : ℕ

-- The buffer that was passed in, when the future has ended with the buffer `used`.
unfoldable pub sync : Bool → ReadBuf → ℕ → ReadBuf → Run ReadBuf
unfolding assume_init
sync false buf initial_filled used = returned used
sync true buf initial_filled used =
    let shared = record buf { bytes = used.bytes ++ drop (length used.bytes) buf.bytes } in
    set_filled (assume_init shared (wrapping_sub used.initialized initial_filled)) used.filled

module _ {R F E : Type 0} (io : AsyncRead R F E) where
  abbrev pub read : Take R → ReadBuf → Run (ReadTake R F)
  read t b =
      if t.limit == 0
      then returned (record {
        source = free t.inner;
        short_buf = false;
        buf = b;
        initial_filled = 0;
        limit = t.limit;
      })
      else if ltb t.limit (remaining b)
      then shorten b t.limit >>= (λ short. returned (record {
        source = lent (io.read t.inner short);
        short_buf = true;
        buf = b;
        initial_filled = b.filled;
        limit = t.limit;
      }))
      else returned (record {
        source = lent (io.read t.inner b);
        short_buf = false;
        buf = b;
        initial_filled = b.filled;
        limit = t.limit;
      })

  -- When the future is ready, the buffer is brought up to date and the limit lowered.
  abbrev pub finish {ℓ} :
      {D : Type ℓ} → ReadTake R F → F → Run (Poll (Result (Unit {0}) D) × ReadTake R F)
  finish t g = sync t.short_buf t.buf t.initial_filled (io.release_buf g) >>= λ buf. returned (
    ready (ok tt),
    record {
      source = free (io.release g);
      short_buf = false;
      buf = buf;
      initial_filled = t.initial_filled;
      limit = wrapping_sub t.limit (wrapping_sub buf.filled t.initial_filled);
    },
  )

  abbrev pub poll_with {ℓ} :
      {D : Type ℓ} → Machine F (Result (Unit {0}) D) → Machine (ReadTake R F) (Result (Unit {0}) D)
  poll_with f n t = elim t.source [
    | free reader ↦ returned (ready (ok tt), t)
    | lent fut ↦
        ready_then (f n fut) (λ g. record t { source = lent g })
          λ res g. elim res [
            | err e ↦ returned (ready (err e), record t { source = lent g })
            | ok u ↦ finish t g
          ]
  ]

  -- A cancellation has no error.
  abbrev cancel : Machine F (Result (Unit {0}) ⊥)
  cancel n f = elim (io.poll_cancel n f) [
    | out_of_fuel ↦ out_of_fuel
    | panicked ↦ panicked
    | returned (pending, g) ↦ returned (pending, g)
    | returned (ready u, g) ↦ returned (ready (ok u), g)
  ]

  abbrev drop_result :
      Run (Poll (Result (Unit {0}) ⊥) × ReadTake R F) → Run (Poll (Unit {0}) × ReadTake R F)
  drop_result out_of_fuel = out_of_fuel
  drop_result panicked = panicked
  drop_result (returned (pending, t)) = returned (pending, t)
  drop_result (returned (ready r, t)) = returned (ready tt, t)

  pub read_take : CompletionFuture (ReadTake R F) (Result (Unit {0}) E)
  read_take = record {
    poll = poll_with io.poll;
    poll_cancel = λ n t. drop_result (poll_with cancel n t);
  }
