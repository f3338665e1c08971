-- ===== src/Io/Chain.antt =====
-- src/io/read/chain.rs: `Chain`, which reads from a reader and then from another.
pub mod Read
use completion.Common.{
  ℕ, zero, suc, ◌-◌, ◌==◌, ◌||◌, Bool, true, false, ltb, if◌then◌else◌, Result, ok, err,
}
use completion.Poll.{Poll, ready, Run, out_of_fuel, panicked, returned, ready_then, map_state}
use completion.Poll.Machine.{Machine}
use completion.Io.Base.{AsyncRead}
use completion.Io.ReadBuf.{ReadBuf, capacity}

pub record Chain (T U : Type 0) : Type 0 where
  pub first : T
  pub second : U
  pub done_first : Bool

abbrev pub new : {T U : Type 0} → T → U → Chain T U
new first second = record { first = first; second = second; done_first = false }

-- The state `First` has the second reader and the number of bytes that were filled; the first reader
-- stays with the others until the future is dropped. `done_first` is set in the state `Second`.
pub data ReadChain (T U F G : Type 0) : Type 0 where
  reading_first : F → U → ℕ → ReadChain T U F G
  reading_second : T → G → ReadChain T U F G
  temporary : T → U → ReadBuf → ReadChain T U F G

module _ {T U F G E : Type 0} (one : AsyncRead T F E) (two : AsyncRead U G E) where
  -- `Chain::read`.
  unfoldable pub read : Chain T U → ReadBuf → ReadChain T U F G
  read c buf =
      if c.done_first
      then ReadChain.reading_second c.first (two.read c.second buf)
      else ReadChain.reading_first (one.read c.first buf) c.second buf.filled

  abbrev pub Step : Type 0
  Step = Run (Poll (Result (Unit {0}) E) × ReadChain T U F G)

  abbrev pub poll_second : ℕ → T → G → Step
  poll_second n first fut = map_state (λ g. ReadChain.reading_second first g) (two.poll n fut)

  -- What a read of the first reader leads to.
  abbrev pub after_first : ℕ → U → ℕ → Result (Unit {0}) E → F → Step
  after_first n second initial_filled (err e) f =
      returned (ready (err e), ReadChain.reading_first f second initial_filled)
  after_first n second initial_filled (ok u) f =
      let buf = one.release_buf f in
      let rest = poll_second n (one.release f) (two.read second buf) in
      if ltb initial_filled buf.filled || (capacity buf - initial_filled == 0)
      then returned (ready (ok tt), ReadChain.temporary (one.release f) second buf)
      else rest

  unfoldable pub read_poll : Machine (ReadChain T U F G) (Result (Unit {0}) E)
  read_poll zero t = out_of_fuel
  read_poll (suc n) (ReadChain.reading_first fut second initial_filled) =
      ready_then (one.poll n fut) (λ f. ReadChain.reading_first f second initial_filled)
        (after_first n second initial_filled)
  read_poll (suc n) (ReadChain.reading_second first fut) = poll_second n first fut
  read_poll (suc n) (ReadChain.temporary first second buf) = panicked

  unfoldable pub read_cancel : Machine (ReadChain T U F G) (Unit {0})
  read_cancel n (ReadChain.reading_first fut second initial_filled) =
      map_state (λ f. ReadChain.reading_first f second initial_filled) (one.poll_cancel n fut)
  read_cancel n (ReadChain.reading_second first fut) =
      map_state (λ g. ReadChain.reading_second first g) (two.poll_cancel n fut)
  read_cancel n (ReadChain.temporary first second buf) =
      returned (ready tt, ReadChain.temporary first second buf)

  -- The readers and the buffer when the future is dropped.
  abbrev pub release : ReadChain T U F G → Chain T U
  release (ReadChain.reading_first fut second initial_filled) = record {
    first = one.release fut;
    second = second;
    done_first = false;
  }
  release (ReadChain.reading_second first fut) = record {
    first = first;
    second = two.release fut;
    done_first = true;
  }
  release (ReadChain.temporary first second buf) = record {
    first = first;
    second = second;
    done_first = false;
  }

  abbrev pub release_buf : ReadChain T U F G → ReadBuf
  release_buf (ReadChain.reading_first fut second initial_filled) = one.release_buf fut
  release_buf (ReadChain.reading_second first fut) = two.release_buf fut
  release_buf (ReadChain.temporary first second buf) = buf

  -- `Chain` as a reader.
  pub chain : AsyncRead (Chain T U) (ReadChain T U F G) E
  chain = record {
    read = read;
    poll = read_poll;
    poll_cancel = read_cancel;
    release = release;
    release_buf = release_buf;
  }
