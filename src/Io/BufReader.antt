-- ===== src/Io/BufReader.antt =====
-- src/io/buffered/buf_reader.rs: `BufReader`, which reads into a buffer of its own.
pub mod Stream
pub mod Read
use completion.Common.{
  ℕ, zero, suc, ◌+◌, ◌%◌, ◌==◌, ◌&&◌, min, List, [], ◌∷◌, length, take, drop, leb, replicate, none,
  if◌then◌else◌, Result, ok, err,
}
use completion.Poll.{
  Poll, pending, ready, Run, out_of_fuel, panicked, returned, ready_then, map_state, ◌>>=◌,
  usize_limit,
}
use completion.Poll.Machine.{Machine}
use completion.Stream.{CompletionFuture}
use completion.Io.Base.{AsyncRead}
use completion.Io.ReadBuf.{ReadBuf, uninit, capacity, remaining, clear, append, filled_cells}
use completion.Io.Copy.{values}

-- `buf` is the `OwnedReadBuf`.
pub record BufReader (R : Type 0) : Type 0 where
  pub inner : R
  pub buf : ReadBuf
  pub pos : ℕ

abbrev pub default_capacity : ℕ
default_capacity = 8192

unfoldable pub with_capacity : {R : Type 0} → ℕ → R → BufReader R
with_capacity n inner = record { inner = inner; buf = uninit (replicate n none); pos = 0 }

-- `BufReader::buffer`.
abbrev pub buffer : {R : Type 0} → BufReader R → List ℕ
buffer b = values (drop b.pos (filled_cells b.buf))

-- The position is one of a slice, so the sum stays below the limit when the caller keeps the contract.
unfoldable pub consume : {R : Type 0} → BufReader R → ℕ → BufReader R
consume b amt = record b { pos = min ((b.pos + amt) % usize_limit) (capacity b.buf) }

-- The future reads into the buffer, from `pos` 0 on, or has nothing to do, or it has completed and its
-- `buf` is taken.
pub data FillBufBufReader (R F : Type 0) : Type 0 where
  reading : F → FillBufBufReader R F
  kept : BufReader R → FillBufBufReader R F
  completed : BufReader R → FillBufBufReader R F

-- The bytes of the internal buffer stay with the future while it bypasses them.
pub data ReadBufReader (R F : Type 0) : Type 0 where
  bypass : F → ReadBuf → ℕ → ReadBufReader R F
  fill_buf : FillBufBufReader R F → ReadBuf → ReadBufReader R F
  consumed : BufReader R → ReadBuf → ReadBufReader R F

module _ {R F E : Type 0} (io : AsyncRead R F E) where
  -- `BufReader::fill_buf`.
  unfoldable pub start_fill : BufReader R → FillBufBufReader R F
  start_fill b =
      if b.pos == b.buf.filled
      then FillBufBufReader.reading (io.read b.inner (clear b.buf))
      else FillBufBufReader.kept b

  -- The slice `filled()[pos..]`.
  abbrev pub available : BufReader R → Run (Poll (Result (List ℕ) E) × FillBufBufReader R F)
  available b =
      if leb b.pos b.buf.filled
      then returned (ready (ok (buffer b)), FillBufBufReader.completed b)
      else panicked

  abbrev pub after_read :
      Result (Unit {0}) E → F → Run (Poll (Result (List ℕ) E) × FillBufBufReader R F)
  after_read (err e) f = returned (ready (err e), FillBufBufReader.reading f)
  after_read (ok u) f = available (record { inner = io.release f; buf = io.release_buf f; pos = 0 })

  unfoldable pub fill_poll : Machine (FillBufBufReader R F) (Result (List ℕ) E)
  fill_poll zero t = out_of_fuel
  fill_poll (suc n) (FillBufBufReader.reading fut) =
      ready_then (io.poll n fut) FillBufBufReader.reading after_read
  fill_poll (suc n) (FillBufBufReader.kept b) = available b
  fill_poll (suc n) (FillBufBufReader.completed b) = panicked

  unfoldable pub fill_cancel : Machine (FillBufBufReader R F) (Unit {0})
  fill_cancel n (FillBufBufReader.reading fut) =
      map_state FillBufBufReader.reading (io.poll_cancel n fut)
  fill_cancel n (FillBufBufReader.kept b) = returned (ready tt, FillBufBufReader.kept b)
  fill_cancel n (FillBufBufReader.completed b) = returned (ready tt, FillBufBufReader.completed b)

  abbrev pub fill_release : FillBufBufReader R F → BufReader R
  fill_release (FillBufBufReader.reading fut) = record {
    inner = io.release fut;
    buf = io.release_buf fut;
    pos = 0;
  }
  fill_release (FillBufBufReader.kept b) = b
  fill_release (FillBufBufReader.completed b) = b

  -- `BufReader::read`.
  unfoldable pub read : BufReader R → ReadBuf → ReadBufReader R F
  read b buf =
      if (b.pos == b.buf.filled) && leb (capacity b.buf) (capacity buf)
      then ReadBufReader.bypass (io.read b.inner buf) b.buf b.pos
      else ReadBufReader.fill_buf (start_fill b) buf

  abbrev pub after_fill :
      ReadBuf
      → Result (List ℕ) E
      → FillBufBufReader R F
      → Run (Poll (Result (Unit {0}) E) × ReadBufReader R F)
  after_fill buf (err e) f = returned (ready (err e), ReadBufReader.fill_buf f buf)
  after_fill buf (ok bytes) f =
      let amt = min (remaining buf) (length bytes) in
      append buf (take amt bytes) >>= λ c.
      returned (ready (ok tt), ReadBufReader.consumed (consume (fill_release f) amt) c)

  unfoldable pub read_poll : Machine (ReadBufReader R F) (Result (Unit {0}) E)
  read_poll zero t = out_of_fuel
  read_poll (suc n) (ReadBufReader.bypass fut internal pos) =
      map_state (λ f. ReadBufReader.bypass f internal pos) (io.poll n fut)
  read_poll (suc n) (ReadBufReader.fill_buf fut buf) =
      ready_then (fill_poll n fut) (λ f. ReadBufReader.fill_buf f buf) (after_fill buf)
  read_poll (suc n) (ReadBufReader.consumed b buf) = panicked

  unfoldable pub read_cancel : Machine (ReadBufReader R F) (Unit {0})
  read_cancel n (ReadBufReader.bypass fut internal pos) =
      map_state (λ f. ReadBufReader.bypass f internal pos) (io.poll_cancel n fut)
  read_cancel n (ReadBufReader.fill_buf fut buf) =
      map_state (λ f. ReadBufReader.fill_buf f buf) (fill_cancel n fut)
  read_cancel n (ReadBufReader.consumed b buf) = returned (ready tt, ReadBufReader.consumed b buf)

  -- The `BufReader` and the buffer of the caller when the future is dropped.
  abbrev pub release : ReadBufReader R F → BufReader R
  release (ReadBufReader.bypass fut internal pos) = record {
    inner = io.release fut;
    buf = internal;
    pos = pos;
  }
  release (ReadBufReader.fill_buf fut buf) = fill_release fut
  release (ReadBufReader.consumed b buf) = b

  abbrev pub release_buf : ReadBufReader R F → ReadBuf
  release_buf (ReadBufReader.bypass fut internal pos) = io.release_buf fut
  release_buf (ReadBufReader.fill_buf fut buf) = buf
  release_buf (ReadBufReader.consumed b buf) = buf

  -- `BufReader` as a reader.
  pub buf_reader : AsyncRead (BufReader R) (ReadBufReader R F) E
  buf_reader = record {
    read = read;
    poll = read_poll;
    poll_cancel = read_cancel;
    release = release;
    release_buf = release_buf;
  }
