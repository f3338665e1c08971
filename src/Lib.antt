-- ===== src/Lib.antt =====
-- A model of `completion`, a library of completion-based futures, streams and I/O, and its theorems.
--
-- The program. A future or stream is polled until it is ready, and may be asked to cancel itself
-- (core/src/lib.rs). Streams have adapters (src/stream/adapters) and futures that consume them
-- (src/stream/futures, src/stream/from_completion_stream.rs). Readers and writers move bytes between
-- a source, a sink and a partly initialised buffer (io/src), with futures on top (src/io).
--
-- How it is modelled. The state of a future or stream is a value, and `poll`, `poll_next` and
-- `poll_cancel` take a state to a result and the next state. `&mut` arguments are passed on and
-- returned; pinning, lifetimes, and wakers but those of joined futures have no counterpart. A closure that is
-- `FnMut` is a function of its captured state, and returns the next one. A struct and its futures keep
-- the names of the source. A `usize` is a natural number, and arithmetic that can pass its limit 2 ^ 64
-- is written out (saturating, checked, or modulo the limit, as in a release build).
--
-- Common: names of the standard library, Boolean tests, lists.
-- Poll: `Poll`, what a call may come to (`Run`: it returns, it panics, or the fuel ran out), `ready!`.
--   Poll.Machine: what a machine does when it is polled again and again; Poll.Loop: the polling loop
--   that most adapters and futures run.
-- Stream: the traits of core/src/lib.rs. Its modules model a file of src/stream/adapters or
--   src/stream/futures each, or a few of them: Filter, Map, Then (map.rs), Chain, Fuse, SkipTake,
--   While (skip_take_while.rs), StepBy, Enumerate, Inspect, Cycle, Peekable, Flatten, Search
--   (all_any.rs, find.rs), Position (find.rs, nth.rs, next.rs), Consume (count.rs, last.rs,
--   for_each.rs, fold.rs), MaxMin, Collect (collect.rs, from_completion_stream.rs). Stream.Unfold:
--   src/stream/unfold.rs.
-- Io.Base: the traits AsyncRead and AsyncWrite, and the errors. Io.Reader: the contract of a reader.
--   Io.ReadBuf: io/src/read/buf.rs. Io.WriteAll: src/io/write/write_all.rs. Io.ReadExact:
--   src/io/read/read_exact.rs. Io.Take: src/io/read/take.rs. Io.Chain: src/io/read/chain.rs.
--   Io.Copy: src/io/copy.rs. Io.ReadBufs: io/src/read/bufs.rs. Io.BufWriter:
--   src/io/buffered/buf_writer.rs. Io.BufReader: src/io/buffered/buf_reader.rs.
-- Future.Join: src/future/join/mod.rs, the state of one joined future; the wrappers of that file are in
--   Future.Join.Futures. Future.Join.All: src/future/join/all/base.rs, `JoinAll`, over a queue and a
--   waker that are parameters (the crates concurrent_queue and atomic_waker), as their contract of
--   order and capacity; All.History says what each future went through in its calls, the parts
--   All.Queue, All.Wakes, All.Rounds, All.Results and so on are proofs, and All.Variants has the futures of zip.rs, try_zip.rs, race.rs and race_ok.rs.
-- Modules named Tests hold tests and the theorems at one input.
--
-- Fuel. The first argument of a poll bounds the rounds of the loops inside that call. `PollsTo` says
-- that from some fuel on the call returns the same result, so `Yields`, `Emits` and `Completes`, which
-- are built from it, say that the calls terminate and do not panic. `Yields next s xs` says that the
-- stream, polled until it ends, gives the items of `xs` in order, however often it is pending between
-- them; `Finishes` names the last state too, `Emits` says so of a part of the polls, and `Completes`
-- of a future and its result.
--
-- Not modelled. Ownership of the device during cancellation is the business of the futures that the
-- models take as parameters. The vectored reads and writes, the reading of lines, the
-- tuples of joined futures, the executor and the macros are not modelled; neither are `Stream` and
-- `Future` impls that forward to the modelled ones, nor Debug impls.
-- A joined future is a function from its state to the result of one call under `catch_unwind`, with
-- the indices of the wakers that are woken during the call; wakes between the calls are steps of
-- their own. The results of `JoinAll` are stated for futures that neither panic nor wake a waker in a
-- call, for wakes of running futures, and behind a break for an empty queue: with other wakes, or with
-- an index left in the queue, the code counts a future twice. The memory order of the flags is not modelled: a call and a wake are not at once.
-- The fuel of `JoinAll` bounds the futures called by one `poll_with`.
pub mod Common
pub mod Poll
pub mod Stream
pub mod Io
pub mod Future
