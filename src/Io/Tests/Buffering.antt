-- ===== src/Io/Tests/Buffering.antt =====
-- The theorem about `BufReader`, at one input.
use completion.Common.{ℕ, Bool, some, none, List, [], ◌∷◌, arith, Result}
use completion.Poll.Machine.{Completes}
use completion.Io.ReadBuf.{ReadBuf}
use completion.Io.Reader.{Answer}
use completion.Io.BufReader.{BufReader, ReadBufReader, read, read_poll, release, release_buf}
use completion.Io.BufReader.Stream.{IsBuffered}
use completion.Io.BufReader.Read.{stream, stream_patience, read-Answer}
use completion.Io.Tests.{errors, buffer, buffer-IsValid}
use completion.Io.Tests.Reading.{reader, all_of, calm, reader-IsReader}

-- One of two bytes is left in the buffer.
abbrev peeked : BufReader (List ℕ)
peeked = record {
  inner = 6 ∷ 7 ∷ [];
  buf = record {
    bytes = some 4 ∷ some 5 ∷ none ∷ none ∷ none ∷ none ∷ [];
    filled = 2;
    initialized = 2;
  };
  pos = 1;
}

peeked-IsBuffered : IsBuffered peeked
peeked-IsBuffered = record {
  is_valid = record {
    ordered = omega arith;
    fits = omega arith;
    small = omega arith;
    written = (tt, (tt, tt));
  };
  pos_le = omega arith;
}

read-Answer_example :
    (res : Result (Unit {0}) Bool) × ((t : ReadBufReader (List ℕ) (List ℕ × ReadBuf)) × (Completes
          (read_poll reader)
          (read reader peeked buffer)
          res
          t
        × Answer errors
            (stream errors reader all_of calm reader-IsReader)
            (stream_patience errors reader all_of calm reader-IsReader)
            peeked
            buffer
            res
            (release reader t)
            (release_buf reader t)
        × IsBuffered (release reader t)))
read-Answer_example =
    read-Answer errors reader all_of calm reader-IsReader peeked buffer peeked-IsBuffered
      buffer-IsValid (omega arith)
