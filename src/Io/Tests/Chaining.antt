-- ===== src/Io/Tests/Chaining.antt =====
-- The theorem about `Chain` on two readers that give one byte at a time, the first one at its end.
use completion.Common.{ℕ, inl, refl, Bool, List, [], ◌∷◌, arith, Result}
use completion.Poll.Machine.{Completes}
use completion.Io.ReadBuf.{ReadBuf}
use completion.Io.Chain.{Chain, ReadChain, new, read, read_poll, release, release_buf}
use completion.Io.Chain.Read.{read_chain-Answer, stream, stream_patience, IsChained}
use completion.Io.Reader.{Answer}
use completion.Io.Tests.{errors, buffer, buffer-IsValid}
use completion.Io.Tests.Reading.{reader, reader-IsReader, all_of, calm}

abbrev two : Chain (List ℕ) (List ℕ)
two = new [] (7 ∷ 8 ∷ [])

abbrev Read : Type 0
Read = List ℕ × ReadBuf

two-IsChained :
    IsChained errors reader reader all_of calm all_of calm reader-IsReader reader-IsReader two
unfolding IsChained
two-IsChained = inl refl

read_chain-Answer_example :
    (res : Result (Unit {0}) Bool) × ((t : ReadChain (List ℕ) (List ℕ) Read Read) × (Completes
          (read_poll reader reader)
          (read reader reader two buffer)
          res
          t
        × Answer errors
            (stream errors reader reader all_of calm all_of calm reader-IsReader reader-IsReader)
            (stream_patience errors reader reader all_of calm all_of calm reader-IsReader
              reader-IsReader)
            two
            buffer
            res
            (release reader reader t)
            (release_buf reader reader t)
        × IsChained errors reader reader all_of calm all_of calm reader-IsReader reader-IsReader
            (release reader reader t)))
read_chain-Answer_example =
    read_chain-Answer errors reader reader all_of calm all_of calm reader-IsReader reader-IsReader
      two buffer two-IsChained buffer-IsValid (omega arith)
