-- ===== src/Io/Tests/Writing.antt =====
-- The theorem about `BufWriter`, at one input.
use completion.Common.{ℕ, ◌≡◌, refl, Bool, [], ◌∷◌, arith, Result}
use completion.Poll.{returned, ◌>>=◌}
use completion.Poll.Machine.{Completes}
use completion.Io.BufWriter.{
  BufWriter, WriteBufWriter, write, write_poll, flush_buf_poll, flush_buf_cancel, flush_release,
  new_flush_buf, release,
}
use completion.Io.BufWriter.Write.{Writes, write-Writes}
use completion.Io.Tests.{errors, Writer, Write, writer, output, patience, writer-IsWriter}

-- Three bytes of four are in the buffer.
abbrev buffered : BufWriter Writer
buffered = record { inner = (2, 9 ∷ []); buf = 1 ∷ 2 ∷ 3 ∷ []; capacity = 4 }

write-Writes_example :
    (r : Result ℕ Bool) × ((t : WriteBufWriter Writer Write) × (Completes
          (write_poll errors writer)
          (write errors writer buffered (4 ∷ 5 ∷ []))
          r
          t
        × Writes errors writer output patience writer-IsWriter buffered
            (4 ∷ 5 ∷ [])
            r
            (release errors writer t)))
write-Writes_example =
    write-Writes errors writer output patience writer-IsWriter buffered (4 ∷ 5 ∷ []) (omega arith)
      (omega arith)

-- A flush of three bytes that is cancelled when two of them are put out leaves all three in the
-- buffer.
cancelled :
    (flush_buf_poll errors writer 9
        (new_flush_buf errors writer (record buffered { inner = (0, []) }))
      >>= λ r. flush_buf_poll errors writer 9 (r.1) >>= λ r.
          flush_buf_cancel errors writer 9 (r.1) >>= λ r.
          returned (flush_release errors writer 4 (r.1)))
    ≡ returned (record buffered { inner = (0, 1 ∷ 2 ∷ []) })
unfolding flush_buf_poll flush_buf_cancel
cancelled = refl
