-- ===== src/Io/Tests/Copying.antt =====
-- The theorem about `copy` on a reader that gives one byte at a time and a writer that takes two.
use completion.Common.{ℕ, Bool, List, [], ◌∷◌, arith, Result}
use completion.Poll.Machine.{Completes}
use completion.Io.Copy.{Copy, copy, new}
use completion.Io.Copy.Transfer.{sink}
use completion.Io.Copy.Total.{Outcome, copy-Completes}
use completion.Io.ReadBuf.{ReadBuf}
use completion.Io.Tests.{errors, Writer, Write, writer, output, patience, writer-IsWriter}
use completion.Io.Tests.Reading.{reader, all_of, calm, reader-IsReader}

copy-Completes_example :
    (res : Result ℕ Bool) × (u : Copy (List ℕ) (List ℕ × ReadBuf) Writer Write) × Completes
      (copy errors reader writer).poll
      (new errors reader writer (4 ∷ 5 ∷ 6 ∷ []) (1, []))
      res
      u
    × Outcome errors all_of output (4 ∷ 5 ∷ 6 ∷ []) (1, []) 0 res (sink errors reader writer u)
copy-Completes_example =
    copy-Completes errors reader writer all_of calm output patience reader-IsReader writer-IsWriter
      (4 ∷ 5 ∷ 6 ∷ []) (1, []) (omega arith)
