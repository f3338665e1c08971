-- ===== src/Io/Base.antt =====
-- io/src/write.rs and io/src/read.rs: the traits `AsyncWrite` and `AsyncRead`, as records of operations,
-- and `std::io::Error`, as a parameter.
use completion.Common.{ℕ, ◌≡◌, Bool, false, List, Result}
use completion.Poll.Machine.{Machine}
use completion.Io.ReadBuf.{ReadBuf}

-- What the code uses of `std::io::Error`: the test for the kind `Interrupted`, and the errors that it
-- makes itself.
pub record Errors (E : Type 0) : Type 0 where
  pub is_interrupted : E → Bool
  pub write_zero : E
  pub unexpected_eof : E
  pub write_zero-other : is_interrupted write_zero ≡ false
  pub unexpected_eof-other : is_interrupted unexpected_eof ≡ false

-- `W` is the writer, `F` the future of `write`, which borrows it. `release` is the writer when the
-- future is dropped.
pub record AsyncWrite (W F E : Type 0) : Type 0 where
  pub write : W → List ℕ → F
  pub poll : Machine F (Result ℕ E)
  pub poll_cancel : Machine F (Unit {0})
  pub release : F → W

-- `R` is the reader, `F` the future of `read`, which borrows it and the buffer.
pub record AsyncRead (R F E : Type 0) : Type 0 where
  pub read : R → ReadBuf → F
  pub poll : Machine F (Result (Unit {0}) E)
  pub poll_cancel : Machine F (Unit {0})
  pub release : F → R
  pub release_buf : F → ReadBuf

-- Something that a future may have borrowed: the fields `fut` and `writer` of a struct are one value,
-- as the writer is used through the future as long as there is one.
pub data Loan (W F : Type 0) : Type 0 where
  free : W → Loan W F
  lent : F → Loan W F
