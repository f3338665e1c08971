-- ===== src/Io/Tests.antt =====
-- The theorems about buffers and writers, at one input.
mod Reading
mod Copying
mod Buffers
mod Writing
mod Buffering
mod Chaining
use completion.Common.{
  ℕ, zero, suc, ◌+◌, ◌≤◌, ◌<◌, ◌≡◌, ◌⊎◌, inl, inr, refl, Bool, true, false, Option, none, some,
  List, [], ◌∷◌, ◌++◌, arith, length, take, append-nil, Result, ok, err,
}
use completion.Poll.{Poll, pending, ready, returned, usize_limit}
use completion.Poll.Machine.{Machine, Completes}
use completion.Io.Base.{Errors, AsyncWrite, Loan, free, lent}
use completion.Io.ReadBuf.{ReadBuf, Cell, append, new}
use completion.Io.ReadBuf.Valid.{IsValid, Keeps, new-IsValid, uninit-IsValid}
use completion.Io.ReadBuf.Append.{
  AppendResult, append_lem, Call, append_call, clear_call, add_filled_call, initialize_call,
  run_calls, run_calls-Keeps,
}
use completion.Io.WriteAll.{write_all}
use completion.Io.WriteAll
use completion.Io.WriteAll.Output.{Answer, IsWriter, Outcome, write_all-Completes}

abbrev pub buffer : ReadBuf
buffer = record { bytes = some 1 ∷ some 2 ∷ none ∷ none ∷ []; filled = 1; initialized = 2 }

pub buffer-IsValid : IsValid buffer
buffer-IsValid = record {
  ordered = omega arith;
  fits = omega arith;
  small = omega arith;
  written = (tt, (tt, tt));
}

append_lem_example : AppendResult buffer (7 ∷ 8 ∷ []) (append buffer (7 ∷ 8 ∷ []))
append_lem_example = append_lem buffer-IsValid (7 ∷ 8 ∷ [])

abbrev calls : List Call
calls = append_call (7 ∷ []) ∷ initialize_call ∷ clear_call ∷ add_filled_call 4 ∷ []

run_calls-Keeps_example : Keeps (run_calls calls buffer)
run_calls-Keeps_example = run_calls-Keeps calls buffer buffer-IsValid

-- `true` is the error of an interruption.
abbrev pub errors : Errors Bool
errors = record {
  is_interrupted = λ e. e;
  write_zero = false;
  unexpected_eof = false;
  write_zero-other = refl;
  unexpected_eof-other = refl;
}

-- A writer with what it has put out, that is interrupted as often as its number says, and then puts
-- out two bytes at a time. Its future is pending once.
abbrev pub Writer : Type 0
Writer = ℕ × List ℕ

abbrev pub output : Writer → List ℕ
output w = w.1

abbrev pub patience : Writer → ℕ
patience w = w.0

abbrev pub Write : Type 0
Write = Bool × (List ℕ × Writer)

abbrev poll_write : Machine Write (Result ℕ Bool)
poll_write n (true, rest) = returned (pending, (false, rest))
poll_write n (false, (bs, (suc k, out))) = returned (ready (err true), (false, (bs, (k, out))))
poll_write n (false, (bs, (zero, out))) =
    returned (ready (ok (length (take 2 bs))), (false, (bs, (0, out ++ take 2 bs))))

abbrev pub writer : AsyncWrite Writer Write Bool
writer = record {
  write = λ w bs. (true, (bs, w));
  poll = poll_write;
  poll_cancel = λ n f. returned (ready tt, f);
  release = λ f. (f.1).1;
}

pub writer-IsWriter : IsWriter errors writer output patience
writer-IsWriter (suc k, out) bs = (
  err true,
  (false, (bs, (k, out))),
  Completes.wait {u = (false, (bs, (suc k, out)))} (0, λ n l. refl)
      (Completes.done (0, λ n l. refl)),
  (refl, inr (omega arith)),
)
writer-IsWriter (zero, out) bs = (
  ok (length (take 2 bs)),
  (false, (bs, (0, out ++ take 2 bs))),
  Completes.wait {u = (false, (bs, (0, out)))} (0, λ n l. refl) (Completes.done (0, λ n l. refl)),
  two bs out,
)
  where
    two :
        (bs out : List ℕ)
        → Answer errors output patience (0, out) bs (ok (length (take 2 bs))) (0, out ++ take 2 bs)
    two [] out = (omega arith, refl)
    two (a ∷ []) out = (omega arith, refl)
    two (a ∷ b ∷ bs) out = (omega arith, refl)

write_all-Completes_example :
    (r : Result (Unit {0}) Bool) × (w' : Writer) × (rest : List ℕ) × Completes
      (write_all errors writer).poll
      (record { writer = free (2, 9 ∷ []); buf = 1 ∷ 2 ∷ 3 ∷ [] })
      r
      (record { writer = free w'; buf = rest })
    × Outcome errors output patience (2, 9 ∷ []) (1 ∷ 2 ∷ 3 ∷ []) r w'
write_all-Completes_example =
    write_all-Completes errors writer output patience writer-IsWriter (2, 9 ∷ []) (1 ∷ 2 ∷ 3 ∷ [])
