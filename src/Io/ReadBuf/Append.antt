-- ===== src/Io/ReadBuf/Append.antt =====
-- What `append` does, and that every sequence of calls keeps a `ReadBuf` valid.
use completion.Common.{
  ap, subst, ◌⊎◌, ℕ, ◌+◌, ◌≤◌, ◌<◌, ◌≡◌, inl, inr, some, List, [], ◌∷◌, ◌++◌, map, length, take,
  drop, ltb, leb, leb→le, le→leb, lt→ltb, ltb→ge, ltb→lt, leb→gt, arith, true, false, Bool-cases,
}
use completion.Poll.{Run, out_of_fuel, panicked, returned, usize_limit, ◌>>=◌}
use completion.Io.ReadBuf.Bytes.{
  write_at, Written-write_at, length-write_at, take-write_at, drop-write_at, All-map-some,
  length-map-some,
}
use completion.Io.ReadBuf.Valid.{
  IsValid, Keeps, clear-IsValid, set_filled-Keeps, add_filled-Keeps, initialize_unfilled_to-Keeps,
  initialize_unfilled-Keeps,
}
use completion.Io.ReadBuf.{
  ReadBuf, Cell, capacity, remaining, filled_cells, initialize_unfilled_to, initialize_unfilled,
  clear, set_filled, add_filled, assume_init, append,
}

-- `c` is `b` with `other` behind the filled part.
pub record Appended (b : ReadBuf) (other : List ℕ) (c : ReadBuf) : Type 0 where
  pub is_valid : IsValid c
  pub filled_part : filled_cells c ≡ filled_cells b ++ map some other
  pub rest : drop c.filled c.bytes ≡ drop c.filled b.bytes
  pub same_capacity : capacity c ≡ capacity b
  pub kept_initialized : b.initialized ≤ c.initialized

-- It panics when `other` does not fit.
abbrev pub AppendResult : ReadBuf → List ℕ → Run ReadBuf → Type 0
AppendResult b other out_of_fuel = ⊥
AppendResult b other panicked = remaining b < length other
AppendResult b other (returned c) = (length other ≤ remaining b) × Appended b other c

module _ {b : ReadBuf} (v : IsValid b) (other : List ℕ) where
  abbrev end : ℕ
  end = b.filled + length other

  abbrev cells : List Cell
  cells = map some other

  length-cells : b.filled + length cells ≡ end
  length-cells = ap (b.filled +◌) (length-map-some other)

  -- `i` is the new end of the initialised part.
  after-Appended :
      (i : ℕ)
      → end ≤ capacity b
      → end ≤ i
      → i ≤ capacity b
      → (i ≤ b.initialized) ⊎ (i ≤ end)
      → b.initialized ≤ i
      → Appended b other
          (record { bytes = write_at b.bytes b.filled cells; filled = end; initialized = i })
  after-Appended i h l m c k = record {
    is_valid = record {
      ordered = l;
      fits = rw (length-write_at b.bytes b.filled cells) m;
      small = rw (length-write_at b.bytes b.filled cells) v.small;
      written =
          Written-write_at b.bytes b.initialized b.filled i cells v.written v.ordered
            (All-map-some other) (omega (arith, c, length-cells));
    };
    filled_part =
        subst (λ k. take k (write_at b.bytes b.filled cells) ≡ filled_cells b ++ cells) length-cells
          (take-write_at b.bytes b.filled cells (omega (arith, length-cells)));
    rest =
        subst (λ k. drop k (write_at b.bytes b.filled cells) ≡ drop k b.bytes) length-cells
          (drop-write_at b.bytes b.filled cells (omega (arith, length-cells)));
    same_capacity = length-write_at b.bytes b.filled cells;
    kept_initialized = k;
  }

  end_le : length other ≤ remaining b → end ≤ capacity b
  end_le h = omega (arith, v.ordered, v.fits)

  -- The three tests on the way of bytes that fit.
  fits :
      length other ≤ remaining b
      → (ltb b.initialized end ≡ true) ⊎ (ltb b.initialized end ≡ false)
      → AppendResult b other (append b other)
  unfolding append assume_init add_filled set_filled
  fits h (inl e) =
      rw
        (
          le→leb (length other) (remaining b) h,
          e,
          lt→ltb end usize_limit (omega (arith, end_le h, v.small)),
          le→leb end end (omega arith),
        )
        (
          h,
          after-Appended end (end_le h) (omega arith) (end_le h) (inr (omega arith))
              (omega (arith, ltb→lt b.initialized end e)),
        )
  fits h (inr e) =
      rw
        (
          le→leb (length other) (remaining b) h,
          e,
          lt→ltb end usize_limit (omega (arith, end_le h, v.small)),
          le→leb end b.initialized (ltb→ge b.initialized end e),
        )
        (
          h,
          after-Appended b.initialized (end_le h) (ltb→ge b.initialized end e) v.fits
              (inl (omega arith)) (omega arith),
        )

  -- Appending to a valid buffer puts the bytes behind the filled part, keeps what lies behind
  -- them and the capacity, and leaves a valid buffer; it panics exactly if they do not fit.
  pub append_lem : AppendResult b other (append b other)
  unfolding append
  append_lem = elim (Bool-cases (leb (length other) (remaining b))) [
    | inl e ↦ fits (leb→le (length other) (remaining b) e) (Bool-cases (ltb b.initialized end))
    | inr e ↦ rw e (leb→gt (length other) (remaining b) e)
  ]

-- A call of a method that changes the buffer. `assume_init` is left out: it is unsafe, and its caller
-- vouches for the bytes.
pub data Call : Type 0 where
  initialize_call : Call
  initialize_to_call : ℕ → Call
  clear_call : Call
  set_filled_call : ℕ → Call
  add_filled_call : ℕ → Call
  append_call : List ℕ → Call

abbrev pub call : Call → ReadBuf → Run ReadBuf
call initialize_call b = initialize_unfilled b
call (initialize_to_call n) b = initialize_unfilled_to b n
call clear_call b = returned (clear b)
call (set_filled_call n) b = set_filled b n
call (add_filled_call n) b = add_filled b n
call (append_call other) b = append b other

abbrev pub run_calls : List Call → ReadBuf → Run ReadBuf
run_calls [] b = returned b
run_calls (c ∷ cs) b = call c b >>= run_calls cs

AppendResult-Keeps :
    (b : ReadBuf) (other : List ℕ) (r : Run ReadBuf) → AppendResult b other r → Keeps r
AppendResult-Keeps b other out_of_fuel h = absurd h
AppendResult-Keeps b other panicked h = tt
AppendResult-Keeps b other (returned c) h = h.1.is_valid

call-Keeps : (c : Call) (b : ReadBuf) → IsValid b → Keeps (call c b)
call-Keeps initialize_call b v = initialize_unfilled-Keeps v
call-Keeps (initialize_to_call n) b v = initialize_unfilled_to-Keeps v n
call-Keeps clear_call b v = clear-IsValid v
call-Keeps (set_filled_call n) b v = set_filled-Keeps v n
call-Keeps (add_filled_call n) b v = add_filled-Keeps v n
call-Keeps (append_call other) b v =
    AppendResult-Keeps b other (append b other) (append_lem v other)

onward-Keeps :
    (r : Run ReadBuf) (f : ReadBuf → Run ReadBuf)
    → Keeps r
    → ((d : ReadBuf) → IsValid d → Keeps (f d))
    → Keeps (r >>= f)
onward-Keeps out_of_fuel f h k = absurd h
onward-Keeps panicked f h k = tt
onward-Keeps (returned d) f h k = k d h

-- Any sequence of safe calls on a valid buffer panics or ends with a valid buffer.
pub run_calls-Keeps : (cs : List Call) (b : ReadBuf) → IsValid b → Keeps (run_calls cs b)
run_calls-Keeps [] b v = v
run_calls-Keeps (c ∷ cs) b v =
    onward-Keeps (call c b) (run_calls cs) (call-Keeps c b v) (λ d w. run_calls-Keeps cs d w)
