-- ===== src/Io/Tests/Reading.antt =====
-- The theorem about `read_exact` on a reader that gives one byte at a time.
use completion.Common.{
  ℕ, ◌<◌, ◌≡◌, inl, inr, refl, Bool, none, some, List, [], ◌∷◌, arith, Result, ok,
}
use completion.Poll.{ready, Run, out_of_fuel, panicked, returned}
use completion.Poll.Machine.{Machine, Completes}
use completion.Io.Base.{AsyncRead, free}
use completion.Io.ReadBuf.{set_filled, assume_init, uninit, ReadBuf, append, remaining}
use completion.Io.ReadBuf.Append.{AppendResult, append_lem}
use completion.Io.ReadBuf.Valid.{IsValid}
use completion.Io.Reader.{Extends, Extends-refl, IsReader}
use completion.Io.ReadExact.{read_exact}
use completion.Io.ReadExact.Contents.{Outcome, read_exact-Completes}
use completion.Io.Take.{Take, ReadTake, shorten, read, read_take}
use completion.Io.Take.Shorten.{ShortenResult, shorten_lem}
use completion.Io.Take.Limit
use completion.Io.Tests.{errors, buffer, buffer-IsValid}

abbrev put : List ℕ → ReadBuf → Run (List ℕ × ReadBuf)
put [] b = returned ([], b)
put (x ∷ xs) b = elim (append b (x ∷ [])) [
  | out_of_fuel ↦ out_of_fuel
  | panicked ↦ panicked
  | returned c ↦ returned (xs, c)
]

abbrev poll_read : Machine (List ℕ × ReadBuf) (Result (Unit {0}) Bool)
poll_read n (xs, b) = elim (put xs b) [
  | out_of_fuel ↦ out_of_fuel
  | panicked ↦ panicked
  | returned f ↦ returned (ready (ok tt), f)
]

abbrev pub reader : AsyncRead (List ℕ) (List ℕ × ReadBuf) Bool
reader = record {
  read = λ xs b. (xs, b);
  poll = poll_read;
  poll_cancel = λ n f. returned (ready tt, f);
  release = λ f. f.0;
  release_buf = λ f. f.1;
}

-- One byte fits a buffer that is not full.
fits :
    {b : ReadBuf} (x : ℕ)
    → (r : Run ReadBuf) → 0 < remaining b
    → AppendResult b (x ∷ []) r
    → append b (x ∷ []) ≡ r
    → (c : ReadBuf) × (append b (x ∷ []) ≡ returned c) × Extends b (x ∷ []) c
fits x out_of_fuel h a e = absurd a
fits x panicked h a e = absurd (omega (arith, a))
fits x (returned c) h a e = (
  c,
  e,
  record {
    is_valid = a.1.is_valid;
    filled_part = a.1.filled_part;
    same_capacity = a.1.same_capacity;
    kept_initialized = a.1.kept_initialized;
  },
)

abbrev pub all_of : List ℕ → List ℕ
all_of xs = xs

abbrev pub calm : List ℕ → ℕ
calm xs = 0

done_reading :
    (x : ℕ) (xs : List ℕ) {b c : ReadBuf}
    → append b (x ∷ []) ≡ returned c
    → Completes poll_read (x ∷ xs, b) (ok tt) (xs, c)
done_reading x xs e = Completes.done (0, λ n l. rw (e, poll_read) refl)

pub reader-IsReader : IsReader errors all_of calm reader
reader-IsReader [] b v h = (
  ok tt,
  ([], b),
  Completes.done (0, λ n l. refl),
  (0, (omega arith, Extends-refl v, refl), inr refl),
)
reader-IsReader (x ∷ xs) b v h =
    let (c, e, y) = fits x (append b (x ∷ [])) h (append_lem v (x ∷ [])) refl in
    (ok tt, (xs, c), done_reading x xs e, (1, (omega arith, y, refl), inl (omega arith)))

read_exact-Completes_example :
    (res : Result (Unit {0}) Bool) × (r' : List ℕ) × (c : ReadBuf) × (p : ℕ) × Completes
      (read_exact errors reader).poll
      (record { source = free (4 ∷ 5 ∷ 6 ∷ 7 ∷ [], buffer); previous_filled = 0 })
      res
      (record { source = free (r', c); previous_filled = p })
    × Outcome errors all_of calm (4 ∷ 5 ∷ 6 ∷ 7 ∷ []) buffer res r' c
read_exact-Completes_example =
    read_exact-Completes errors reader all_of calm reader-IsReader (4 ∷ 5 ∷ 6 ∷ 7 ∷ []) buffer
      buffer-IsValid

-- An empty buffer of four bytes, two of them written.
abbrev empty : ReadBuf
empty = record { bytes = some 1 ∷ some 2 ∷ none ∷ none ∷ []; filled = 0; initialized = 2 }

empty-IsValid : IsValid empty
empty-IsValid = record {
  ordered = omega arith;
  fits = omega arith;
  small = omega arith;
  written = (tt, (tt, tt));
}

-- One byte is filled, two are written, and the limit is 1: the read cannot begin.
shorten_lem_example : ShortenResult buffer 1 (shorten buffer 1)
shorten_lem_example = shorten_lem buffer-IsValid 1 (omega arith)

shorten-panics : shorten buffer 1 ≡ panicked
unfolding shorten set_filled assume_init uninit
shorten-panics = refl

abbrev limited : Take (List ℕ)
limited = record { inner = 4 ∷ 5 ∷ 6 ∷ []; limit = 2 }

read_take-Completes_example :
    (u : ReadTake (List ℕ) (List ℕ × ReadBuf)) × (read reader limited empty ≡ returned u)
    × ((res : Result (Unit {0}) Bool) × (w : ReadTake (List ℕ) (List ℕ × ReadBuf)) × Completes
          (read_take reader).poll
          u
          res
          w
        × Limit.Outcome errors reader all_of calm reader-IsReader limited empty res w)
read_take-Completes_example =
    Limit.read_take-Completes errors reader all_of calm reader-IsReader limited empty empty-IsValid
      (omega arith) refl (omega arith)
