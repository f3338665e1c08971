-- ===== src/Io/Copy/Transfer.antt =====
-- The rounds of `copy`: a read, then a write.
use completion.Common.{
  ℕ, zero, suc, ◌+◌, ◌%◌, ◌<◌, ◌≡◌, refl, ap, ◌∙◌, none, some, List, [], ◌∷◌, length, take, map,
  arith, length-replicate, replicate, Result, ok, err,
}
use completion.Poll.{ready, returned, usize_limit}
use completion.Poll.Machine.{Machine, PollsTo-suc, Completes, Completes-of_polls}
use completion.Poll.Drive.{drive_end, drive_on}
use completion.Io.Base.{Errors, AsyncRead, AsyncWrite}
use completion.Io.ReadBuf.{ReadBuf, Cell, capacity, remaining, clear, uninit, filled_cells}
use completion.Io.ReadBuf.Valid.{IsValid, clear-IsValid, uninit-IsValid}
use completion.Io.Reader.{Extends, filled-Extends}
use completion.Io.WriteAll.{WriteAll, write_all}
use completion.Io.Copy.{
  values, pre_read, reading, writing, Copy, new, next_buf, after_read, writer_of, copy_poll,
  copy_buf_size,
}

length-storage : length (replicate {A = Cell} copy_buf_size none) ≡ 8192
length-storage = length-replicate {A = Cell} copy_buf_size none

values-map-some : (xs : List ℕ) → values (map some xs) ≡ xs
values-map-some [] = refl
values-map-some (x ∷ xs) = ap (x ∷◌) (values-map-some xs)

pub take-of_take {ℓ} :
    {A : Type ℓ} (j k : ℕ) (xs : List A) → (m : ℕ) × (take j (take k xs) ≡ take m xs)
take-of_take zero k xs = (0, refl)
take-of_take (suc j) zero xs = (0, refl)
take-of_take (suc j) (suc k) [] = (0, refl)
take-of_take (suc j) (suc k) (x ∷ xs) = let (m, e) = take-of_take j k xs in (suc m, ap (x ∷◌) e)

module _ {R F W G E : Type 0} (errors : Errors E) (input : AsyncRead R F E)
    (out : AsyncWrite W G E) where
  -- The writer, wherever it is.
  abbrev pub sink : Copy R F W G → W
  sink t = elim t.state [
    | pre_read ↦ t.writer
    | reading f ↦ t.writer
    | writing f n ↦ writer_of errors input out f.writer
  ]

  abbrev pub poll : Machine (Copy R F W G) (Result ℕ E)
  poll = copy_poll errors input out

  -- A state in which a read may begin.
  pub record IsIdle (t : Copy R F W G) : Type 0 where
    pub before_read : t.state ≡ pre_read
    pub buf_IsValid : IsValid (next_buf errors input out t)
    pub has_room : 0 < capacity (next_buf errors input out t)

  -- The state after a read.
  abbrev pub after : Copy R F W G → F → Copy R F W G
  after t g = record t {
    state = pre_read;
    reader = input.release g;
    buf = some (input.release_buf g);
  }

  pub begin :
      {t u : Copy R F W G} {res : Result ℕ E}
      → t.state ≡ pre_read
      → Completes poll
          (record t { state = reading (input.read t.reader (next_buf errors input out t)) })
          res
          u
      → Completes poll t res u
  unfolding copy_poll
  begin e c = Completes-of_polls (λ r q. PollsTo-suc poll _ _ q.0 (λ n l. rw e (q.1 n l))) c

  -- The read is over, and with it the copy.
  pub read_end :
      (t : Copy R F W G) {u : Copy R F W G} {f g : F} {res : Result (Unit {0}) E} {r : Result ℕ E}
      → Completes input.poll f res g
      → ((n : ℕ)
          → after_read errors input out (poll n) (after t g) (input.release_buf g) res
            ≡ returned (ready r, u))
      → Completes poll (record t { state = reading f }) r u
  unfolding copy_poll
  read_end t c e =
      drive_end input.poll poll (λ f. record t { state = reading f })
        (λ n res f. after_read errors input out (poll n) (after t f) (input.release_buf f) res)
        (λ n f. refl) c e

  -- The read is over, and the copy goes on from the state `v`.
  pub read_on :
      (t : Copy R F W G) {u v : Copy R F W G} {f g : F} {res : Result (Unit {0}) E} {r : Result ℕ E}
      → Completes input.poll f res g
      → ((n : ℕ)
          → after_read errors input out (poll n) (after t g) (input.release_buf g) res ≡ poll n v)
      → Completes poll v r u
      → Completes poll (record t { state = reading f }) r u
  unfolding copy_poll
  read_on t c e d =
      drive_on input.poll poll (λ f. record t { state = reading f })
        (λ n res f. after_read errors input out (poll n) (after t f) (input.release_buf f) res)
        (λ n f. refl) c e d

  pub next_buf-remaining :
      {t : Copy R F W G} → IsIdle t → 0 < remaining (next_buf errors input out t)
  unfolding clear
  next_buf-remaining i = omega (arith, i.has_room)

  pub new-IsIdle : (r : R) (w : W) → IsIdle (new errors input out r w)
  unfolding clear uninit
  new-IsIdle r w = record {
    before_read = refl;
    buf_IsValid =
        clear-IsValid
          (uninit-IsValid (replicate copy_buf_size none) (omega (arith, length-storage)));
    has_room = omega (arith, length-storage);
  }

  pub IsIdle-after :
      {t : Copy R F W G} {g : F} {xs : List ℕ}
      → IsIdle t
      → Extends (next_buf errors input out t) xs (input.release_buf g)
      → IsIdle (after t g)
  unfolding clear
  IsIdle-after i x = record {
    before_read = refl;
    buf_IsValid = clear-IsValid x.is_valid;
    has_room = omega (arith, i.has_room, x.same_capacity);
  }

  -- After a read the buffer holds what was read.
  pub values-filled_cells :
      (t : Copy R F W G) {c : ReadBuf} {xs : List ℕ}
      → Extends (next_buf errors input out t) xs c
      → values (filled_cells c) ≡ xs
  unfolding clear
  values-filled_cells t {xs = xs} x = ap values x.filled_part ∙ values-map-some xs

  pub filled_after :
      {t : Copy R F W G} {c : ReadBuf} {xs : List ℕ}
      → IsIdle t
      → Extends (next_buf errors input out t) xs c
      → c.filled ≡ length xs
  unfolding clear
  filled_after i x = filled-Extends i.buf_IsValid x ∙ omega arith

  abbrev pub written_to : WriteAll W G → Copy R F W G → ℕ → Copy R F W G
  written_to f t n = record t {
    state = pre_read;
    writer = writer_of errors input out f.writer;
    written = (t.written + n) % usize_limit;
  }

  pub write_end :
      (t : Copy R F W G) {f f' : WriteAll W G} {n : ℕ} {e : E}
      → Completes (write_all errors out).poll f (err e) f'
      → Completes poll
          (record t { state = writing f n })
          (err e)
          (record t { state = writing f' n })
  unfolding copy_poll
  write_end t {n = n} c =
      drive_end (write_all errors out).poll poll (λ f. record t { state = writing f n })
        (λ m res f. elim res [
          | err e ↦ returned (ready (err e), record t { state = writing f n })
          | ok u ↦ poll m (written_to f t n)
        ])
        (λ m f. refl) c (λ m. refl)

  pub write_on :
      (t : Copy R F W G) {f f' : WriteAll W G} {n : ℕ} {r : Result ℕ E} {u : Copy R F W G}
      → Completes (write_all errors out).poll f (ok tt) f'
      → Completes poll (written_to f' t n) r u
      → Completes poll (record t { state = writing f n }) r u
  unfolding copy_poll
  write_on t {n = n} c d =
      drive_on (write_all errors out).poll poll (λ f. record t { state = writing f n })
        (λ m res f. elim res [
          | err e ↦ returned (ready (err e), record t { state = writing f n })
          | ok u ↦ poll m (written_to f t n)
        ])
        (λ m f. refl) c (λ m. refl) d
