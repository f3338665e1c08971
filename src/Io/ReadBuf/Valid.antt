-- ===== src/Io/ReadBuf/Valid.antt =====
-- The invariant of a `ReadBuf`, and that its methods keep it.
use completion.Common.{
  ℕ, zero, suc, ◌+◌, ◌-◌, ◌≤◌, ◌<◌, ◌≡◌, inl, inr, some, List, [], ◌∷◌, map, length, replicate, ltb,
  leb, leb→le, All, arith, Bool-cases, length-replicate,
}
use completion.Poll.{Run, out_of_fuel, panicked, returned, usize_limit, isize_limit}
use completion.Io.ReadBuf.Bytes.{
  Written, Written-write_at, length-write_at, length-map-some, IsWritten,
}
use completion.Io.ReadBuf.{
  ReadBuf, Cell, new, uninit, capacity, remaining, initialize_unfilled_to, initialize_unfilled,
  clear, set_filled, add_filled, assume_init,
}

-- The filled part is initialised, the initialised part has been written, and the slice is not longer
-- than a slice can be.
pub record IsValid (b : ReadBuf) : Type 0 where
  pub ordered : b.filled ≤ b.initialized
  pub fits : b.initialized ≤ capacity b
  pub small : capacity b < isize_limit
  pub written : Written b.initialized b.bytes

-- A method that may panic returns a valid buffer if it returns.
abbrev pub Keeps : Run ReadBuf → Type 0
Keeps out_of_fuel = ⊥
Keeps panicked = Unit
Keeps (returned c) = IsValid c

All-replicate : (n b : ℕ) → All IsWritten (replicate n (some b))
All-replicate zero b = tt
All-replicate (suc n) b = (tt, All-replicate n b)

Written-uninit : (xs : List Cell) → Written 0 xs
Written-uninit xs = tt

Written-all : (bs : List ℕ) → Written (length bs) (map some bs)
Written-all [] = tt
Written-all (b ∷ bs) = (tt, Written-all bs)

pub new-IsValid : (bs : List ℕ) → length bs < isize_limit → IsValid (new bs)
unfolding new
new-IsValid bs h = record {
  ordered = omega arith;
  fits = omega (arith, length-map-some bs);
  small = omega (arith, length-map-some bs);
  written = Written-all bs;
}

pub uninit-IsValid : (cells : List Cell) → length cells < isize_limit → IsValid (uninit cells)
unfolding uninit
uninit-IsValid cells h = record {
  ordered = omega arith;
  fits = omega arith;
  small = h;
  written = tt;
}

module _ {b : ReadBuf} (v : IsValid b) where
  pub clear-IsValid : IsValid (clear b)
  unfolding clear
  clear-IsValid = record {
    ordered = omega arith;
    fits = v.fits;
    small = v.small;
    written = v.written;
  }

  pub set_filled-Keeps : (n : ℕ) → Keeps (set_filled b n)
  unfolding set_filled
  set_filled-Keeps n = elim (Bool-cases (leb n b.initialized)) [
    | inl e ↦ rw e (record {
      ordered = leb→le n b.initialized e;
      fits = v.fits;
      small = v.small;
      written = v.written;
    })
    | inr e ↦ rw e tt
  ]

  pub add_filled-Keeps : (n : ℕ) → Keeps (add_filled b n)
  unfolding add_filled
  add_filled-Keeps n = elim (Bool-cases (ltb (b.filled + n) usize_limit)) [
    | inl e ↦ rw e (set_filled-Keeps (b.filled + n))
    | inr e ↦ rw e tt
  ]

  -- The caller's promise: the first `n` unfilled bytes have been written.
  pub assume_init-IsValid :
      (n : ℕ) → Written (b.filled + n) b.bytes → n ≤ remaining b → IsValid (assume_init b n)
  unfolding assume_init
  assume_init-IsValid n w h = elim (Bool-cases (ltb b.initialized (b.filled + n))) [
    | inl e ↦ rw e (record {
      ordered = omega arith;
      fits = omega (arith, v.ordered, v.fits);
      small = v.small;
      written = w;
    })
    | inr e ↦ rw e v
  ]

  abbrev zeros : ℕ → List Cell
  zeros n = replicate (b.filled + n - b.initialized) (some 0)

  length-zeros : (n : ℕ) → length (zeros n) ≡ b.filled + n - b.initialized
  length-zeros n = length-replicate (b.filled + n - b.initialized) (some 0)

  pub initialize_unfilled_to-Keeps : (n : ℕ) → Keeps (initialize_unfilled_to b n)
  unfolding initialize_unfilled_to
  initialize_unfilled_to-Keeps n = elim (Bool-cases (leb n (remaining b))) [
    | inl e ↦ rw e (elim (Bool-cases (ltb b.initialized (b.filled + n))) [
      | inl l ↦ rw l (record {
        ordered = omega arith;
        fits =
            rw (length-write_at b.bytes b.initialized (zeros n))
              (omega (arith, leb→le n (remaining b) e, v.ordered, v.fits));
        small = rw (length-write_at b.bytes b.initialized (zeros n)) v.small;
        written =
            Written-write_at b.bytes b.initialized b.initialized (b.filled + n) (zeros n) v.written
              (omega arith) (All-replicate (b.filled + n - b.initialized) 0)
              (inr (omega (arith, length-zeros n)));
      })
      | inr l ↦ rw l v
    ])
    | inr e ↦ rw e tt
  ]

  pub initialize_unfilled-Keeps : Keeps (initialize_unfilled b)
  unfolding initialize_unfilled
  initialize_unfilled-Keeps = initialize_unfilled_to-Keeps (remaining b)
