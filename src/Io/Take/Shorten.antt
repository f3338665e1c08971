-- ===== src/Io/Take/Shorten.antt =====
-- The shortened buffer of `Take::read`, and what becomes of it.
use completion.Common.{
  ℕ, zero, suc, ◌+◌, ◌-◌, ◌≤◌, ◌<◌, min, ◌≡◌, ◌⊎◌, inl, inr, refl, ap, sym, ◌∙◌, List, [], ◌∷◌,
  length, take, leb, leb→le, leb→gt, le→leb, lt→leb, Bool-cases, arith, subst, length-take, All,
}
use completion.Poll.{
  wrapping_sub, wrapping_sub-le, Run, out_of_fuel, panicked, returned, assert, usize_limit,
}
use completion.Io.ReadBuf.{ReadBuf, Cell, uninit, remaining, filled_cells, set_filled, assume_init}
use completion.Io.ReadBuf.Bytes.{IsWritten, Written-mono}
use completion.Io.ReadBuf.Valid.{IsValid}
use completion.Io.Take.{shorten}

-- A buffer that a reader may get in place of `b`: the same filled part, and room for `limit` bytes.
pub record IsShort (b : ReadBuf) (limit : ℕ) (s : ReadBuf) : Type 0 where
  pub is_valid : IsValid s
  pub filled_part : filled_cells s ≡ filled_cells b
  pub room : remaining s ≡ limit
  pub same_filled : s.filled ≡ b.filled
  pub known_initialized : s.initialized ≡ min limit b.initialized - b.filled

-- The read begins with a valid shortened buffer, or panics, or goes on with a buffer that is not
-- valid.
abbrev pub ShortenResult : ReadBuf → ℕ → Run ReadBuf → Type 0
ShortenResult b limit out_of_fuel = ⊥
ShortenResult b limit panicked = min limit b.initialized < b.filled + b.filled
ShortenResult b limit (returned s) =
    ((b.filled + b.filled ≤ min limit b.initialized) × IsShort b limit s)
    ⊎ ((min limit b.initialized < b.filled) × (IsValid s → ⊥))

module _ {ℓ} {A : Type ℓ} where
  take-take : (n m : ℕ) (xs : List A) → n ≤ m → take n (take m xs) ≡ take n xs
  take-take zero m xs h = refl
  take-take (suc n) zero xs h = absurd (omega arith)
  take-take (suc n) (suc m) [] h = refl
  take-take (suc n) (suc m) (x ∷ xs) h = ap (x ∷◌) (take-take n m xs (omega arith))

wrapping_sub-gt : (a b : ℕ) → a < b → b < usize_limit → wrapping_sub a b ≡ a + usize_limit - b
wrapping_sub-gt a b h l = omega arith

assume_init-uninit :
    (cells : List Cell) (n : ℕ)
    → assume_init (uninit cells) n ≡ record { bytes = cells; filled = 0; initialized = n }
unfolding assume_init uninit
assume_init-uninit cells zero = refl
assume_init-uninit cells (suc n) = ground arith

module _ {b : ReadBuf} (v : IsValid b) (limit : ℕ) (h : limit < remaining b) where
  abbrev known : ℕ
  known = min limit b.initialized

  abbrev bytes : List Cell
  bytes = take (b.filled + limit) b.bytes

  length-bytes : length bytes ≡ b.filled + limit
  length-bytes = length-take (b.filled + limit) b.bytes ∙ omega (arith, v.ordered, v.fits)

  shorten-IsShort :
      b.filled + b.filled ≤ known
      → IsShort b limit
          (record { bytes = bytes; filled = b.filled; initialized = known - b.filled })
  shorten-IsShort e = record {
    is_valid = record {
      ordered = omega arith;
      fits = omega (arith, length-bytes);
      small = omega (arith, length-bytes, v.ordered, v.fits, v.small);
      written =
          subst (All IsWritten)
            (sym (take-take (known - b.filled) (b.filled + limit) b.bytes (omega arith)))
            (Written-mono (known - b.filled) b.initialized b.bytes (omega arith) v.written);
    };
    filled_part = take-take b.filled (b.filled + limit) b.bytes (omega arith);
    room = omega (arith, length-bytes);
    same_filled = refl;
    known_initialized = refl;
  }

  -- The call up to the test of `set_filled`, for the number `n` of bytes that count as initialised.
  shorten-eq :
      (n : ℕ)
      → wrapping_sub known b.filled ≡ n
      → shorten b limit
        ≡ assert
            (leb b.filled n)
            (returned (record { bytes = bytes; filled = b.filled; initialized = n }))
  unfolding shorten set_filled
  shorten-eq n e = rw (e, assume_init-uninit bytes n) refl

  begins : b.filled + b.filled ≤ known → ShortenResult b limit (shorten b limit)
  begins e =
      rw
        (
          shorten-eq (known - b.filled)
              (wrapping_sub-le known b.filled (omega arith) (omega (arith, v.fits, v.small))),
          le→leb b.filled (known - b.filled) (omega arith),
        )
        (inl (e, shorten-IsShort e))

  fails : b.filled ≤ known → known < b.filled + b.filled → ShortenResult b limit (shorten b limit)
  fails e l =
      rw
        (
          shorten-eq (known - b.filled)
              (wrapping_sub-le known b.filled e (omega (arith, v.fits, v.small))),
          lt→leb b.filled (known - b.filled) (omega arith),
        )
        l

  overruns : known < b.filled → ShortenResult b limit (shorten b limit)
  overruns l =
      rw
        (
          shorten-eq (known + usize_limit - b.filled)
              (wrapping_sub-gt known b.filled l (omega (arith, v.ordered, v.fits, v.small))),
          le→leb b.filled (known + usize_limit - b.filled)
              (omega (arith, v.ordered, v.fits, v.small)),
        )
        (inr (l, λ w. absurd (omega (arith, w.fits, length-bytes, v.ordered, v.fits, v.small))))

  -- If the buffer is valid and the limit is smaller than the space that is left, the buffer is
  -- shortened to a valid one with room for `limit` bytes and twice the filled part is no longer
  -- than the limit and than the initialised part; or it is longer than one of them and the call
  -- panics; or the filled part itself is longer, and the shortened buffer is not valid.
  pub shorten_lem : ShortenResult b limit (shorten b limit)
  shorten_lem = elim (Bool-cases (leb b.filled known)) [
    | inl e ↦ elim (Bool-cases (leb (b.filled + b.filled) known)) [
      | inl f ↦ begins (leb→le (b.filled + b.filled) known f)
      | inr f ↦ fails (leb→le b.filled known e) (leb→gt (b.filled + b.filled) known f)
    ]
    | inr e ↦ overruns (leb→gt b.filled known e)
  ]
