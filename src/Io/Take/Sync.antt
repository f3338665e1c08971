-- ===== src/Io/Take/Sync.antt =====
-- Reading through `Take` into an empty buffer.
use completion.Common.{
  take-append, ℕ, zero, suc, ◌+◌, ◌≤◌, ◌<◌, ◌≡◌, ◌⊎◌, inl, inr, refl, ap, sym, ◌∙◌, true, false,
  List, [], ◌∷◌, ◌++◌, length, drop, ltb, le→leb, ltb→lt, ltb→ge, Bool-cases, arith, subst,
  drop_nil, length-append, length-drop, some, map, All,
}
use completion.Poll.{wrapping_sub, wrapping_sub-le, returned}
use completion.Io.ReadBuf.{ReadBuf, Cell, capacity, remaining, set_filled, assume_init}
use completion.Io.ReadBuf.Bytes.{IsWritten, Written, Written-mono}
use completion.Io.ReadBuf.Valid.{IsValid}
use completion.Io.Reader.{Extends, filled-Extends}
use completion.Io.Take.{sync}
use completion.Io.Take.Shorten.{IsShort}

-- The bytes of the shortened buffer in place of the first bytes of the whole one.
Written-join :
    (cs bs : List Cell) (n : ℕ)
    → Written (length cs) cs
    → Written n bs
    → Written n (cs ++ drop (length cs) bs)
Written-join [] bs n h k = k
Written-join (c ∷ cs) bs zero h k = tt
Written-join (c ∷ cs) [] (suc n) h k = (
  h.0,
  subst (λ r. Written n (cs ++ r)) (drop_nil (length cs))
      (Written-join cs [] n h.1 (Written-nil n)),
)
  where
    Written-nil : (n : ℕ) → Written n []
    Written-nil zero = tt
    Written-nil (suc n) = tt
Written-join (c ∷ cs) (b ∷ bs) (suc n) h k = (h.0, Written-join cs bs n h.1 k.1)

-- `s` is the shortened buffer of the empty buffer `b`, and `c` what the reader made of it.
module _ {b s c : ReadBuf} {xs : List ℕ} (limit : ℕ) (v : IsValid b) (empty : b.filled ≡ 0)
    (l : limit < remaining b) (short : IsShort b limit s) (x : Extends s xs c) where
  abbrev joined : List Cell
  joined = c.bytes ++ drop (length c.bytes) b.bytes

  filled-short : s.filled ≡ 0
  filled-short = short.same_filled ∙ empty

  length-short : length c.bytes ≡ limit
  length-short = omega (
    arith, x.same_capacity, short.room, filled-short, short.is_valid.ordered, short.is_valid.fits,
  )

  length-joined : length joined ≡ capacity b
  length-joined =
      length-append c.bytes (drop (length c.bytes) b.bytes)
      ∙ omega (arith, length-drop (length c.bytes) b.bytes, length-short)

  joined-Extends :
      (i : ℕ)
      → c.filled ≤ i
      → b.initialized ≤ i
      → i ≤ capacity b
      → Written i joined
      → Extends b xs (record { bytes = joined; filled = c.filled; initialized = i })
  joined-Extends i h k m w = record {
    is_valid = record {
      ordered = h;
      fits = omega (arith, length-joined);
      small = omega (arith, length-joined, v.small);
      written = w;
    };
    filled_part =
        take-append c.filled c.bytes (drop (length c.bytes) b.bytes)
          (omega (arith, x.is_valid.ordered, x.is_valid.fits))
        ∙ x.filled_part
        ∙ ap (◌++ map some xs) short.filled_part;
    same_capacity = length-joined;
    kept_initialized = k;
  }

  -- Which bytes are known to be written.
  whole : b.initialized ≤ limit → Written c.initialized joined
  whole h =
      subst (All IsWritten)
        (sym (take-append c.initialized c.bytes (drop (length c.bytes) b.bytes) x.is_valid.fits))
        x.is_valid.written

  above : limit < b.initialized → (c.initialized ≡ limit) × Written b.initialized joined
  above h =
      let e : c.initialized ≡ limit = omega (
        arith, short.known_initialized, empty, x.kept_initialized, x.is_valid.fits, length-short,
      ) in
      (
        e,
        Written-join c.bytes b.bytes b.initialized
            (Written-mono (length c.bytes) c.initialized c.bytes (omega (arith, length-short))
              x.is_valid.written)
            v.written,
      )

  advance : wrapping_sub c.initialized b.filled ≡ c.initialized
  advance =
      wrapping_sub-le c.initialized b.filled (omega arith)
        (omega (arith, x.is_valid.fits, x.is_valid.small))
      ∙ omega arith

  from_zero : b.filled + c.initialized ≡ c.initialized
  from_zero = omega arith

  abbrev with_end : ℕ → ReadBuf
  with_end i = record { bytes = joined; filled = c.filled; initialized = i }

  sync-grown :
      ltb b.initialized c.initialized ≡ true
      → sync true b b.filled c ≡ returned (with_end c.initialized)
  unfolding sync set_filled assume_init
  sync-grown e = rw (advance, from_zero, e, le→leb c.filled c.initialized x.is_valid.ordered) refl

  sync-kept :
      ltb b.initialized c.initialized ≡ false
      → sync true b b.filled c ≡ returned (with_end b.initialized)
  unfolding sync set_filled assume_init
  sync-kept e =
      rw
        (
          advance,
          from_zero,
          e,
          le→leb c.filled b.initialized
              (omega (arith, x.is_valid.ordered, ltb→ge b.initialized c.initialized e)),
        )
        refl

  moved : length xs ≤ limit
  moved =
      omega
        (arith, filled-Extends short.is_valid x, x.is_valid.ordered, x.is_valid.fits, length-short)

  grown-Written : b.initialized < c.initialized → Written c.initialized joined
  grown-Written h = whole (omega (arith, x.is_valid.fits, length-short))

  kept-Written :
      c.initialized ≤ b.initialized
      → (limit < b.initialized) ⊎ (b.initialized ≤ limit)
      → Written b.initialized joined
  kept-Written h (inl k) = (above k).1
  kept-Written h (inr k) =
      subst (λ n. Written n joined) (omega (arith, short.known_initialized, x.kept_initialized))
        (whole k)

  -- A read through the shortened buffer of an empty one adds to the whole buffer the bytes that the
  -- reader gave, at most `limit` of them, and keeps it valid.
  pub sync_lem :
      (d : ReadBuf) × (sync true b b.filled c ≡ returned d) × Extends b xs d × (length xs ≤ limit)
  sync_lem = elim (Bool-cases (ltb b.initialized c.initialized)) [
    | inl e ↦ (
      with_end c.initialized,
      sync-grown e,
      joined-Extends c.initialized x.is_valid.ordered
          (omega (arith, ltb→lt b.initialized c.initialized e))
          (omega (arith, x.is_valid.fits, length-short))
          (grown-Written (ltb→lt b.initialized c.initialized e)),
      moved,
    )
    | inr e ↦ (
      with_end b.initialized,
      sync-kept e,
      joined-Extends b.initialized
          (omega (arith, x.is_valid.ordered, ltb→ge b.initialized c.initialized e)) (omega arith)
          v.fits (kept-Written (ltb→ge b.initialized c.initialized e) (omega arith)),
      moved,
    )
  ]
