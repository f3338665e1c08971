-- ===== src/Io/ReadBufs/Flat.antt =====
-- A `ReadBufs` is used like the `ReadBuf` of its bytes.
use completion.Common.{
  ℕ, ◌+◌, ◌-◌, ◌<◌, ◌≤◌, ◌≡◌, refl, sym, ap, ◌∙◌, subst, Option, none, some, ltb, leb, get_elem?,
  arith, Bool-cases, inl, inr, lt→ltb, lt→leb, leb→le,
}
use completion.Poll.{Run, panicked, returned, usize_limit}
use completion.Io.ReadBuf.{ReadBuf, Cell}
use completion.Io.ReadBuf as ReadBuf
use completion.Io.ReadBufs.{
  ReadBufs, total, ltb_pair, remaining, add_filled, filled_at, set_filled, assume_init,
  initialized_at, add_to_index_pair, len_or_one,
}
use completion.Io.ReadBufs.Position.{
  IsPlace, index, index_le, leb_pair-index, ltb_pair-index, len_or_one-IsPlace, Moved,
  add_to_index_pair-Moved, unfilled_lem,
}
use completion.Io.ReadBufs.Cells.{concat, length-concat}

-- The same bytes in one buffer.
unfoldable pub flat : ReadBufs → ReadBuf
flat r = record {
  bytes = concat r.bufs;
  filled = index r.bufs r.filled_bufs r.filled_to;
  initialized = index r.bufs r.initialized_bufs r.initialized_to;
}

-- The positions are places, in their order, and the bytes can be counted by a `usize`.
pub record IsPlaced (r : ReadBufs) : Type 0 where
  pub filled_place : IsPlace r.bufs r.filled_bufs r.filled_to
  pub initialized_place : IsPlace r.bufs r.initialized_bufs r.initialized_to
  pub ordered :
      index r.bufs r.filled_bufs r.filled_to ≤ index r.bufs r.initialized_bufs r.initialized_to
  pub small : total r.bufs < usize_limit

-- Both calls panic, or both return, and the buffers agree.
unfoldable pub Refines : Run ReadBufs → Run ReadBuf → Type 0
Refines (returned r) (returned b) = IsPlaced r × (flat r ≡ b)
Refines panicked panicked = Unit
Refines _ _ = ⊥

add_filled-panicked :
    (b : ReadBuf) (n : ℕ) → b.initialized < b.filled + n → ReadBuf.add_filled b n ≡ panicked
unfolding ReadBuf.add_filled ReadBuf.set_filled
add_filled-panicked b n l = elim (Bool-cases (ltb (b.filled + n) usize_limit)) [
  | inl e ↦ rw (e, lt→leb (b.filled + n) b.initialized l) refl
  | inr e ↦ rw e refl
]

add_filled-set_filled :
    (b : ReadBuf) (n : ℕ)
    → b.filled + n < usize_limit
    → ReadBuf.add_filled b n ≡ ReadBuf.set_filled b (b.filled + n)
unfolding ReadBuf.add_filled
add_filled-set_filled b n l = rw (lt→ltb (b.filled + n) usize_limit l) refl

module _ (r : ReadBufs) (v : IsPlaced r) where
  abbrev pub place : ℕ
  place = index r.bufs r.filled_bufs r.filled_to

  abbrev pub start : ℕ
  start = index r.bufs r.initialized_bufs r.initialized_to

  pub remaining_lem : remaining r ≡ total r.bufs - place
  unfolding remaining
  remaining_lem = unfilled_lem r.bufs r.filled_bufs r.filled_to v.filled_place

  pub remaining-flat : remaining r ≡ ReadBuf.remaining (flat r)
  unfolding flat
  remaining-flat = remaining_lem ∙ ap (◌- place) (sym (length-concat r.bufs))

  set_filled-Refines :
      (buf to : ℕ)
      → IsPlace r.bufs buf to
      → Refines (set_filled r buf to) (ReadBuf.set_filled (flat r) (index r.bufs buf to))
  unfolding set_filled ReadBuf.set_filled Refines flat
  set_filled-Refines buf to h =
      rw
        (
          leb_pair-index r.bufs buf to r.initialized_bufs r.initialized_to h v.initialized_place,
          lt→ltb to (len_or_one (get_elem? r.bufs buf)) (len_or_one-IsPlace r.bufs buf to h),
        )
        (elim (Bool-cases (leb (index r.bufs buf to) start)) [
          | inl e ↦ rw e (
            record {
              filled_place = h;
              initialized_place = v.initialized_place;
              ordered = leb→le (index r.bufs buf to) start e;
              small = v.small;
            },
            refl,
          )
          | inr e ↦ rw e tt
        ])

  pub add_filled-Refines : (n : ℕ) → Refines (add_filled r n) (ReadBuf.add_filled (flat r) n)
  unfolding add_filled ReadBuf.add_filled Refines flat
  add_filled-Refines n = go (add_to_index_pair r r.filled_bufs r.filled_to n) (
      add_to_index_pair-Moved r r.filled_bufs r.filled_to n v.filled_place (omega (arith, v.small)))
    where
      go :
          (o : Option (ℕ × ℕ))
          → Moved r.bufs (place + n) o
          → Refines (filled_at r o) (ReadBuf.add_filled (flat r) n)
      go none h =
          subst (Refines panicked)
            (sym (
              add_filled-panicked (flat r) n (
                omega (
                  arith,
                  h,
                  index_le r.bufs r.initialized_bufs r.initialized_to v.initialized_place,
                ))))
            tt
      go (some (buf, to)) (h, e) =
          subst (Refines (set_filled r buf to))
            (ap (ReadBuf.set_filled (flat r)) e
              ∙ sym (
                  add_filled-set_filled (flat r) n
                    (omega (arith, e, v.small, index_le r.bufs buf to h))))
            (set_filled-Refines buf to h)

  -- The caller's bytes are within the buffers.
  pub assume_init_lem :
      (n : ℕ)
      → place + n ≤ total r.bufs
      → (s : ReadBufs) × ((assume_init r n ≡ returned s)
          × IsPlaced s
          × (flat s ≡ ReadBuf.assume_init (flat r) n))
  unfolding assume_init ReadBuf.assume_init flat
  assume_init_lem n l = go (add_to_index_pair r r.filled_bufs r.filled_to n) (
      add_to_index_pair-Moved r r.filled_bufs r.filled_to n v.filled_place (omega (arith, v.small)))
    where
      go :
          (o : Option (ℕ × ℕ))
          → Moved r.bufs (place + n) o
          → (s : ReadBufs) × ((initialized_at r o ≡ returned s)
              × IsPlaced s
              × (flat s ≡ ReadBuf.assume_init (flat r) n))
      go none h = absurd (omega (arith, h, l))
      go (some (buf, to)) (h, e) = elim (Bool-cases (ltb start (place + n))) [
        | inl f ↦ (
          record r { initialized_bufs = buf; initialized_to = to },
          (
            rw (test, f) refl,
            record {
              filled_place = v.filled_place;
              initialized_place = h;
              ordered = omega (arith, e);
              small = v.small;
            },
            rw (f, e) refl,
          ),
        )
        | inr f ↦ (r, (rw (test, f) refl, v, rw f refl))
      ]
        where
          test : ltb_pair r.initialized_bufs r.initialized_to buf to ≡ ltb start (place + n)
          test =
              ltb_pair-index r.bufs r.initialized_bufs r.initialized_to buf to v.initialized_place h
              ∙ ap (ltb start) e
