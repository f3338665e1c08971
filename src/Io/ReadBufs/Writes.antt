-- ===== src/Io/ReadBufs/Writes.antt =====
-- `append` and `initialize_unfilled`, and the whole of the agreement.
use completion.Common.{
  ℕ, ◌+◌, ◌-◌, ◌≤◌, ◌≡◌, refl, sym, ap, ◌∙◌, subst, some, List, map, length, replicate, ltb, leb,
  arith, Bool-cases, inl, inr, ltb→ge, le→leb, leb→le,
}
use completion.Poll.{returned}
use completion.Io.ReadBuf.{ReadBuf, Cell}
use completion.Io.ReadBuf as ReadBuf
use completion.Io.ReadBuf.Bytes.{write_at}
use completion.Io.ReadBufs.{
  ReadBufs, total, remaining, add_filled, append, initialize_unfilled, write_from, fill_from,
}
use completion.Io.ReadBufs.Position.{index, index_le, end-IsPlace, index-end}
use completion.Io.ReadBufs.Cells.{
  concat, length-concat, concat-write_from, concat-fill_from, lengths-write_from, lengths-fill_from,
  lengths-IsPlace, lengths-index, lengths-total, write_at-nil,
}
use completion.Io.ReadBufs.Flat.{
  flat, IsPlaced, Refines, place, start, remaining_lem, remaining-flat, add_filled-Refines,
  assume_init_lem,
}

-- With other bytes in buffers of the same lengths.
lengths-IsPlaced :
    (r : ReadBufs) (bufs : List (List Cell))
    → map length bufs ≡ map length r.bufs
    → IsPlaced r
    → IsPlaced (record r { bufs = bufs })
lengths-IsPlaced r bufs e v = record {
  filled_place = lengths-IsPlace r.bufs bufs r.filled_bufs r.filled_to (sym e) v.filled_place;
  initialized_place =
      lengths-IsPlace r.bufs bufs r.initialized_bufs r.initialized_to (sym e) v.initialized_place;
  ordered = omega (
    arith,
    v.ordered,
    lengths-index bufs r.bufs r.filled_bufs r.filled_to e,
    lengths-index bufs r.bufs r.initialized_bufs r.initialized_to e,
  );
  small = omega (arith, v.small, lengths-total bufs r.bufs e);
}

lengths-flat :
    (r : ReadBufs) (bufs : List (List Cell))
    → map length bufs ≡ map length r.bufs
    → flat (record r { bufs = bufs }) ≡ record (flat r) { bytes = concat bufs }
unfolding flat
lengths-flat r bufs e =
    ap
      (λ i. record (flat r) {
        bytes = concat bufs;
        filled = i;
        initialized = index bufs r.initialized_bufs r.initialized_to;
      })
      (lengths-index bufs r.bufs r.filled_bufs r.filled_to e)
    ∙ ap (λ i. record (flat r) { bytes = concat bufs; initialized = i })
        (lengths-index bufs r.bufs r.initialized_bufs r.initialized_to e)

append-Refines :
    (r : ReadBufs)
    → IsPlaced r
    → (other : List ℕ) → Refines (append r other) (ReadBuf.append (flat r) other)
unfolding append ReadBuf.append Refines flat
append-Refines r v other = elim (Bool-cases (leb (length other) (remaining r))) [
  | inl e ↦
      let n = length other in
      let (s, (p, w, q)) =
        assume_init_lem written placed n (omega (arith, fits (leb→le n (remaining r) e))) in
      rw (e, sym (remaining-flat r v), e, p)
        (subst (λ b. Refines (add_filled s n) (ReadBuf.add_filled b n))
          (q ∙ ap (λ b. ReadBuf.assume_init b n) flat_written) (add_filled-Refines s w n))
  | inr e ↦ rw (e, sym (remaining-flat r v), e) tt
]
  where
    bufs : List (List Cell)
    bufs = write_from r.filled_bufs r.filled_to r.bufs other

    same : map length bufs ≡ map length r.bufs
    same = lengths-write_from r.filled_bufs r.filled_to r.bufs other

    written : ReadBufs
    written = record r { bufs = bufs }

    placed : IsPlaced written
    placed = lengths-IsPlaced r bufs same v

    flat_written :
        flat written
        ≡ record (flat r) { bytes = write_at (concat r.bufs) (place r v) (map some other) }
    flat_written =
        lengths-flat r bufs same
        ∙ ap (λ bytes. record (flat r) { bytes = bytes })
            (concat-write_from r.filled_bufs r.filled_to r.bufs other v.filled_place)

    fits :
        length other ≤ remaining r
        → index bufs r.filled_bufs r.filled_to + length other ≤ total bufs
    fits h = omega (
      arith,
      h,
      remaining_lem r v,
      lengths-total bufs r.bufs same,
      lengths-index bufs r.bufs r.filled_bufs r.filled_to same,
      index_le r.bufs r.filled_bufs r.filled_to v.filled_place,
    )

-- All bytes are initialised then.
whole_lem :
    (b : ReadBuf)
    → b.filled ≤ length b.bytes
    → b.initialized ≤ length b.bytes
    → ReadBuf.initialize_unfilled b
      ≡ returned (record b {
        bytes =
            write_at b.bytes b.initialized (replicate (length b.bytes - b.initialized) (some 0));
        initialized = length b.bytes;
      })
unfolding ReadBuf.initialize_unfilled ReadBuf.initialize_unfilled_to
whole_lem b h k =
    rw (le→leb (length b.bytes - b.filled) (length b.bytes - b.filled) (omega arith), whole)
      (elim (Bool-cases (ltb b.initialized (length b.bytes))) [
        | inl e ↦ rw e refl
        | inr e ↦ rw e (unchanged (full (ltb→ge b.initialized (length b.bytes) e)))
      ])
  where
    whole : b.filled + (length b.bytes - b.filled) ≡ length b.bytes
    whole = omega (arith, h)

    full : length b.bytes ≤ b.initialized → b.initialized ≡ length b.bytes
    full l = omega (arith, l, k)

    nothing : b.initialized ≡ length b.bytes → length b.bytes - b.initialized ≡ 0
    nothing e = omega (arith, e)

    unchanged :
        b.initialized ≡ length b.bytes
        → returned b
          ≡ returned (record b {
            bytes =
                write_at b.bytes b.initialized
                  (replicate (length b.bytes - b.initialized) (some 0));
            initialized = length b.bytes;
          })
    unchanged e =
        ap (λ i. returned (record b { initialized = i })) e
        ∙ ap (λ bytes. returned (record b { bytes = bytes; initialized = length b.bytes }))
            (sym (
              ap (λ n. write_at b.bytes b.initialized (replicate n (some 0))) (nothing e)
              ∙ write_at-nil b.bytes b.initialized))

initialize_unfilled-Refines :
    (r : ReadBufs)
    → IsPlaced r
    → Refines (returned (initialize_unfilled r)) (ReadBuf.initialize_unfilled (flat r))
unfolding initialize_unfilled Refines flat
initialize_unfilled-Refines r v =
    subst (Refines (returned (initialize_unfilled r)))
      (sym (
        whole_lem (flat r)
          (omega
            (arith, length-concat r.bufs, index_le r.bufs r.filled_bufs r.filled_to v.filled_place))
          (omega (
            arith,
            length-concat r.bufs,
            index_le r.bufs r.initialized_bufs r.initialized_to v.initialized_place,
          ))))
      (placed, flat_lem)
  where
    bufs : List (List Cell)
    bufs = fill_from r.initialized_bufs r.initialized_to r.bufs

    same : map length bufs ≡ map length r.bufs
    same = lengths-fill_from r.initialized_bufs r.initialized_to r.bufs v.initialized_place

    placed : IsPlaced (initialize_unfilled r)
    placed = record {
      filled_place =
          lengths-IsPlace r.bufs bufs r.filled_bufs r.filled_to (sym same) v.filled_place;
      initialized_place =
          lengths-IsPlace r.bufs bufs (length r.bufs) 0 (sym same) (end-IsPlace r.bufs);
      ordered = omega (
        arith,
        lengths-index bufs r.bufs r.filled_bufs r.filled_to same,
        lengths-index bufs r.bufs (length r.bufs) 0 same,
        index-end r.bufs,
        index_le r.bufs r.filled_bufs r.filled_to v.filled_place,
      );
      small = omega (arith, v.small, lengths-total bufs r.bufs same);
    }

    flat_lem : flat (initialize_unfilled r) ≡ record (flat r) {
      bytes =
          write_at
            (concat r.bufs)
            (start r v)
            (replicate (length (concat r.bufs) - start r v) (some 0));
      initialized = length (concat r.bufs);
    }
    flat_lem =
        lengths-flat (record r { initialized_bufs = length r.bufs; initialized_to = 0 }) bufs same
        ∙ ap (λ i. record (flat r) { bytes = concat bufs; initialized = i })
            (index-end r.bufs ∙ sym (length-concat r.bufs))
        ∙ ap (λ bytes. record (flat r) { bytes = bytes; initialized = length (concat r.bufs) })
            (concat-fill_from r.initialized_bufs r.initialized_to r.bufs v.initialized_place
              ∙ ap (λ n. write_at (concat r.bufs) (start r v) (replicate (n - start r v) (some 0)))
                  (sym (length-concat r.bufs)))

-- A valid `ReadBufs` is used like one buffer of the bytes of all its buffers: `remaining` counts the
-- same bytes, and `add_filled`, `append` and `initialize_unfilled` panic when they do for that
-- `ReadBuf`, and else leave a valid `ReadBufs` that again stands for the `ReadBuf` they leave.
-- Valid is: the filled position is not behind the initialised one, each is in a buffer with room
-- behind it or behind the last buffer, and the number of all bytes is a `usize`.
pub ReadBufs-ReadBuf :
    (r : ReadBufs)
    → IsPlaced r
    → (remaining r ≡ ReadBuf.remaining (flat r))
      × ((n : ℕ) → Refines (add_filled r n) (ReadBuf.add_filled (flat r) n))
      × ((other : List ℕ) → Refines (append r other) (ReadBuf.append (flat r) other))
      × Refines (returned (initialize_unfilled r)) (ReadBuf.initialize_unfilled (flat r))
ReadBufs-ReadBuf r v = (
  remaining-flat r v,
  add_filled-Refines r v,
  append-Refines r v,
  initialize_unfilled-Refines r v,
)
