-- ===== src/Io/BufReader/Read.antt =====
-- A `BufReader` keeps the contract of a reader.
use completion.Common.{
  take-append, drop-append, eqb→eq, neb→lt, ℕ, ◌+◌, ◌-◌, ◌%◌, ◌≤◌, ◌<◌, ◌≡◌, ◌⊎◌, refl, ap, sym,
  ◌∙◌, subst, inl, inr, min, List, [], ◌∷◌, ◌++◌, length, take, drop, leb, le→leb, leb→gt, ◌==◌,
  arith, Result, ok, err, Bool-cases, length-append, length-drop, length-take, drop_add,
  take-append-drop,
}
use completion.Poll.{Poll, ready, Run, returned, usize_limit}
use completion.Poll.Drive.{drive_end, map_state-ready_then}
use completion.Poll.Machine.{PollsTo-suc, Completes}
use completion.Io.Base.{Errors, AsyncRead}
use completion.Io.ReadBuf.{ReadBuf, capacity, remaining, clear}
use completion.Io.ReadBuf.Bytes.{length-map-some}
use completion.Io.ReadBuf.Valid.{IsValid, clear-IsValid}
use completion.Io.Reader.{
  append-Extends, Extends, Extends-refl, Moved, Answer, IsReader, length-filled_cells,
}
use completion.Io.BufReader.{
  BufReader, buffer, consume, FillBufBufReader, reading, kept, completed, ReadBufReader, bypass,
  fill_buf, consumed, start_fill, fill_poll, after_fill, after_read, read, read_poll, release,
  release_buf,
}
use completion.Io.BufReader.Stream.{IsBuffered, buffer-drop, filled_bytes}

module _ {R F E : Type 0} (errors : Errors E) (io : AsyncRead R F E) (bytes : R → List ℕ)
    (patience : R → ℕ) (contract : IsReader errors bytes patience io) where
  -- What a `BufReader` has yet to give: the rest of its buffer, and the bytes of the reader.
  abbrev pub stream : BufReader R → List ℕ
  stream b = buffer b ++ bytes b.inner

  abbrev pub stream_patience : BufReader R → ℕ
  stream_patience b = patience b.inner

  length-buffer : (b : BufReader R) → IsBuffered b → length (buffer b) ≡ b.buf.filled - b.pos
  length-buffer b v =
      let (xs, e) = filled_bytes b.buf v.is_valid in
      ap length (buffer-drop b xs e)
      ∙ length-drop b.pos xs
      ∙ ap (◌- b.pos)
          (sym (length-map-some xs) ∙ ap length (sym e) ∙ length-filled_cells v.is_valid)

  -- `consume` of bytes that are in the buffer.
  consume_lem :
      (b : BufReader R) (amt : ℕ)
      → IsBuffered b
      → amt ≤ length (buffer b)
      → (stream (consume b amt) ≡ drop amt (stream b)) × IsBuffered (consume b amt)
  unfolding consume
  consume_lem b amt v l =
      (whole, record { is_valid = v.is_valid; pos_le = omega (arith, pos, inside) })
    where
      inside : b.pos + amt ≤ b.buf.filled
      inside = omega (arith, l, length-buffer b v, v.pos_le)

      pos : min ((b.pos + amt) % usize_limit) (capacity b.buf) ≡ b.pos + amt
      pos = omega (arith, inside, v.is_valid.ordered, v.is_valid.fits, v.is_valid.small)

      moved : BufReader R
      moved = record b { pos = min ((b.pos + amt) % usize_limit) (capacity b.buf) }

      whole : stream moved ≡ drop amt (stream b)
      whole =
          let (xs, e) = filled_bytes b.buf v.is_valid in
          ap (◌++ bytes b.inner) (
            buffer-drop moved xs e
            ∙ ap (λ n. drop n xs) pos
            ∙ drop_add b.pos amt xs
            ∙ ap (drop amt) (sym (buffer-drop b xs e)))
          ∙ sym (drop-append amt (buffer b) (bytes b.inner) l)

  module _ (b : BufReader R) (buf : ReadBuf) (valid : IsValid buf) (room : 0 < remaining buf) where
    -- From the state `t` a read by `b` into `buf` completes, and keeps the contract.
    Reads : ReadBufReader R F → Type 0
    Reads t =
        (res : Result (Unit {0}) E) × ((u : ReadBufReader R F) × (Completes (read_poll io) t res u
            × Answer errors stream stream_patience b buf res (release io u) (release_buf io u)
            × IsBuffered (release io u)))

    wrap : FillBufBufReader R F → ReadBufReader R F
    wrap f = fill_buf f buf

    -- The buffer of `c` is shown, and bytes are taken from it.
    serves :
        (f : FillBufBufReader R F) (c : BufReader R)
        → Completes (fill_poll io) f (ok (buffer c)) (completed c)
        → IsBuffered c
        → stream c ≡ stream b
        → (0 < length (buffer c)) ⊎ (stream b ≡ [])
        → Reads (fill_buf f buf)
    unfolding Reads read_poll
    serves f c d v s some_bytes =
        let (g, (e, x)) = append-Extends buf (take amt (buffer c)) valid taken_fits in
        (
          ok tt,
          (
            consumed (consume c amt) g,
            (
              drive_end (fill_poll io) (read_poll io) (λ f. fill_buf f buf) (λ n. after_fill io buf)
                  (λ n f. refl) d (λ n. rw e refl),
              (
                amt,
                (
                  omega (arith, in_buffer, ap length s, length-append (buffer c) (bytes c.inner)),
                  subst (λ l. Extends buf l g)
                      (sym (take-append amt (buffer c) (bytes c.inner) in_buffer) ∙ ap (take amt) s)
                      x,
                  (consume_lem c amt v in_buffer).0 ∙ ap (drop amt) s,
                ),
                progress some_bytes,
              ),
              (consume_lem c amt v in_buffer).1,
            ),
          ),
        )
      where
        amt : ℕ
        amt = min (remaining buf) (length (buffer c))

        in_buffer : amt ≤ length (buffer c)
        in_buffer = omega arith

        taken_fits : length (take amt (buffer c)) ≤ remaining buf
        taken_fits = omega (arith, length-take amt (buffer c))

        progress : (0 < length (buffer c)) ⊎ (stream b ≡ []) → (0 < amt) ⊎ (stream b ≡ [])
        progress (inl l) = inl (omega (arith, l, room))
        progress (inr e) = inr e

    keeps : IsBuffered b → b.pos < b.buf.filled → Reads (fill_buf (kept b) buf)
    unfolding fill_poll
    keeps v l =
        serves (kept b) b
          (Completes.done (
            PollsTo-suc (fill_poll io) _ _ 0
              (λ n h. rw (fill_poll, le→leb b.pos b.buf.filled v.pos_le) refl)))
          v refl (inl (omega (arith, length-buffer b v, l)))

    -- Nothing is left in the buffer.
    module _ (v : IsBuffered b) (empty : b.pos ≡ b.buf.filled) where
      nothing : buffer b ≡ []
      nothing = no_bytes (buffer b) (omega (arith, length-buffer b v, empty))
        where
          no_bytes : (xs : List ℕ) → length xs ≡ 0 → xs ≡ []
          no_bytes [] h = refl
          no_bytes (x ∷ xs) h = absurd (omega (arith, h))

      stream-inner : stream b ≡ bytes b.inner
      stream-inner = ap (◌++ bytes b.inner) nothing

      -- What a read into the cleared buffer makes of the `BufReader`.
      filled_by : F → BufReader R
      filled_by g = record { inner = io.release g; buf = io.release_buf g; pos = 0 }

      filled_by_lem :
          (k : ℕ) (g : F)
          → Moved errors bytes patience b.inner (clear b.buf) k (io.release g) (io.release_buf g)
          → (buffer (filled_by g) ≡ take k (bytes b.inner))
            × (stream (filled_by g) ≡ stream b)
            × IsBuffered (filled_by g)
      unfolding filled_by clear
      filled_by_lem k g (l, x, e) = (
        shown,
        ap (◌++ bytes (io.release g)) shown
            ∙ ap (take k (bytes b.inner) ++◌) e
            ∙ take-append-drop k (bytes b.inner)
            ∙ sym stream-inner,
        record { is_valid = x.is_valid; pos_le = omega arith },
      )
        where
          shown : buffer (filled_by g) ≡ take k (bytes b.inner)
          shown = buffer-drop (filled_by g) (take k (bytes b.inner)) x.filled_part

      fills : 0 < capacity b.buf → Reads (fill_buf (reading (io.read b.inner (clear b.buf))) buf)
      unfolding clear fill_poll read_poll Reads filled_by
      fills c =
          let (res, g, d, a) =
            contract b.inner (clear b.buf) (clear-IsValid v.is_valid) (omega (arith, c)) in
          go res g d a
        where
          onward :
              ℕ → Result (Unit {0}) E → F → Run (Poll (Result (List ℕ) E) × FillBufBufReader R F)
          onward n = after_read io

          shown :
              (g : F)
              → after_read io (ok tt) g
                ≡ returned (ready (ok (buffer (filled_by g))), completed (filled_by g))
          shown g = rw (le→leb 0 ((io.release_buf g).filled) (omega arith)) refl

          none_left :
              (k : ℕ) (g : F)
              → Moved errors bytes patience b.inner
                  (clear b.buf)
                  k
                  (io.release g)
                  (io.release_buf g)
              → (0 < k) ⊎ (bytes b.inner ≡ [])
              → (0 < length (buffer (filled_by g))) ⊎ (stream b ≡ [])
          none_left k g m (inl l) = inl (
              omega
                (arith, ap length (filled_by_lem k g m).0, length-take k (bytes b.inner), m.0, l))
          none_left k g m (inr e) = inr (stream-inner ∙ e)

          go :
              (res : Result (Unit {0}) E) (g : F)
              → Completes io.poll (io.read b.inner (clear b.buf)) res g
              → Answer errors bytes patience b.inner
                  (clear b.buf)
                  res
                  (io.release g)
                  (io.release_buf g)
              → Reads (fill_buf (reading (io.read b.inner (clear b.buf))) buf)
          go (ok x) g d (k, m, q) =
              serves (reading (io.read b.inner (clear b.buf))) (filled_by g)
                (drive_end io.poll (fill_poll io) reading onward (λ n f. refl) d (λ n. shown g))
                (filled_by_lem k g m).2 (filled_by_lem k g m).1 (none_left k g m q)
          go (err e) g d (m, q) = (
            err e,
            (
              fill_buf (reading g) buf,
              (
                drive_end (fill_poll io) (read_poll io) (λ f. fill_buf f buf)
                    (λ n. after_fill io buf) (λ n f. refl)
                    (drive_end io.poll (fill_poll io) reading onward (λ n f. refl) d (λ n. refl))
                    (λ n. refl),
                ((omega arith, Extends-refl valid, (filled_by_lem 0 g m).1), q),
                (filled_by_lem 0 g m).2,
              ),
            ),
          )

      bypasses : Reads (bypass (io.read b.inner buf) b.buf b.pos)
      unfolding read_poll Reads
      bypasses =
          let (res, g, d, a) = contract b.inner buf valid room in
          (
            res,
            (
              wrapped g,
              (
                drive_end io.poll (read_poll io) wrapped
                    (λ n res g. returned (ready res, wrapped g))
                    (λ n f. map_state-ready_then wrapped (io.poll n f)) d (λ n. refl),
                answer res g a,
                record { is_valid = v.is_valid; pos_le = v.pos_le },
              ),
            ),
          )
        where
          wrapped : F → ReadBufReader R F
          wrapped f = bypass f b.buf b.pos

          after : F → BufReader R
          after g = record { inner = io.release g; buf = b.buf; pos = b.pos }

          stream-after : (g : F) → stream (after g) ≡ bytes (io.release g)
          stream-after g = ap (◌++ bytes (io.release g)) nothing

          moved :
              (k : ℕ) (g : F)
              → Moved errors bytes patience b.inner buf k (io.release g) (io.release_buf g)
              → Moved errors stream stream_patience b buf k (after g) (io.release_buf g)
          moved k g (l, x, e) = (
            subst (λ l. k ≤ length l) (sym stream-inner) l,
            subst (λ l. Extends buf (take k l) (io.release_buf g)) (sym stream-inner) x,
            stream-after g ∙ e ∙ ap (drop k) (sym stream-inner),
          )

          answer :
              (res : Result (Unit {0}) E) (g : F)
              → Answer errors bytes patience b.inner buf res (io.release g) (io.release_buf g)
              → Answer errors stream stream_patience b buf res (after g) (io.release_buf g)
          answer (ok x) g (k, m, inl l) = (k, moved k g m, inl l)
          answer (ok x) g (k, m, inr e) = (k, moved k g m, inr (stream-inner ∙ e))
          answer (err e) g (m, q) = (moved 0 g m, q)

    reads : IsBuffered b → Reads (read io b buf)
    unfolding read start_fill
    reads v = elim (Bool-cases (b.pos == b.buf.filled)) [
      | inl e ↦ elim (Bool-cases (leb (capacity b.buf) (capacity buf))) [
        | inl f ↦ rw (e, f) (bypasses v (eqb→eq b.pos b.buf.filled e))
        | inr f ↦
            rw (e, f)
              (fills v (eqb→eq b.pos b.buf.filled e)
                (omega (arith, leb→gt (capacity b.buf) (capacity buf) f)))
      ]
      | inr e ↦ rw e (keeps v (neb→lt b.pos b.buf.filled e v.pos_le))
    ]

  -- Over a reader that keeps the contract of `AsyncRead`, a `BufReader` keeps it too, where the bytes it
  -- has yet to give are those in its buffer behind its position and then those of the reader:
  -- `read` into a valid buffer that is not full completes, it appends the first of these bytes, at
  -- least one unless none are left, or gives an error and takes none. Its own buffer is valid and
  -- its position within the filled part, before and after.
  pub read-Answer :
      (b : BufReader R) (buf : ReadBuf)
      → IsBuffered b
      → IsValid buf
      → 0 < remaining buf
      → (res : Result (Unit {0}) E) × ((t : ReadBufReader R F) × (Completes
              (read_poll io)
              (read io b buf)
              res
              t
            × Answer errors stream stream_patience b buf res (release io t) (release_buf io t)
            × IsBuffered (release io t)))
  unfolding Reads
  read-Answer b buf v valid room = reads b buf valid room v
