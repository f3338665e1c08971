-- ===== src/Io/BufWriter/Write.antt =====
-- The bytes that are put out and those in the buffer, together.
use completion.Common.{
  ℕ, suc, ◌+◌, ◌≤◌, ◌<◌, ◌≡◌, refl, ap, sym, ◌∙◌, subst, inl, inr, true, List, [], ◌∷◌, ◌++◌,
  length, take, drop, ltb, leb, le→leb, lt→leb, leb→le, leb→gt, ltb→ge, arith, Result, ok, err,
  Bool-cases, append-nil, append_assoc, length-append, take-append-drop, length-drop,
}
use completion.Poll.{ready, returned, usize_limit}
use completion.Poll.Drive.{drive_end, drive_round, map_state-ready_then}
use completion.Poll.Machine.{Machine, PollsTo-suc, Completes, Completes-of_polls}
use completion.Io.Base.{Errors, AsyncWrite, free, lent}
use completion.Io.WriteAll.Output.{Answer, IsWriter}
use completion.Io.BufWriter.{
  BufWriter, FlushBuf, flushing, flushed, WriteState, flush_buf, mid, bypass, temporary,
  WriteBufWriter, write, write_poll, after_flush, flush_buf_poll, release, new_flush_buf,
}
use completion.Io.BufWriter.Flushed.{Flushes, flush_buf-Flushes}

take-length : (xs : List ℕ) → take (length xs) xs ≡ xs
take-length [] = refl
take-length (x ∷ xs) = ap (x ∷◌) (take-length xs)

module _ {W F E : Type 0} (errors : Errors E) (io : AsyncWrite W F E) (output : W → List ℕ)
    (patience : W → ℕ) (contract : IsWriter errors io output patience) where
  abbrev pub poll : Machine (WriteBufWriter W F) (Result ℕ E)
  poll = write_poll errors io

  -- What the user of a `BufWriter` has written: the bytes put out, and those in the buffer.
  abbrev pub stream : BufWriter W → List ℕ
  stream b = output b.inner ++ b.buf

  -- A write adds the first bytes of `bs`, and an error adds none.
  pub Writes : BufWriter W → List ℕ → Result ℕ E → BufWriter W → Type 0
  Writes b bs (ok k) c =
      (k ≤ length bs) × (stream c ≡ stream b ++ take k bs) × (length c.buf ≤ c.capacity)
  Writes b bs (err e) c = (stream c ≡ stream b) × (length c.buf ≤ c.capacity)

  module _ (b : BufWriter W) (bs : List ℕ) where
    abbrev at : WriteState W F → WriteBufWriter W F
    at state = record { state = state; buf = bs; capacity = b.capacity }

    Reaches : WriteBufWriter W F → Type 0
    Reaches t =
        (r : Result ℕ E) × ((u : WriteBufWriter W F) × (Completes poll t r u
            × Writes b bs r (release errors io u)))

    -- A write past the internal buffer, which is empty.
    bypasses : (w : W) → output w ≡ stream b → b.capacity ≤ length bs → Reaches (at (mid w []))
    unfolding Reaches Writes write_poll release
    bypasses w o l =
        let (res, g, c, a) = contract w bs in
        (
          res,
          (
            at (bypass g []),
            (
              Completes-of_polls
                  (λ r q. PollsTo-suc poll _ _ q.0 (λ n h. step n ∙ q.1 (suc n) (omega (arith, h))))
                  (drive_end io.poll poll wrap (λ n res g. returned (ready res, wrap g))
                    (λ n f. map_state-ready_then wrap (io.poll n f)) c (λ n. refl)),
              writes res g a,
            ),
          ),
        )
      where
        wrap : F → WriteBufWriter W F
        wrap f = at (bypass f [])

        step : (n : ℕ) → poll (suc n) (at (mid w [])) ≡ poll (suc n) (wrap (io.write w bs))
        step n = rw (write_poll, le→leb b.capacity (length bs) l) refl

        writes :
            (res : Result ℕ E) (g : F)
            → Answer errors output patience w bs res (io.release g)
            → Writes b bs res (release errors io (wrap g))
        writes (ok k) g a =
            (a.0, append-nil (output (io.release g)) ∙ a.1 ∙ ap (◌++ take k bs) o, omega arith)
        writes (err e) g a = (append-nil (output (io.release g)) ∙ a.0 ∙ o, omega arith)

    -- The bytes go to the internal buffer.
    collects :
        (w : W) (internal : List ℕ)
        → output w ++ internal ≡ stream b
        → length internal + length bs ≤ b.capacity
        → length bs < b.capacity
        → Reaches (at (mid w internal))
    unfolding Reaches Writes write_poll release
    collects w internal o l m = (
      ok (length bs),
      (
        at (temporary w (internal ++ bs)),
        (
          Completes.done (
              PollsTo-suc poll _ _ 0
                (λ n h. rw (write_poll, lt→leb b.capacity (length bs) m) refl)),
          (
            omega arith,
            sym (append_assoc (output w) internal bs)
                ∙ ap (◌++ bs) o
                ∙ ap (stream b ++◌) (sym (take-length bs)),
            subst (◌≤ b.capacity) (sym (length-append internal bs)) l,
          ),
        ),
      ),
    )

    -- Behind a flush.
    flushed_lem : (w : W) → output w ≡ stream b → Reaches (at (mid w []))
    flushed_lem w o = elim (Bool-cases (leb b.capacity (length bs))) [
      | inl e ↦ bypasses w o (leb→le b.capacity (length bs) e)
      | inr e ↦
          collects w [] (append-nil (output w) ∙ o) (omega (arith, leb→gt b.capacity (length bs) e))
            (leb→gt b.capacity (length bs) e)
    ]

    flushes :
        length b.buf ≤ b.capacity
        → b.capacity < usize_limit
        → Reaches (at (flush_buf (new_flush_buf errors io b)))
    unfolding Reaches Writes Flushes write_poll release
    flushes l s =
        let (r, (u, (c, f))) =
          flush_buf-Flushes errors io output patience contract b.inner b.buf
            (omega (arith, l, s)) in
        go r u c f
      where
        wrap : FlushBuf W F → WriteBufWriter W F
        wrap f = at (flush_buf f)

        start : WriteBufWriter W F
        start = wrap (new_flush_buf errors io b)

        go :
            (r : Result (Unit {0}) E) (u : FlushBuf W F)
            → Completes (flush_buf_poll errors io) (new_flush_buf errors io b) r u
            → Flushes errors io output patience contract b.inner b.buf 0 r u
            → Reaches start
        go (ok x) (flushed w) c f =
            let (r, (u, (d, v))) = flushed_lem w f in
            (
              r,
              (
                u,
                (
                  drive_round (flush_buf_poll errors io) poll wrap
                      (λ n. after_flush errors io n start) (λ n f. refl) c (λ n. refl) d,
                  v,
                ),
              ),
            )
        go (ok x) (flushing m cs k) c f = absurd f
        go (err e) (flushed w) c f = absurd f
        go (err e) (flushing (lent g) cs k) c f = absurd f
        go (err e) (flushing (free w) cs k) c (i, (j, (o, d))) = (
          err e,
          (
            wrap (flushing (free w) cs k),
            (
              drive_end (flush_buf_poll errors io) poll wrap (λ n. after_flush errors io n start)
                  (λ n f. refl) c (λ n. refl),
              (whole w cs j o d, shorter cs j d),
            ),
          ),
        )
          where
            whole :
                (w : W) (cs : List ℕ) (j : ℕ)
                → output w ≡ output b.inner ++ take j b.buf
                → cs ≡ drop (0 + j) b.buf
                → output w ++ cs ≡ stream b
            whole w cs j o d =
                ap (output w ++◌) (d ∙ ap (λ n. drop n b.buf) plain)
                ∙ ap (◌++ drop j b.buf) o
                ∙ append_assoc (output b.inner) (take j b.buf) (drop j b.buf)
                ∙ ap (output b.inner ++◌) (take-append-drop j b.buf)
              where
                plain : 0 + j ≡ j
                plain = omega arith

            shorter : (cs : List ℕ) (j : ℕ) → cs ≡ drop (0 + j) b.buf → length cs ≤ b.capacity
            shorter cs j d = omega (arith, ap length d, length-drop (0 + j) b.buf, l)

    unflushed : length b.buf + length bs ≤ b.capacity → Reaches (at (mid b.inner b.buf))
    unflushed l = elim (Bool-cases (leb b.capacity (length bs))) [
      | inl e ↦
          subst (λ internal. Reaches (at (mid b.inner internal)))
            (sym (no_bytes b.buf (none_left e)))
            (bypasses b.inner
              (sym (
                ap (output b.inner ++◌) (no_bytes b.buf (none_left e))
                ∙ append-nil (output b.inner)))
              (leb→le b.capacity (length bs) e))
      | inr e ↦ collects b.inner b.buf refl l (leb→gt b.capacity (length bs) e)
    ]
      where
        none_left : leb b.capacity (length bs) ≡ true → length b.buf ≡ 0
        none_left e = omega (arith, l, leb→le b.capacity (length bs) e)

        no_bytes : (xs : List ℕ) → length xs ≡ 0 → xs ≡ []
        no_bytes [] h = refl
        no_bytes (x ∷ xs) h = absurd (omega (arith, h))

    write_lem :
        length b.buf ≤ b.capacity → b.capacity < usize_limit → Reaches (write errors io b bs)
    unfolding write
    write_lem l s = elim (Bool-cases (ltb b.capacity (length b.buf + length bs))) [
      | inl e ↦ rw e (flushes l s)
      | inr e ↦ rw e (unflushed (ltb→ge b.capacity (length b.buf + length bs) e))
    ]

  -- On a writer that keeps its contract, `write` on a `BufWriter` whose buffer has not grown past its
  -- capacity completes. Taken together, the bytes that are put out and those in the buffer are
  -- what they were, in their order, followed by as many of the given bytes as the result says,
  -- or by none if it is an error; and the buffer again is within its capacity.
  pub write-Writes :
      (b : BufWriter W) (bs : List ℕ)
      → length b.buf ≤ b.capacity
      → b.capacity < usize_limit
      → (r : Result ℕ E) × ((t : WriteBufWriter W F) × (Completes poll (write errors io b bs) r t
            × Writes b bs r (release errors io t)))
  unfolding Reaches
  write-Writes b bs l s = write_lem b bs l s
