-- ===== src/Io/BufWriter/Flushed.antt =====
-- What `FlushBuf` writes, and what it leaves in the buffer.
use completion.Common.{
  ℕ, zero, suc, ◌+◌, ◌-◌, ◌%◌, ◌≤◌, ◌<◌, ◌≡◌, refl, ap, sym, ◌∙◌, subst, inl, inr, false, List, [],
  ◌∷◌, ◌++◌, length, take, drop, ltb, leb, le→leb, lt→leb, leb→le, leb→gt, lt→ltb, if◌then◌else◌,
  arith, Result, ok, err, Bool-cases, resolve, append-nil, append_assoc, take-append-drop, take_add,
  drop_add, length-drop,
}
use completion.Poll.{usize_limit}
use completion.Poll.Drive.{drive_end, drive_round}
use completion.Poll.Machine.{Machine, PollsTo-suc, Completes, Completes-of_polls}
use completion.Io.Base.{Errors, AsyncWrite, free, lent}
use completion.Io.WriteAll.Output.{Answer, IsWriter}
use completion.Io.BufWriter.{
  FlushBuf, flushing, flushed, FlushStep, next_write, failed, after_write, flush_buf_poll,
}

module _ {W F E : Type 0} (errors : Errors E) (io : AsyncWrite W F E) (output : W → List ℕ)
    (patience : W → ℕ) (contract : IsWriter errors io output patience) where
  abbrev pub poll : Machine (FlushBuf W F) (Result (Unit {0}) E)
  poll = flush_buf_poll errors io

  -- All of the rest of the buffer is put out, or the first bytes, and these leave the buffer.
  unfoldable pub Flushes : W → List ℕ → ℕ → Result (Unit {0}) E → FlushBuf W F → Type 0
  Flushes w buf written (ok u) (flushed w') = output w' ≡ output w ++ drop written buf
  Flushes w buf written (ok u) (flushing l cs m) = ⊥
  Flushes w buf written (err e) (flushed w') = ⊥
  Flushes w buf written (err e) (flushing (lent f) cs m) = ⊥
  Flushes w buf written (err e) (flushing (free w') cs m) =
      (errors.is_interrupted e ≡ false)
      × ((k : ℕ) × ((output w' ≡ output w ++ take k (drop written buf))
            × (cs ≡ drop (written + k) buf)))

  -- From the state `t` the future completes with such an end.
  Reaches : W → List ℕ → ℕ → FlushBuf W F → Type 0
  Reaches w buf written t =
      (r : Result (Unit {0}) E) × ((u : FlushBuf W F) × (Completes poll t r u
          × Flushes w buf written r u))

  -- What is left of the buffer when the future fails.
  kept : ℕ → List ℕ → List ℕ
  kept written buf = if ltb 0 written then drop written buf else buf

  kept-drop : (written : ℕ) (buf : List ℕ) → kept written buf ≡ drop written buf
  unfolding kept
  kept-drop zero buf = refl
  kept-drop (suc written) buf = rw (lt→ltb 0 (suc written) (omega arith)) refl

  -- What is put out behind a part of the bytes.
  Flushes-take :
      (w v : W) (buf : List ℕ) (written k : ℕ) (r : Result (Unit {0}) E) (u : FlushBuf W F)
      → output v ≡ output w ++ take k (drop written buf)
      → Flushes v buf (written + k) r u
      → Flushes w buf written r u
  unfolding Flushes
  Flushes-take w v buf written k (ok x) (flushed w') e h =
      h
      ∙ ap (◌++ drop (written + k) buf) e
      ∙ append_assoc (output w) (take k (drop written buf)) (drop (written + k) buf)
      ∙ ap (λ rest. output w ++ (take k (drop written buf) ++ rest)) (drop_add written k buf)
      ∙ ap (output w ++◌) (take-append-drop k (drop written buf))
  Flushes-take w v buf written k (ok x) (flushing l cs m) e h = h
  Flushes-take w v buf written k (err x) (flushed w') e h = h
  Flushes-take w v buf written k (err x) (flushing (lent f) cs m) e h = h
  Flushes-take w v buf written k (err x) (flushing (free w') cs m) e (i, (j, (h, c))) = (
    i,
    (
      k + j,
      (
        h
            ∙ ap (◌++ take j (drop (written + k) buf)) e
            ∙ append_assoc (output w) (take k (drop written buf)) (take j (drop (written + k) buf))
            ∙ ap (λ rest. output w ++ (take k (drop written buf) ++ take j rest))
                (drop_add written k buf)
            ∙ ap (output w ++◌) (sym (take_add k j (drop written buf))),
        c ∙ ap (λ n. drop n buf) (omega arith),
      ),
    ),
  )

  module _ (buf : List ℕ) where
    -- The state in which a write of the rest of the buffer is under way.
    abbrev writing : ℕ → F → FlushBuf W F
    writing written f = flushing (lent f) buf written

    abbrev onward : ℕ → ℕ → Result ℕ E → F → FlushStep errors io
    onward written n res g = after_write errors io (poll n) (io.release g) buf written res

    begin :
        {w : W} {r : Result (Unit {0}) E} {u : FlushBuf W F} (written : ℕ)
        → written < length buf
        → Completes poll (writing written (io.write w (drop written buf))) r u
        → Completes poll (flushing (free w) buf written) r u
    unfolding flush_buf_poll
    begin {w} written l c =
        Completes-of_polls (λ r q. PollsTo-suc poll _ _ q.0 (λ n h. step n ∙ q.1 n h)) c
      where
        step :
            (n : ℕ)
            → poll (suc n) (flushing (free w) buf written)
              ≡ poll n (writing written (io.write w (drop written buf)))
        step n = rw (flush_buf_poll, lt→leb (length buf) written l) refl

    -- The write that ends the whole future.
    ends :
        (w : W) (written : ℕ) (res : Result ℕ E) (g : F) (e : E)
        → written < length buf
        → Completes io.poll (io.write w (drop written buf)) res g
        → ((rest : FlushBuf W F → FlushStep errors io)
            → after_write errors io rest (io.release g) buf written res
              ≡ failed errors io (io.release g) buf written e)
        → errors.is_interrupted e ≡ false
        → output (io.release g) ≡ output w
        → Reaches w buf written (flushing (free w) buf written)
    unfolding Reaches Flushes flush_buf_poll kept
    ends w written res g e l c h i o = (
      err e,
      (
        flushing (free (io.release g)) (kept written buf) written,
        (
          begin written l (
              drive_end io.poll poll (writing written) (onward written) (λ n f. refl) c
                (λ n. h (poll n))),
          (
            i,
            (
              0,
              (
                o ∙ sym (append-nil (output w)),
                kept-drop written buf ∙ ap (λ n. drop n buf) (omega arith),
              ),
            ),
          ),
        ),
      ),
    )

    -- The writer goes on behind the first `k` bytes of the rest.
    goes_on :
        (w : W) (written k : ℕ) (res : Result ℕ E) (g : F)
        → written < length buf
        → Completes io.poll (io.write w (drop written buf)) res g
        → output (io.release g) ≡ output w ++ take k (drop written buf)
        → ((rest : FlushBuf W F → FlushStep errors io)
            → after_write errors io rest (io.release g) buf written res
              ≡ next_write errors io rest (io.release g) buf (written + k))
        → Reaches
            (io.release g)
            buf
            (written + k)
            (flushing (free (io.release g)) buf (written + k))
        → Reaches w buf written (flushing (free w) buf written)
    unfolding Reaches flush_buf_poll
    goes_on w written k res g l c o h (r, (u, (d, f))) = (
      r,
      (
        u,
        (
          begin written l (
              drive_round io.poll poll (writing written) (onward written) (λ n f. refl) c
                (λ n. h (poll n)) d),
          Flushes-take w (io.release g) buf written k r u o f,
        ),
      ),
    )

    -- One write, when fewer bytes and more patient writers are dealt with.
    answered :
        (w : W) (written : ℕ) (res : Result ℕ E) (g : F)
        → written < length buf
        → length buf < usize_limit
        → Completes io.poll (io.write w (drop written buf)) res g
        → Answer errors output patience w (drop written buf) res (io.release g)
        → ((v : W) (k : ℕ)
            → 0 < k
            → written + k ≤ length buf
            → Reaches v buf (written + k) (flushing (free v) buf (written + k)))
        → ((v : W)
            → patience v < patience w
            → Reaches v buf written (flushing (free v) buf written))
        → Reaches w buf written (flushing (free w) buf written)
    answered w written (ok zero) g l s c a more again =
        ends w written (ok zero) g errors.write_zero l c (λ rest. refl) errors.write_zero-other
          (a.1 ∙ append-nil (output w))
    answered w written (ok (suc k)) g l s c a more again =
        goes_on w written (suc k) (ok (suc k)) g l c a.1
          (λ rest. ap (next_write errors io rest (io.release g) buf) small)
          (more (io.release g) (suc k) (omega arith) fits)
      where
        fits : written + suc k ≤ length buf
        fits = omega (arith, a.0, length-drop written buf, l)

        small : (written + suc k) % usize_limit ≡ written + suc k
        small = omega (arith, fits, s)
    answered w written (err e) g l s c a more again = elim (Bool-cases (errors.is_interrupted e)) [
      | inl i ↦
          goes_on w written 0 (err e) g l c (a.0 ∙ sym (append-nil (output w)))
            (λ rest. rw i (ap (next_write errors io rest (io.release g) buf) (omega arith)))
            (subst (λ n. Reaches (io.release g) buf n (flushing (free (io.release g)) buf n))
              (omega arith) (again (io.release g) (resolve (errors.is_interrupted e) i a.1)))
      | inr i ↦ ends w written (err e) g e l c (λ rest. rw i refl) i a.0
    ]

    -- All is written.
    full :
        (w : W) (written : ℕ)
        → length buf ≤ written
        → Reaches w buf written (flushing (free w) buf written)
    unfolding Reaches Flushes flush_buf_poll
    full w written l = (
      ok tt,
      (
        flushed w,
        (
          Completes.done (
              PollsTo-suc poll _ _ 0
                (λ n h. rw (flush_buf_poll, le→leb (length buf) written l) refl)),
          sym (ap (output w ++◌) (drop_all written buf l) ∙ append-nil (output w)),
        ),
      ),
    )
      where
        drop_all : (n : ℕ) (xs : List ℕ) → length xs ≤ n → drop n xs ≡ []
        drop_all zero [] h = refl
        drop_all zero (x ∷ xs) h = absurd (omega (arith, h))
        drop_all (suc n) [] h = refl
        drop_all (suc n) (x ∷ xs) h = drop_all n xs (omega (arith, h))

    bounded :
        (l p : ℕ) (w : W) (written : ℕ)
        → length buf - written ≤ l
        → patience w < p
        → written ≤ length buf
        → length buf < usize_limit
        → Reaches w buf written (flushing (free w) buf written)
    bounded zero p w written hl hp h s = full w written (omega (arith, hl))
    bounded (suc l) zero w written hl hp h s = absurd (omega (arith, hp))
    bounded (suc l) (suc p) w written hl hp h s = elim (Bool-cases (leb (length buf) written)) [
      | inl e ↦ full w written (leb→le (length buf) written e)
      | inr e ↦
          let (res, g, c, a) = contract w (drop written buf) in
          answered w written res g (leb→gt (length buf) written e) s c a
            (λ v k k_pos fits.
              bounded l (suc (patience v)) v (written + k) (omega (arith, hl, k_pos)) (omega arith)
                fits s)
            (λ v q. bounded (suc l) p v written hl (omega (arith, q, hp)) h s)
    ]

  pub flush_buf-Flushes :
      (w : W) (buf : List ℕ)
      → length buf < usize_limit
      → (r : Result (Unit {0}) E) × ((u : FlushBuf W F) × (Completes poll
              (flushing (free w) buf 0)
              r
              u
            × Flushes w buf 0 r u))
  unfolding Reaches
  flush_buf-Flushes w buf s =
      bounded buf (length buf) (suc (patience w)) w 0 (omega arith) (omega arith) (omega arith) s
