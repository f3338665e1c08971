-- ===== src/Io/WriteAll/Output.antt =====
-- What `write_all` puts out, on a writer that keeps the contract of `AsyncWrite`.
use completion.Common.{
  ◌⊎◌, ℕ, zero, suc, ◌+◌, ◌≤◌, ◌<◌, ◌≡◌, refl, ap, sym, ◌∙◌, inl, inr, false, List, [], ◌∷◌, ◌++◌,
  length, take, drop, le→leb, arith, Result, ok, err, Bool-cases, resolve, append-nil, append_assoc,
  take-append-drop, take_add, length-drop,
}
use completion.Poll.{ready, returned}
use completion.Poll.Drive.{drive_end, drive_round}
use completion.Poll.Machine.{Machine, PollsTo-suc, Completes, Completes-of_polls}
use completion.Io.Base.{Errors, AsyncWrite, free, lent}
use completion.Io.WriteAll.{WriteAll, Step, new, start, finish, write_all_poll, write_all}

-- What a write of `bs` by the writer `w` may come to: it puts out the first bytes, at least one of
-- them, or nothing; and it is not interrupted for ever.
module _ {W E : Type 0} (errors : Errors E) (output : W → List ℕ) (patience : W → ℕ) where
  abbrev pub Answer : W → List ℕ → Result ℕ E → W → Type 0
  Answer w bs (ok k) w' = (k ≤ length bs) × (output w' ≡ output w ++ take k bs)
  Answer w bs (err e) w' =
      (output w' ≡ output w) × ((errors.is_interrupted e ≡ false) ⊎ (patience w' < patience w))

  -- All of `bs` is put out, or the first bytes, followed by an error that is not an interruption.
  abbrev pub Outcome : W → List ℕ → Result (Unit {0}) E → W → Type 0
  Outcome w bs (ok _) w' = output w' ≡ output w ++ bs
  Outcome w bs (err e) w' =
      (errors.is_interrupted e ≡ false) × (k : ℕ) × (output w' ≡ output w ++ take k bs)

module _ {W F E : Type 0} (errors : Errors E) (io : AsyncWrite W F E) where
  module _ (output : W → List ℕ) (patience : W → ℕ) where
    -- Every write completes, and keeps the contract.
    abbrev pub IsWriter : Type 0
    IsWriter =
        (w : W) (bs : List ℕ)
        → (res : Result ℕ E) × (g : F) × Completes io.poll (io.write w bs) res g
          × Answer errors output patience w bs res (io.release g)

  abbrev poll : Machine (WriteAll W F) (Result (Unit {0}) E)
  poll = write_all_poll errors io

  abbrev lent_at : List ℕ → F → WriteAll W F
  lent_at bs f = record { writer = lent f; buf = bs }

  -- The write that ends the whole future.
  drive_done :
      {f g : F} (bs : List ℕ) {res : Result ℕ E} {r : Result (Unit {0}) E} {t : WriteAll W F}
      → Completes io.poll f res g
      → ((n : ℕ) → finish errors io (poll n) (io.release g) bs res ≡ returned (ready r, t))
      → Completes poll (lent_at bs f) r t
  unfolding write_all_poll
  drive_done bs c h =
      drive_end io.poll poll (lent_at bs)
        (λ n res g. finish errors io (poll n) (io.release g) bs res) (λ n f. refl) c h

  -- A write after which the writer goes on with the bytes `cs`.
  drive_on :
      {f g : F} (bs cs : List ℕ) {res : Result ℕ E} {r : Result (Unit {0}) E} {t : WriteAll W F}
      → Completes io.poll f res g
      → ((n : ℕ)
          → finish errors io (poll n) (io.release g) bs res
            ≡ start errors io (poll n) (io.release g) cs)
      → Completes poll (new errors io (io.release g) cs) r t
      → Completes poll (lent_at bs f) r t
  unfolding write_all_poll
  drive_on bs cs c h d =
      drive_round io.poll poll (lent_at bs)
        (λ n res g. finish errors io (poll n) (io.release g) bs res) (λ n f. refl) c h d

  -- A first poll begins the first write.
  begin :
      {w : W} {b : ℕ} {bs : List ℕ} {r : Result (Unit {0}) E} {t : WriteAll W F}
      → Completes poll (lent_at (b ∷ bs) (io.write w (b ∷ bs))) r t
      → Completes poll (new errors io w (b ∷ bs)) r t
  unfolding write_all_poll
  begin c = Completes-of_polls (λ r q. PollsTo-suc poll _ _ q.0 q.1) c

module _ {W F E : Type 0} (errors : Errors E) (io : AsyncWrite W F E) (output : W → List ℕ)
    (patience : W → ℕ) (contract : IsWriter errors io output patience) where
  -- From the state `t` the future completes with an outcome of writing `bs` with `w`.
  Reaches : W → List ℕ → WriteAll W F → Type 0
  Reaches w bs t =
      (r : Result (Unit {0}) E) × (w' : W) × (rest : List ℕ) × Completes (write_all errors io).poll
        t r (record { writer = free w'; buf = rest })
      × Outcome errors output patience w bs r w'

  -- What is written after a part of the bytes is written behind it.
  Outcome-take :
      (w v w' : W) (bs : List ℕ) (k : ℕ) (r : Result (Unit {0}) E)
      → output v ≡ output w ++ take k bs
      → Outcome errors output patience v (drop k bs) r w'
      → Outcome errors output patience w bs r w'
  Outcome-take w v w' bs k (ok u) e h =
      h
      ∙ ap (◌++ drop k bs) e
      ∙ append_assoc (output w) (take k bs) (drop k bs)
      ∙ ap (output w ++◌) (take-append-drop k bs)
  Outcome-take w v w' bs k (err x) e (i, m, h) = (
    i,
    k + m,
    h
        ∙ ap (◌++ take m (drop k bs)) e
        ∙ append_assoc (output w) (take k bs) (take m (drop k bs))
        ∙ ap (output w ++◌) (sym (take_add k m bs)),
  )

  -- The writer goes on with the bytes behind the first `k`.
  goes_on :
      (w : W) (b : ℕ) (bs : List ℕ) (k : ℕ) (res : Result ℕ E) (g : F)
      → Completes io.poll (io.write w (b ∷ bs)) res g
      → output (io.release g) ≡ output w ++ take k (b ∷ bs)
      → ((rest : WriteAll W F → Step errors io)
          → finish errors io rest (io.release g) (b ∷ bs) res
            ≡ start errors io rest (io.release g) (drop k (b ∷ bs)))
      → Reaches (io.release g) (drop k (b ∷ bs)) (new errors io (io.release g) (drop k (b ∷ bs)))
      → Reaches w (b ∷ bs) (new errors io w (b ∷ bs))
  unfolding Reaches write_all
  goes_on w b bs k res g c e h (r, w', rest, d, o) = (
    r,
    w',
    rest,
    begin errors io
        (drive_on errors io (b ∷ bs) (drop k (b ∷ bs)) c (λ n. h (write_all_poll errors io n)) d),
    Outcome-take w (io.release g) w' (b ∷ bs) k r e o,
  )

  -- One write, when fewer bytes and more patient writers are dealt with.
  answered :
      (w : W) (b : ℕ) (bs : List ℕ) (res : Result ℕ E) (g : F)
      → Completes io.poll (io.write w (b ∷ bs)) res g
      → Answer errors output patience w (b ∷ bs) res (io.release g)
      → ((v : W) (cs : List ℕ) → length cs ≤ length bs → Reaches v cs (new errors io v cs))
      → ((v : W) → patience v < patience w → Reaches v (b ∷ bs) (new errors io v (b ∷ bs)))
      → Reaches w (b ∷ bs) (new errors io w (b ∷ bs))
  unfolding Reaches write_all
  answered w b bs (ok zero) g c a more again = (
    err errors.write_zero,
    io.release g,
    b ∷ bs,
    begin errors io (drive_done errors io (b ∷ bs) c (λ n. refl)),
    (errors.write_zero-other, 0, a.1),
  )
  answered w b bs (ok (suc k)) g c a more again =
      goes_on w b bs (suc k) (ok (suc k)) g c a.1
        (λ rest. rw (le→leb (suc k) (length (b ∷ bs)) a.0) refl)
        (more (io.release g) (drop k bs) (omega (arith, length-drop k bs)))
  answered w b bs (err e) g c a more again = elim (Bool-cases (errors.is_interrupted e)) [
    | inl i ↦
        goes_on w b bs 0 (err e) g c (a.0 ∙ sym (append-nil (output w))) (λ rest. rw i refl)
          (again (io.release g) (resolve (errors.is_interrupted e) i a.1))
    | inr i ↦ (
      err e,
      io.release g,
      b ∷ bs,
      begin errors io (drive_done errors io (b ∷ bs) c (λ n. rw i refl)),
      (i, 0, a.0 ∙ sym (append-nil (output w))),
    )
  ]

  bounded :
      (l p : ℕ) (w : W) (bs : List ℕ)
      → length bs ≤ l
      → patience w < p
      → Reaches w bs (new errors io w bs)
  unfolding Reaches write_all write_all_poll
  bounded l p w [] hl hp = (
    ok tt,
    w,
    [],
    Completes.done (PollsTo-suc (write_all_poll errors io) _ _ 0 (λ n h. refl)),
    sym (append-nil (output w)),
  )
  bounded zero p w (b ∷ bs) hl hp = absurd (omega arith)
  bounded (suc l) zero w (b ∷ bs) hl hp = absurd (omega arith)
  bounded (suc l) (suc p) w (b ∷ bs) hl hp =
      let (res, g, c, a) = contract w (b ∷ bs) in
      answered w b bs res g c a
        (λ v cs h. bounded l (suc (patience v)) v cs (omega arith) (omega arith))
        (λ v h. bounded (suc l) p v (b ∷ bs) hl (omega arith))

  -- On a writer that keeps its contract `write_all` completes: all of the buffer is put out
  -- behind what the writer had put out, or the first bytes of it are, followed by an error that
  -- is not an interruption.
  pub write_all-Completes :
      (w : W) (bs : List ℕ)
      → (r : Result (Unit {0}) E) × (w' : W) × (rest : List ℕ) × Completes
          (write_all errors io).poll
          (new errors io w bs)
          r
          (record { writer = free w'; buf = rest })
        × Outcome errors output patience w bs r w'
  unfolding Reaches
  write_all-Completes w bs = bounded (length bs) (suc (patience w)) w bs (omega arith) (omega arith)
