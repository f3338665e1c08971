-- ===== src/Io/ReadExact/Contents.antt =====
-- What `read_exact` puts into the buffer, on a reader that keeps the contract of `AsyncRead`.
use completion.Common.{
  ℕ, zero, suc, ◌+◌, ◌≤◌, ◌<◌, ◌≡◌, inl, inr, refl, ap, sym, ◌∙◌, subst, false, List, length, arith,
  Result, ok, err, Bool-cases, resolve, length-take, gt→ne, zero-cases, ne→neb, eq→eqb,
}
use completion.Poll.{ready, returned}
use completion.Poll.Drive.{drive_end, drive_round}
use completion.Poll.Machine.{Machine, PollsTo-suc, Completes, Completes-of_polls}
use completion.Io.Base.{Errors, AsyncRead, lent}
use completion.Io.ReadBuf.{ReadBuf, remaining}
use completion.Io.ReadBuf.Valid.{IsValid}
use completion.Io.Reader.{
  Extends, filled-Extends, Extends-refl, Moved, Moved-trans, Answer, IsReader,
}
use completion.Io.ReadExact.{ReadExact, Step, new, start, finish, idle, read_exact_poll, read_exact}

module _ {R E : Type 0} (errors : Errors E) (bytes : R → List ℕ) (patience : R → ℕ) where
  -- The buffer is full, or the future failed with an error that is not an interruption.
  abbrev pub Outcome : R → ReadBuf → Result (Unit {0}) E → R → ReadBuf → Type 0
  Outcome r b (ok _) r' c = Moved errors bytes patience r b (remaining b) r' c × (remaining c ≡ 0)
  Outcome r b (err e) r' c =
      (k : ℕ) × Moved errors bytes patience r b k r' c × (errors.is_interrupted e ≡ false)

module _ {R F E : Type 0} (errors : Errors E) (io : AsyncRead R F E) where
  abbrev poll : Machine (ReadExact R F) (Result (Unit {0}) E)
  poll = read_exact_poll errors io

  abbrev lent_at : ℕ → F → ReadExact R F
  lent_at p f = record { source = lent f; previous_filled = p }

  -- The read that ends the whole future.
  drive_done :
      {f g : F} (p : ℕ) {res : Result (Unit {0}) E} {r : Result (Unit {0}) E} {t : ReadExact R F}
      → Completes io.poll f res g
      → ((n : ℕ)
          → finish errors io (poll n) (io.release g) (io.release_buf g) p res
            ≡ returned (ready r, t))
      → Completes poll (lent_at p f) r t
  unfolding read_exact_poll
  drive_done p c h =
      drive_end io.poll poll (lent_at p)
        (λ n res g. finish errors io (poll n) (io.release g) (io.release_buf g) p res) (λ n f. refl)
        c h

  -- A read after which the future goes on.
  drive_on :
      {f g : F} (p : ℕ) {res : Result (Unit {0}) E} {r : Result (Unit {0}) E} {t : ReadExact R F}
      → Completes io.poll f res g
      → ((n : ℕ)
          → finish errors io (poll n) (io.release g) (io.release_buf g) p res
            ≡ start errors io (poll n) (io.release g) (io.release_buf g) p)
      → Completes poll (idle errors io (io.release g) (io.release_buf g) p) r t
      → Completes poll (lent_at p f) r t
  unfolding read_exact_poll
  drive_on p c h d =
      drive_round io.poll poll (lent_at p)
        (λ n res g. finish errors io (poll n) (io.release g) (io.release_buf g) p res) (λ n f. refl)
        c h d

  -- A first poll begins the first read.
  begin :
      {reader : R} {b : ReadBuf} {r : Result (Unit {0}) E} {t : ReadExact R F} (p : ℕ)
      → 0 < remaining b
      → Completes poll (lent_at b.filled (io.read reader b)) r t
      → Completes poll (idle errors io reader b p) r t
  unfolding read_exact_poll
  begin {reader} {b} p h c =
      Completes-of_polls
        (λ r q. PollsTo-suc poll _ _ q.0 (λ n l. rw (gt→ne (remaining b) h) (q.1 n l))) c

remaining-Extends :
    {b c : ReadBuf} {xs : List ℕ}
    → IsValid b
    → Extends b xs c
    → remaining b ≡ length xs + remaining c
remaining-Extends v x =
    omega (arith, filled-Extends v x, x.same_capacity, x.is_valid.ordered, x.is_valid.fits)

module _ {R F E : Type 0} (errors : Errors E) (io : AsyncRead R F E) (bytes : R → List ℕ)
    (patience : R → ℕ) (contract : IsReader errors bytes patience io) where
  -- From the state `t` the future completes with an outcome of filling `b` from `r`.
  Reaches : R → ReadBuf → ReadExact R F → Type 0
  Reaches r b t =
      (res : Result (Unit {0}) E) × (r' : R) × (c : ReadBuf) × (p : ℕ) × Completes
        (read_exact errors io).poll t res (idle errors io r' c p)
      × Outcome errors bytes patience r b res r' c

  length-Moved :
      (r q : R) (b c : ReadBuf) (k : ℕ)
      → IsValid b
      → Moved errors bytes patience r b k q c
      → remaining b ≡ k + remaining c
  length-Moved r q b c k v (l, x, e) =
      remaining-Extends v x ∙ ap (◌+ remaining c) (length-take k (bytes r) ∙ omega arith)

  Outcome-Moved :
      (r q s : R) (b c d : ReadBuf) (k : ℕ) (res : Result (Unit {0}) E)
      → IsValid b
      → Moved errors bytes patience r b k q c
      → Outcome errors bytes patience q c res s d
      → Outcome errors bytes patience r b res s d
  Outcome-Moved r q s b c d k (ok u) v m (n, z) = (
    subst (λ j. Moved errors bytes patience r b j s d) (sym (length-Moved r q b c k v m))
        (Moved-trans errors bytes patience r q s b c d k (remaining c) m n),
    z,
  )
  Outcome-Moved r q s b c d k (err e) v m (j, n, i) =
      (k + j, Moved-trans errors bytes patience r q s b c d k j m n, i)

  -- The future goes on after a read that moved `k` bytes.
  goes_on :
      (r : R) (b : ReadBuf) (k p : ℕ) (res : Result (Unit {0}) E) (g : F)
      → IsValid b
      → 0 < remaining b
      → Completes io.poll (io.read r b) res g
      → Moved errors bytes patience r b k (io.release g) (io.release_buf g)
      → ((rest : ReadExact R F → Step errors io)
          → finish errors io rest (io.release g) (io.release_buf g) b.filled res
            ≡ start errors io rest (io.release g) (io.release_buf g) b.filled)
      → Reaches
          (io.release g)
          (io.release_buf g)
          (idle errors io (io.release g) (io.release_buf g) b.filled)
      → Reaches r b (idle errors io r b p)
  unfolding Reaches read_exact
  goes_on r b k p res g v h c m e (a, s, d, p', z, o) = (
    a,
    s,
    d,
    p',
    begin errors io p h (drive_on errors io b.filled c (λ n. e (read_exact_poll errors io n)) z),
    Outcome-Moved r (io.release g) s b (io.release_buf g) d k a v m o,
  )

  -- One read, when fuller buffers and more patient readers are dealt with.
  answered :
      (r : R) (b : ReadBuf) (p : ℕ) (res : Result (Unit {0}) E) (g : F)
      → IsValid b
      → 0 < remaining b
      → Completes io.poll (io.read r b) res g
      → Answer errors bytes patience r b res (io.release g) (io.release_buf g)
      → ((q : R) (c : ReadBuf) (j : ℕ)
          → IsValid c
          → remaining c < remaining b
          → Reaches q c (idle errors io q c j))
      → ((q : R) (c : ReadBuf) (j : ℕ)
          → IsValid c
          → remaining c ≡ remaining b
          → patience q < patience r
          → Reaches q c (idle errors io q c j))
      → Reaches r b (idle errors io r b p)
  unfolding Reaches read_exact
  answered r b p (ok u) g v h c (zero, m, a) more again = (
    err errors.unexpected_eof,
    io.release g,
    io.release_buf g,
    b.filled,
    begin errors io p h (
        drive_done errors io b.filled c (λ n.
          rw (eq→eqb (io.release_buf g).filled b.filled (filled-Extends v m.1 ∙ omega arith))
            refl)),
    (0, m, errors.unexpected_eof-other),
  )
  answered r b p (ok u) g v h c (suc k, m, a) more again =
      goes_on r b (suc k) p (ok u) g v h c m
        (λ rest.
          rw
            (ne→neb (io.release_buf g).filled b.filled
              (omega (arith, filled-Extends v m.1, length-take (suc k) (bytes r), m.0)))
            refl)
        (more (io.release g) (io.release_buf g) b.filled m.1.is_valid
          (omega (arith, length-Moved r (io.release g) b (io.release_buf g) (suc k) v m)))
  answered r b p (err e) g v h c (m, a) more again = elim (Bool-cases (errors.is_interrupted e)) [
    | inl i ↦
        goes_on r b 0 p (err e) g v h c m (λ rest. rw i refl)
          (again (io.release g) (io.release_buf g) b.filled m.1.is_valid
            (omega (arith, length-Moved r (io.release g) b (io.release_buf g) 0 v m))
            (resolve (errors.is_interrupted e) i a))
    | inr i ↦ (
      err e,
      io.release g,
      io.release_buf g,
      b.filled,
      begin errors io p h (drive_done errors io b.filled c (λ n. rw i refl)),
      (0, m, i),
    )
  ]

  full :
      (r : R) (b : ReadBuf) (p : ℕ)
      → IsValid b
      → remaining b ≡ 0
      → Reaches r b (idle errors io r b p)
  unfolding Reaches read_exact read_exact_poll
  full r b p v e = (
    ok tt,
    r,
    b,
    p,
    Completes.done
        (PollsTo-suc (read_exact_poll errors io) _ _ 0 (λ n h. rw (eq→eqb (remaining b) 0 e) refl)),
    (
      subst (λ k. Moved errors bytes patience r b k r b) (sym e)
          (omega arith, Extends-refl v, refl),
      e,
    ),
  )

  bounded :
      (l m : ℕ) (r : R) (b : ReadBuf) (p : ℕ)
      → IsValid b
      → remaining b ≤ l
      → patience r < m
      → Reaches r b (idle errors io r b p)
  bounded zero m r b p v hl hm = full r b p v (omega arith)
  bounded (suc l) zero r b p v hl hm = absurd (omega arith)
  bounded (suc l) (suc m) r b p v hl hm =
      let fewer : (q : R) (c : ReadBuf) (j : ℕ)
          → IsValid c
          → remaining c < remaining b
          → Reaches q c (idle errors io q c j) =
        λ q c j w h. bounded l (suc (patience q)) q c j w (omega arith) (omega arith) in
      let again : (q : R) (c : ReadBuf) (j : ℕ)
          → IsValid c
          → remaining c ≡ remaining b
          → patience q < patience r
          → Reaches q c (idle errors io q c j) =
        λ q c j w e h. bounded (suc l) m q c j w (omega arith) (omega arith) in
      elim (zero-cases (remaining b)) [
        | inl e ↦ full r b p v e
        | inr h ↦
            (let (res, g, c, a) = contract r b v h in answered r b p res g v h c a fewer again)
      ]

  -- On a reader that keeps its contract, and with a valid buffer, `read_exact` completes: the
  -- next bytes of the reader lie behind the filled part and the buffer is full, or some of them
  -- lie there and there is an error that is not an interruption; the reader goes on behind them.
  pub read_exact-Completes :
      (r : R) (b : ReadBuf)
      → IsValid b
      → (res : Result (Unit {0}) E) × (r' : R) × (c : ReadBuf) × (p : ℕ) × Completes
          (read_exact errors io).poll
          (new errors io r b)
          res
          (idle errors io r' c p)
        × Outcome errors bytes patience r b res r' c
  unfolding Reaches
  read_exact-Completes r b v =
      bounded (remaining b) (suc (patience r)) r b 0 v (omega arith) (omega arith)
