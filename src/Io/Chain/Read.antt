-- ===== src/Io/Chain/Read.antt =====
-- A `Chain` of two readers that keep the contract of a reader keeps it.
use completion.Common.{
  take-append, drop-append, ℕ, zero, suc, ◌+◌, ◌-◌, ◌≤◌, ◌<◌, ◌≡◌, ◌⊎◌, refl, ap, sym, ◌∙◌, subst,
  inl, inr, Bool, true, false, List, [], ◌++◌, length, take, drop, ltb, lt→ltb, ◌==◌, if◌then◌else◌,
  arith, Result, ok, err, length-append, length-take,
}
use completion.Poll.{ready, returned}
use completion.Poll.Drive.{drive_end, drive_round, map_state-ready_then}
use completion.Poll.Machine.{Completes}
use completion.Io.Base.{Errors, AsyncRead}
use completion.Io.ReadBuf.{ReadBuf, capacity, remaining}
use completion.Io.ReadBuf.Valid.{IsValid}
use completion.Io.Reader.{
  Extends, Extends-trans, Extends-refl, Moved, Answer, IsReader, filled-Extends,
}
use completion.Io.Chain.{
  Chain, ReadChain, reading_first, reading_second, temporary, read, read_poll, release, release_buf,
  after_first, Step,
}

module _ {T U F G E : Type 0} (errors : Errors E) (one : AsyncRead T F E) (two : AsyncRead U G E)
    (bytes₁ : T → List ℕ) (patience₁ : T → ℕ) (bytes₂ : U → List ℕ) (patience₂ : U → ℕ)
    (contract₁ : IsReader errors bytes₁ patience₁ one)
    (contract₂ : IsReader errors bytes₂ patience₂ two) where
  -- What a `Chain` has yet to give.
  abbrev pub stream : Chain T U → List ℕ
  stream c = bytes₁ c.first ++ bytes₂ c.second

  abbrev pub stream_patience : Chain T U → ℕ
  stream_patience c =
      if c.done_first then patience₂ c.second else patience₁ c.first + patience₂ c.second

  -- The first reader is left only at its end.
  unfoldable pub IsChained : Chain T U → Type 0
  IsChained c = (c.done_first ≡ false) ⊎ (bytes₁ c.first ≡ [])

  module _ (c : Chain T U) (buf : ReadBuf) (valid : IsValid buf) (room : 0 < remaining buf) where
    -- From the state `t` a read by `c` into `buf` completes, and keeps the contract.
    Reads : ReadChain T U F G → Type 0
    Reads t =
        (res : Result (Unit {0}) E) × ((u : ReadChain T U F G) × (Completes (read_poll one two) t
              res u
            × Answer errors stream stream_patience c buf res (release one two u)
                (release_buf one two u)
            × IsChained (release one two u)))

    abbrev at_second : T → G → ReadChain T U F G
    at_second first g = reading_second first g

    -- The second reader reads, into a buffer to which the first one added nothing.
    seconds :
        (first : T) (b : ReadBuf)
        → bytes₁ first ≡ []
        → bytes₁ c.first ≡ []
        → Extends buf [] b
        → (patience₂ c.second ≤ stream_patience c)
        → Reads (reading_second first (two.read c.second b))
    unfolding Reads read_poll IsChained
    seconds first b e₁ e x p =
        let (res, g, d, a) = contract₂ c.second b x.is_valid more in
        (
          res,
          (
            at_second first g,
            (
              drive_end two.poll (read_poll one two) (at_second first)
                  (λ n res g. returned (ready res, at_second first g))
                  (λ n f. map_state-ready_then (at_second first) (two.poll n f)) d (λ n. refl),
              answer res g a,
              inr e₁,
            ),
          ),
        )
      where
        more : 0 < remaining b
        more = omega (arith, filled-Extends valid x, x.same_capacity, room)

        inner : stream c ≡ bytes₂ c.second
        inner = ap (◌++ bytes₂ c.second) e

        moved :
            (k : ℕ) (g : G)
            → Moved errors bytes₂ patience₂ c.second b k (two.release g) (two.release_buf g)
            → Moved errors stream stream_patience c buf k
                (release one two (at_second first g))
                (two.release_buf g)
        moved k g (l, y, q) = (
          subst (λ l. k ≤ length l) (sym inner) l,
          subst (λ l. Extends buf (take k l) (two.release_buf g)) (sym inner) (Extends-trans x y),
          ap (◌++ bytes₂ (two.release g)) e₁ ∙ q ∙ ap (drop k) (sym inner),
        )

        answer :
            (res : Result (Unit {0}) E) (g : G)
            → Answer errors bytes₂ patience₂ c.second b res (two.release g) (two.release_buf g)
            → Answer errors stream stream_patience c buf res
                (release one two (at_second first g))
                (two.release_buf g)
        answer (ok u) g (k, m, inl l) = (k, moved k g m, inl l)
        answer (ok u) g (k, m, inr q) = (k, moved k g m, inr (inner ∙ q))
        answer (err e) g (m, inl q) = (moved 0 g m, inl q)
        answer (err e) g (m, inr q) = (moved 0 g m, inr (omega (arith, q, p)))

    -- The first reader reads, and the second one if nothing has come.
    module _ (undone : c.done_first ≡ false) where
      patience_lem : stream_patience c ≡ patience₁ c.first + patience₂ c.second
      patience_lem = rw undone refl

      at_first : F → ReadChain T U F G
      at_first f = reading_first f c.second buf.filled

      moved :
          (k : ℕ) (g : F)
          → Moved errors bytes₁ patience₁ c.first buf k (one.release g) (one.release_buf g)
          → Moved errors stream stream_patience c buf k
              (record { first = one.release g; second = c.second; done_first = false })
              (one.release_buf g)
      moved k g (l, x, e) = (
        omega (arith, l, length-append (bytes₁ c.first) (bytes₂ c.second)),
        subst (λ l. Extends buf l (one.release_buf g))
            (sym (take-append k (bytes₁ c.first) (bytes₂ c.second) l)) x,
        ap (◌++ bytes₂ c.second) e ∙ sym (drop-append k (bytes₁ c.first) (bytes₂ c.second) l),
      )

      firsts : Reads (at_first (one.read c.first buf))
      unfolding Reads read_poll IsChained at_first
      firsts = let (res, g, d, a) = contract₁ c.first buf valid room in go res g d a
        where
          onward : ℕ → Result (Unit {0}) E → F → Step one two
          onward n = after_first one two n c.second buf.filled

          go :
              (res : Result (Unit {0}) E) (g : F)
              → Completes one.poll (one.read c.first buf) res g
              → Answer errors bytes₁ patience₁ c.first buf res (one.release g) (one.release_buf g)
              → Reads (at_first (one.read c.first buf))
          go (ok x) g d (suc k, m, q) = (
            ok tt,
            (
              temporary (one.release g) c.second (one.release_buf g),
              (
                drive_end one.poll (read_poll one two) at_first onward (λ n f. refl) d
                    (λ n. rw (lt→ltb buf.filled ((one.release_buf g).filled) grown) refl),
                (suc k, moved (suc k) g m, inl (omega arith)),
                inl refl,
              ),
            ),
          )
            where
              grown : buf.filled < (one.release_buf g).filled
              grown =
                  omega (arith, filled-Extends valid m.1, length-take (suc k) (bytes₁ c.first), m.0)
          go (ok x) g d (zero, m, inl l) = absurd (omega (arith, l))
          go (ok x) g d (zero, m, inr e) =
              let (res, (u, (d', a', i'))) =
                seconds (one.release g) (one.release_buf g) (m.2 ∙ e) e m.1
                  (omega (arith, patience_lem)) in
              (
                res,
                (
                  u,
                  (
                    drive_round one.poll (read_poll one two) at_first onward (λ n f. refl) d
                        (λ n. rw (same_filled, not_full) refl) d',
                    a',
                    i',
                  ),
                ),
              )
            where
              filled : (one.release_buf g).filled ≡ buf.filled + 0
              filled = filled-Extends valid m.1

              same_filled : ltb buf.filled ((one.release_buf g).filled) ≡ false
              same_filled = not_lt (omega (arith, filled))
                where
                  not_lt : {a b : ℕ} → b ≤ a → ltb a b ≡ false
                  not_lt l = ground arith

              not_full : (capacity (one.release_buf g) - buf.filled == 0) ≡ false
              not_full = ne (omega (arith, filled, m.1.same_capacity, room))
                where
                  ne : {a : ℕ} → 0 < a → (a == 0) ≡ false
                  ne l = ground arith
          go (err e) g d (m, q) = (
            err e,
            (
              at_first g,
              (
                drive_end one.poll (read_poll one two) at_first onward (λ n f. refl) d (λ n. refl),
                (moved 0 g m, patient q),
                inl refl,
              ),
            ),
          )
            where
              patient :
                  (errors.is_interrupted e ≡ false)
                    ⊎ (patience₁ (one.release g) < patience₁ c.first)
                  → (errors.is_interrupted e ≡ false)
                    ⊎ (patience₁ (one.release g) + patience₂ c.second < stream_patience c)
              patient (inl h) = inl h
              patient (inr h) = inr (omega (arith, h, patience_lem))

    reads : IsChained c → Reads (read one two c buf)
    unfolding read IsChained at_first
    reads v = chosen c.done_first refl
      where
        second_patience : c.done_first ≡ true → patience₂ c.second ≤ stream_patience c
        second_patience e = rw e (omega arith)

        at_end :
            c.done_first ≡ true
            → (c.done_first ≡ false) ⊎ (bytes₁ c.first ≡ [])
            → bytes₁ c.first ≡ []
        at_end e (inl h) = absurd (cc)
        at_end e (inr h) = h

        chosen :
            (b : Bool)
            → c.done_first ≡ b
            → Reads (
                if b
                then reading_second c.first (two.read c.second buf)
                else reading_first (one.read c.first buf) c.second buf.filled)
        chosen true e =
            seconds c.first buf (at_end e v) (at_end e v) (Extends-refl valid) (second_patience e)
        chosen false e = firsts e

  -- Over two readers that keep the contract of `AsyncRead`, a `Chain` keeps it too, where the bytes it has
  -- yet to give are those of the first reader and then those of the second: `read` into a valid
  -- buffer that is not full completes, it appends the first of these bytes, at least one unless
  -- none are left, or gives an error and takes none. The first reader is left only at its end,
  -- before and after.
  pub read_chain-Answer :
      (c : Chain T U) (buf : ReadBuf)
      → IsChained c
      → IsValid buf
      → 0 < remaining buf
      → (res : Result (Unit {0}) E) × ((t : ReadChain T U F G) × (Completes
              (read_poll one two)
              (read one two c buf)
              res
              t
            × Answer errors stream stream_patience c buf res
                (release one two t)
                (release_buf one two t)
            × IsChained (release one two t)))
  unfolding Reads
  read_chain-Answer c buf v valid room = reads c buf valid room v
