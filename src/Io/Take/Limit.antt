-- ===== src/Io/Take/Limit.antt =====
-- Reads through `Take` stay within the limit.
use completion.Common.{
  ℕ, ◌+◌, ◌≤◌, ◌<◌, ◌≡◌, ◌⊎◌, inl, inr, refl, ap, ◌∙◌, Bool, true, false, List, [], length, take,
  ltb, lt→ltb, ltb→lt, ltb→ge, zero-cases, gt→ne, eq→eqb, Bool-cases, arith, length-take, Result,
  ok, err,
}
use completion.Poll.{
  wrapping_sub, wrapping_sub-le, Run, out_of_fuel, panicked, returned, ready_then, usize_limit,
}
use completion.Poll.Machine.{Machine, Completes}
use completion.Io.Base.{Errors, AsyncRead, free, lent}
use completion.Io.ReadBuf.{ReadBuf, remaining}
use completion.Io.ReadBuf.Valid.{IsValid}
use completion.Io.Reader.{Extends, filled-Extends, Extends-refl, Moved, Answer, IsReader}
use completion.Io.Take.{Take, ReadTake, shorten, sync, read, poll_with, read_take}
use completion.Io.Take.Shorten.{ShortenResult, IsShort, shorten_lem}
use completion.Io.Take.Sync.{sync_lem}

module _ {R F E : Type 0} (errors : Errors E) (io : AsyncRead R F E) (bytes : R → List ℕ)
    (patience : R → ℕ) (contract : IsReader errors bytes patience io) where
  -- At most `limit` bytes went to the buffer, none only at the end, and the limit is lower by as many;
  -- or there was an error, and the limit is the same.
  abbrev pub Outcome : Take R → ReadBuf → Result (Unit {0}) E → ReadTake R F → Type 0
  Outcome t b (ok _) u =
      (k : ℕ) × (r' : R) × (u.source ≡ free r')
      × Moved errors bytes patience t.inner b k r' u.buf
      × (k + u.limit ≡ t.limit)
      × (((0 < k) ⊎ (bytes t.inner ≡ [])) ⊎ (t.limit ≡ 0))
  Outcome t b (err e) u = u.limit ≡ t.limit

  abbrev poll : Machine (ReadTake R F) (Result (Unit {0}) E)
  poll = poll_with io io.poll

  abbrev reading : ReadTake R F → F → ReadTake R F
  reading u f = record u { source = lent f }

  -- The inner future fails.
  drive_err :
      {f g : F} {e : E} (u : ReadTake R F)
      → Completes io.poll f (err e) g
      → Completes poll (reading u f) (err e) (reading u g)
  drive_err u (Completes.wait {u = h} p c) =
      Completes.wait {u = reading u h} (p.0, λ n l. rw (p.1 n l, ready_then)) (drive_err u c)
  drive_err u (Completes.done p) = Completes.done (p.0, λ n l. rw (p.1 n l, ready_then))

  abbrev synced : ReadTake R F → F → ReadBuf → ReadTake R F
  synced u g d = record {
    source = free (io.release g);
    short_buf = false;
    buf = d;
    initial_filled = u.initial_filled;
    limit = wrapping_sub u.limit (wrapping_sub d.filled u.initial_filled);
  }

  -- The inner future has read, and the buffers are brought together.
  drive_ok :
      {f g : F} {d : ReadBuf} (u : ReadTake R F)
      → Completes io.poll f (ok tt) g
      → sync u.short_buf u.buf u.initial_filled (io.release_buf g) ≡ returned d
      → Completes poll (reading u f) (ok tt) (synced u g d)
  drive_ok u (Completes.wait {u = h} p c) s =
      Completes.wait {u = reading u h} (p.0, λ n l. rw (p.1 n l, ready_then)) (drive_ok u c s)
  drive_ok u (Completes.done p) s =
      Completes.done (p.0, λ n l. rw (p.1 n l, ready_then) (rw s refl))

  module _ (t : Take R) (b : ReadBuf) (v : IsValid b) (small : t.limit < usize_limit) where
    -- From the state `u` the future completes with an outcome.
    Reaches : ReadTake R F → Type 0
    Reaches u =
        (res : Result (Unit {0}) E) × (w : ReadTake R F) × Completes poll u res w
        × Outcome t b res w

    abbrev begun : Bool → F → ReadTake R F
    begun short f = record {
      source = lent f;
      short_buf = short;
      buf = b;
      initial_filled = b.filled;
      limit = t.limit;
    }

    lower_limit :
        (d : ReadBuf) (k : ℕ)
        → k ≤ length (bytes t.inner)
        → Extends b (take k (bytes t.inner)) d
        → k ≤ t.limit
        → k + wrapping_sub t.limit (wrapping_sub d.filled b.filled) ≡ t.limit
    lower_limit d k h x l =
        let grown : d.filled ≡ b.filled + k =
          omega (arith, filled-Extends v x, h, length-take k (bytes t.inner)) in
        let e : wrapping_sub d.filled b.filled ≡ k =
          wrapping_sub-le d.filled b.filled (omega (arith, grown))
            (omega (arith, x.is_valid.ordered, x.is_valid.fits, x.is_valid.small))
          ∙ omega (arith, grown) in
        ap (λ m. k + wrapping_sub t.limit m) e
        ∙ ap (k +◌) (wrapping_sub-le t.limit k l small)
        ∙ omega arith

    through_short :
        (s : ReadBuf) (res : Result (Unit {0}) E) (g : F)
        → b.filled ≡ 0
        → t.limit < remaining b
        → IsShort b t.limit s
        → Completes io.poll (io.read t.inner s) res g
        → Answer errors bytes patience t.inner s res (io.release g) (io.release_buf g)
        → Reaches (begun true (io.read t.inner s))
    unfolding Reaches
    through_short s (err e) g z l i c a = (err e, begun true g, drive_err (begun true g) c, refl)
    through_short s (ok u) g z l i c (k, (h, x, e), why) =
        let (d, eq, y, n) = sync_lem t.limit v z l i x in
        (
          ok tt,
          synced (begun true g) g d,
          drive_ok (begun true g) c eq,
          (
            k,
            io.release g,
            refl,
            (h, y, e),
            lower_limit d k h y (omega (arith, length-take k (bytes t.inner))),
            inl why,
          ),
        )

    through_whole :
        (res : Result (Unit {0}) E) (g : F)
        → remaining b ≤ t.limit
        → Completes io.poll (io.read t.inner b) res g
        → Answer errors bytes patience t.inner b res (io.release g) (io.release_buf g)
        → Reaches (begun false (io.read t.inner b))
    unfolding Reaches sync
    through_whole (err e) g l c a = (err e, begun false g, drive_err (begun false g) c, refl)
    through_whole (ok u) g l c (k, (h, x, e), why) = (
      ok tt,
      synced (begun false g) g (io.release_buf g),
      drive_ok (begun false g) c refl,
      (
        k,
        io.release g,
        refl,
        (h, x, e),
        lower_limit (io.release_buf g) k h x (
            omega (
              arith,
              filled-Extends v x,
              length-take k (bytes t.inner),
              x.same_capacity,
              x.is_valid.ordered,
              x.is_valid.fits,
            )),
        inl why,
      ),
    )

    -- The end has been reached: the reader is not asked.
    at_end : t.limit ≡ 0 → (u : ReadTake R F) × (read io t b ≡ returned u) × Reaches u
    unfolding Reaches
    at_end z =
        let u : ReadTake R F = record {
          source = free t.inner;
          short_buf = false;
          buf = b;
          initial_filled = 0;
          limit = t.limit;
        } in
        (
          u,
          rw (eq→eqb t.limit 0 z) refl,
          (
            ok tt,
            u,
            Completes.done (0, λ n l. refl),
            (0, t.inner, refl, (omega arith, Extends-refl v, refl), omega arith, inr z),
          ),
        )

    shortened :
        (r : Run ReadBuf)
        → shorten b t.limit ≡ r
        → ShortenResult b t.limit r
        → b.filled ≡ 0
        → 0 < t.limit
        → t.limit < remaining b
        → (u : ReadTake R F) × (read io t b ≡ returned u) × Reaches u
    shortened out_of_fuel e h z p l = absurd h
    shortened panicked e h z p l = absurd (omega (arith, h))
    shortened (returned s) e (inr h) z p l = absurd (omega (arith, h.0))
    shortened (returned s) e (inl (q, i)) z p l =
        let (res, g, c, a) = contract t.inner s i.is_valid (omega (arith, i.room)) in
        (
          begun true (io.read t.inner s),
          rw (gt→ne t.limit p, lt→ltb t.limit (remaining b) l, e) refl,
          through_short s res g z l i c a,
        )

    -- On a reader that keeps its contract, with a `u64` as the limit and a valid buffer that is
    -- empty and has room, a read through `Take` begins without a panic, and completes: at most
    -- `limit` of the reader's next bytes are added, none only at the end of the reader or of the
    -- limit, and the limit is lowered by as many; or the reader failed, and the limit is the
    -- same.
    pub read_take-Completes :
        b.filled ≡ 0
        → 0 < remaining b
        → (u : ReadTake R F) × (read io t b ≡ returned u)
          × ((res : Result (Unit {0}) E) × (w : ReadTake R F) × Completes
                (read_take io).poll
                u
                res
                w
              × Outcome t b res w)
    unfolding Reaches read_take
    read_take-Completes z h = elim (zero-cases t.limit) [
      | inl e ↦ at_end e
      | inr p ↦ elim (Bool-cases (ltb t.limit (remaining b))) [
        | inl l ↦
            shortened (shorten b t.limit) refl
              (shorten_lem v t.limit (ltb→lt t.limit (remaining b) l)) z p
              (ltb→lt t.limit (remaining b) l)
        | inr l ↦
            (let (res, g, c, a) = contract t.inner b v h in
              (
                begun false (io.read t.inner b),
                rw (gt→ne t.limit p, l) refl,
                through_whole res g (ltb→ge t.limit (remaining b) l) c a,
              ))
      ]
    ]
