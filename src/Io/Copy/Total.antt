-- ===== src/Io/Copy/Total.antt =====
-- What `copy` writes, on a reader and a writer that keep their contracts.
use completion.Common.{
  ℕ, zero, suc, ◌+◌, ◌≤◌, ◌<◌, ◌≡◌, inl, inr, refl, ap, sym, ◌∙◌, false, List, ◌++◌, length, take,
  drop, gt→ne, eq→eqb, Bool-cases, resolve, arith, length-take, length-drop, append-nil,
  append_assoc, take-append-drop, take_add, Result, ok, err,
}
use completion.Poll.{usize_limit}
use completion.Poll.Machine.{Completes}
use completion.Io.Base.{Errors, AsyncRead, AsyncWrite, free}
use completion.Io.ReadBuf.{filled_cells}
use completion.Io.Reader.{Extends, filled-Extends, Moved, IsReader}
use completion.Io.Reader
use completion.Io.WriteAll.{WriteAll, write_all}
use completion.Io.WriteAll
use completion.Io.WriteAll.Output.{IsWriter, write_all-Completes}
use completion.Io.WriteAll.Output
use completion.Io.Copy.{values, writing, Copy, new, next_buf, copy}
use completion.Io.Copy.Transfer

module _ {R W E : Type 0} (errors : Errors E) (bytes : R → List ℕ) (output : W → List ℕ) where
  -- Everything was written and counted, or the first bytes were, and there is an error that is not an
  -- interruption.
  abbrev pub Outcome : R → W → ℕ → Result ℕ E → W → Type 0
  Outcome r w n (ok total) w' = (output w' ≡ output w ++ bytes r) × (total ≡ n + length (bytes r))
  Outcome r w n (err e) w' =
      (errors.is_interrupted e ≡ false) × (k : ℕ) × (output w' ≡ output w ++ take k (bytes r))

module _ {R F W G E : Type 0} (errors : Errors E) (input : AsyncRead R F E) (out : AsyncWrite W G E)
    (bytes : R → List ℕ) (patience : R → ℕ) (output : W → List ℕ) (calm : W → ℕ)
    (reads : IsReader errors bytes patience input) (writes : IsWriter errors out output calm) where
  Reaches : Copy R F W G → Type 0
  Reaches t =
      (res : Result ℕ E) × (u : Copy R F W G) × Completes (copy errors input out).poll t res u
      × Outcome errors bytes output t.reader t.writer t.written res
          (Transfer.sink errors input out u)

  -- What is left to read can be counted.
  abbrev IsCounted : Copy R F W G → Type 0
  IsCounted t = t.written + length (bytes t.reader) < usize_limit

  -- What is written behind the first `k` bytes joins them.
  Outcome-join :
      (r r' : R) (w w' : W) (n n' k : ℕ) (res : Result ℕ E) (s : W)
      → k ≤ length (bytes r)
      → bytes r' ≡ drop k (bytes r)
      → output w' ≡ output w ++ take k (bytes r)
      → n' ≡ n + k
      → Outcome errors bytes output r' w' n' res s
      → Outcome errors bytes output r w n res s
  Outcome-join r r' w w' n n' k (ok total) s h e o m (p, q) = (
    p
        ∙ ap (◌++ bytes r') o
        ∙ append_assoc (output w) (take k (bytes r)) (bytes r')
        ∙ ap (λ l. output w ++ (take k (bytes r) ++ l)) e
        ∙ ap (output w ++◌) (take-append-drop k (bytes r)),
    omega (arith, q, m, ap length e, length-drop k (bytes r)),
  )
  Outcome-join r r' w w' n n' k (err x) s h e o m (i, j, p) = (
    i,
    k + j,
    p
        ∙ ap (◌++ take j (bytes r')) o
        ∙ append_assoc (output w) (take k (bytes r)) (take j (bytes r'))
        ∙ ap (λ l. output w ++ (take k (bytes r) ++ take j l)) e
        ∙ ap (output w ++◌) (sym (take_add k j (bytes r))),
  )

  module _ (t : Copy R F W G) (idle : Transfer.IsIdle errors input out t) (counted : IsCounted t)
      (g : F) (k : ℕ) (h : k ≤ length (bytes t.reader))
      (x : Extends (next_buf errors input out t) (take k (bytes t.reader)) (input.release_buf g))
      (e : bytes (input.release g) ≡ drop k (bytes t.reader)) where
    abbrev given : List ℕ
    given = values (filled_cells (input.release_buf g))

    given-eq : given ≡ take k (bytes t.reader)
    given-eq = Transfer.values-filled_cells errors input out t x

    filled-eq : (input.release_buf g).filled ≡ k
    filled-eq =
        Transfer.filled_after errors input out idle x ∙ length-take k (bytes t.reader) ∙ omega arith

    abbrev to_write : Copy R F W G
    to_write = record (Transfer.after errors input out t g) {
      state = writing (WriteAll.new errors out t.writer given) (input.release_buf g).filled;
    }

    abbrev ended : W → List ℕ → WriteAll W G
    ended w' rest = record { writer = free w'; buf = rest }

    abbrev next_state : W → List ℕ → Copy R F W G
    next_state w' rest =
        Transfer.written_to errors input out (ended w' rest) (Transfer.after errors input out t g)
          (input.release_buf g).filled

    next_written : (w' : W) (rest : List ℕ) → (next_state w' rest).written ≡ t.written + k
    next_written w' rest = omega (arith, filled-eq)

    next_IsIdle : (w' : W) (rest : List ℕ) → Transfer.IsIdle errors input out (next_state w' rest)
    next_IsIdle w' rest =
        let i = Transfer.IsIdle-after errors input out {g = g} idle x in
        record { before_read = refl; buf_IsValid = i.buf_IsValid; has_room = i.has_room }

    -- The write ends the copy, or the next round begins.
    written_out :
        (r : Result (Unit {0}) E) (w' : W) (rest : List ℕ)
        → Completes
            (write_all errors out).poll
            (WriteAll.new errors out t.writer given)
            r
            (ended w' rest)
        → Output.Outcome errors output calm t.writer given r w'
        → ((v : Copy R F W G)
            → Transfer.IsIdle errors input out v
            → IsCounted v
            → bytes v.reader ≡ drop k (bytes t.reader)
            → Reaches v)
        → (res : Result ℕ E) × (u : Copy R F W G) × Completes
            (copy errors input out).poll
            to_write
            res
            u
          × Outcome errors bytes output t.reader t.writer t.written res
              (Transfer.sink errors input out u)
    unfolding copy Reaches
    written_out (err y) w' rest c (i, j, o) more =
        let (m, q) = Transfer.take-of_take j k (bytes t.reader) in
        (
          err y,
          record to_write { state = writing (ended w' rest) (input.release_buf g).filled },
          Transfer.write_end errors input out (Transfer.after errors input out t g) c,
          (i, m, o ∙ ap (λ l. output t.writer ++ take j l) given-eq ∙ ap (output t.writer ++◌) q),
        )
    written_out (ok y) w' rest c o more =
        let v : Copy R F W G = next_state w' rest in
        let (res, u, d, z) =
          more v (next_IsIdle w' rest)
            (omega (arith, next_written w' rest, ap length e, length-drop k (bytes t.reader))) e in
        (
          res,
          u,
          Transfer.write_on errors input out (Transfer.after errors input out t g) c d,
          Outcome-join t.reader (input.release g) t.writer w' t.written v.written k res
              (Transfer.sink errors input out u) h e (o ∙ ap (output t.writer ++◌) given-eq)
              (next_written w' rest) z,
        )

  -- One read, when shorter inputs and more patient readers are dealt with.
  answered :
      (t : Copy R F W G) (res : Result (Unit {0}) E) (g : F)
      → Transfer.IsIdle errors input out t
      → IsCounted t
      → Completes input.poll (input.read t.reader (next_buf errors input out t)) res g
      → Reader.Answer errors bytes patience t.reader
          (next_buf errors input out t)
          res
          (input.release g)
          (input.release_buf g)
      → ((v : Copy R F W G)
          → Transfer.IsIdle errors input out v
          → IsCounted v
          → length (bytes v.reader) < length (bytes t.reader)
          → Reaches v)
      → ((v : Copy R F W G)
          → Transfer.IsIdle errors input out v
          → IsCounted v
          → length (bytes v.reader) ≡ length (bytes t.reader)
          → patience v.reader < patience t.reader
          → Reaches v)
      → Reaches t
  unfolding Reaches copy
  answered t (ok y) g i n c (zero, (h, x, e), inl k) more again = absurd (omega arith)
  answered t (ok y) g i n c (zero, (h, x, e), inr k) more again = (
    ok t.written,
    Transfer.after errors input out t g,
    Transfer.begin errors input out i.before_read (
        Transfer.read_end errors input out t c
          (λ m. rw (eq→eqb (input.release_buf g).filled 0 (filled-eq t i n g 0 h x e)) refl)),
    (
      sym (append-nil (output t.writer)) ∙ ap (output t.writer ++◌) (sym k),
      omega (arith, ap length k),
    ),
  )
  answered t (ok y) g i n c (suc k, (h, x, e), p) more again =
      let (r, w', rest, d, z) =
        write_all-Completes errors out output calm writes t.writer
          (values (filled_cells (input.release_buf g))) in
      let (res, u, q, o) = written_out t i n g (suc k) h x e r w' rest d z (λ v a b f.
        more v a b (omega (arith, ap length f, length-drop (suc k) (bytes t.reader)))) in
      (
        res,
        u,
        Transfer.begin errors input out i.before_read (
            Transfer.read_on errors input out t c
              (λ m.
                rw
                  (gt→ne (input.release_buf g).filled
                    (omega (arith, filled-eq t i n g (suc k) h x e)))
                  refl)
              q),
        o,
      )
  answered t (err y) g i n c ((h, x, e), p) more again =
      elim (Bool-cases (errors.is_interrupted y)) [
        | inl q ↦
            (let (res, u, d, z) =
                again (Transfer.after errors input out t g)
                  (Transfer.IsIdle-after errors input out {g = g} i x)
                  (omega (arith, n, ap length e)) (ap length e)
                  (resolve (errors.is_interrupted y) q p) in
              (
                res,
                u,
                Transfer.begin errors input out i.before_read
                    (Transfer.read_on errors input out t c (λ m. rw q refl) d),
                Outcome-join t.reader (input.release g) t.writer t.writer t.written t.written 0 res
                    (Transfer.sink errors input out u) h e (sym (append-nil (output t.writer)))
                    (omega arith) z,
              ))
        | inr q ↦ (
          err y,
          Transfer.after errors input out t g,
          Transfer.begin errors input out i.before_read
              (Transfer.read_end errors input out t c (λ m. rw q refl)),
          (q, 0, sym (append-nil (output t.writer))),
        )
      ]

  bounded :
      (l p : ℕ) (t : Copy R F W G)
      → Transfer.IsIdle errors input out t
      → IsCounted t
      → length (bytes t.reader) ≤ l
      → patience t.reader < p
      → Reaches t
  bounded l zero t i n hl hp = absurd (omega arith)
  bounded zero (suc p) t i n hl hp =
      let (res, g, c, a) =
        reads t.reader (next_buf errors input out t) i.buf_IsValid
          (Transfer.next_buf-remaining errors input out i) in
      answered t res g i n c a (λ v j m h. absurd (omega arith))
        (λ v j m e h. bounded zero p v j m (omega arith) (omega arith))
  bounded (suc l) (suc p) t i n hl hp =
      let (res, g, c, a) =
        reads t.reader (next_buf errors input out t) i.buf_IsValid
          (Transfer.next_buf-remaining errors input out i) in
      answered t res g i n c a
        (λ v j m h. bounded l (suc (patience v.reader)) v j m (omega arith) (omega arith))
        (λ v j m e h. bounded (suc l) p v j m (omega arith) (omega arith))

  -- On a reader and a writer that keep their contracts, and if a `u64` counts the bytes of the
  -- reader, `copy` completes: all the bytes are put out, in order, behind what the writer had
  -- put out, and their number is the result; or the first of them are, followed by an error that
  -- is not an interruption.
  pub copy-Completes :
      (r : R) (w : W)
      → length (bytes r) < usize_limit
      → (res : Result ℕ E) × (u : Copy R F W G) × Completes
          (copy errors input out).poll
          (new errors input out r w)
          res
          u
        × Outcome errors bytes output r w 0 res (Transfer.sink errors input out u)
  unfolding Reaches
  copy-Completes r w h =
      bounded (length (bytes r)) (suc (patience r)) (new errors input out r w)
        (Transfer.new-IsIdle errors input out r w) (omega arith) (omega arith) (omega arith)
