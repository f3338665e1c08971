-- ===== src/Io/Reader.antt =====
-- io/src/read.rs: the contract of `AsyncReadWith::read`.
use completion.Common.{
  ℕ, ◌+◌, ◌≤◌, ◌<◌, ◌≡◌, ◌⊎◌, refl, ap, sym, ◌∙◌, subst, false, some, List, [], ◌∷◌, ◌++◌, map,
  length, take, drop, arith, Result, ok, err, append-nil, append_assoc, take_add, drop_add,
  length-drop, length-take, length-append,
}
use completion.Poll.Machine.{Completes}
use completion.Io.Base.{Errors, AsyncRead}
use completion.Io.ReadBuf.{ReadBuf, append, Cell, capacity, remaining, filled_cells}
use completion.Io.ReadBuf.Bytes.{length-map-some}
use completion.Io.ReadBuf.Valid.{IsValid}
use completion.Io.ReadBuf.Append.{AppendResult, append_lem}
use completion.Poll.{Run, out_of_fuel, panicked, returned}

-- `c` is `b` with `bytes` behind the filled part; the unfilled part may have changed, but what was
-- initialised still is.
pub record Extends (b : ReadBuf) (bytes : List ℕ) (c : ReadBuf) : Type 0 where
  pub is_valid : IsValid c
  pub filled_part : filled_cells c ≡ filled_cells b ++ map some bytes
  pub same_capacity : capacity c ≡ capacity b
  pub kept_initialized : b.initialized ≤ c.initialized

pub length-filled_cells : {b : ReadBuf} → IsValid b → length (filled_cells b) ≡ b.filled
length-filled_cells {b} v = rw (length-take b.filled b.bytes) (omega (arith, v.ordered, v.fits))

-- The filled part has grown by as many bytes.
pub filled-Extends :
    {b c : ReadBuf} {bytes : List ℕ}
    → IsValid b
    → Extends b bytes c
    → c.filled ≡ b.filled + length bytes
filled-Extends {b} {c} {bytes} v x =
    sym (length-filled_cells x.is_valid)
    ∙ ap length x.filled_part
    ∙ length-append (filled_cells b) (map some bytes)
    ∙ omega (arith, length-filled_cells v, length-map-some bytes)

map-append_some : (xs ys : List ℕ) → map {B = Cell} some (xs ++ ys) ≡ map some xs ++ map some ys
map-append_some [] ys = refl
map-append_some (x ∷ xs) ys = ap (some x ∷◌) (map-append_some xs ys)

pub Extends-trans :
    {b c d : ReadBuf} {xs ys : List ℕ} → Extends b xs c → Extends c ys d → Extends b (xs ++ ys) d
Extends-trans {b} {c} {d} {xs} {ys} x y = record {
  is_valid = y.is_valid;
  filled_part =
      y.filled_part
      ∙ ap (◌++ map some ys) x.filled_part
      ∙ append_assoc (filled_cells b) (map some xs) (map some ys)
      ∙ ap (filled_cells b ++◌) (sym (map-append_some xs ys));
  same_capacity = y.same_capacity ∙ x.same_capacity;
  kept_initialized = omega (arith, x.kept_initialized, y.kept_initialized);
}

pub Extends-refl : {b : ReadBuf} → IsValid b → Extends b [] b
Extends-refl {b} v = record {
  is_valid = v;
  filled_part = sym (append-nil (filled_cells b));
  same_capacity = refl;
  kept_initialized = omega arith;
}

-- `bytes` is what the reader has yet to give.
module _ {R E : Type 0} (errors : Errors E) (bytes : R → List ℕ) (patience : R → ℕ) where
  -- The first `k` bytes went from the reader to the buffer.
  abbrev pub Moved : R → ReadBuf → ℕ → R → ReadBuf → Type 0
  Moved r b k r' c =
      (k ≤ length (bytes r)) × Extends b (take k (bytes r)) c × (bytes r' ≡ drop k (bytes r))

  -- What a read into a buffer that is not full may come to: it gives bytes, and none only at the end;
  -- or an error and no bytes; and it is not interrupted for ever.
  abbrev pub Answer : R → ReadBuf → Result (Unit {0}) E → R → ReadBuf → Type 0
  Answer r b (ok _) r' c = (k : ℕ) × Moved r b k r' c × ((0 < k) ⊎ (bytes r ≡ []))
  Answer r b (err e) r' c =
      Moved r b 0 r' c × ((errors.is_interrupted e ≡ false) ⊎ (patience r' < patience r))

-- Every read into a valid buffer that is not full completes, and keeps the contract.
abbrev pub IsReader :
    {R F E : Type 0} → Errors E → (R → List ℕ) → (R → ℕ) → AsyncRead R F E → Type 0
IsReader {R = R} {F = F} {E = E} errors bytes patience io =
    (r : R) (b : ReadBuf)
    → IsValid b
    → 0 < remaining b
    → (res : Result (Unit {0}) E) × (g : F) × Completes io.poll (io.read r b) res g
      × Answer errors bytes patience r b res (io.release g) (io.release_buf g)

module _ {R E : Type 0} (errors : Errors E) (bytes : R → List ℕ) (patience : R → ℕ) where
  -- One move behind another.
  pub Moved-trans :
      (r q s : R) (b c d : ReadBuf) (k m : ℕ)
      → Moved errors bytes patience r b k q c
      → Moved errors bytes patience q c m s d
      → Moved errors bytes patience r b (k + m) s d
  Moved-trans r q s b c d k m (l, x, e) (n, y, f) = (
    omega (arith, length-drop k (bytes r), ap length e),
    subst (λ l. Extends b l d)
        (ap (λ l. take k (bytes r) ++ take m l) e ∙ sym (take_add k m (bytes r)))
        (Extends-trans x y),
    f ∙ ap (drop m) e ∙ sym (drop_add k m (bytes r)),
  )

-- Bytes that fit are appended.
pub append-Extends :
    (b : ReadBuf) (other : List ℕ)
    → IsValid b
    → length other ≤ remaining b
    → (c : ReadBuf) × ((append b other ≡ returned c) × Extends b other c)
append-Extends b other v l = go (append b other) (append_lem v other) refl
  where
    go :
        (r : Run ReadBuf)
        → AppendResult b other r
        → append b other ≡ r
        → (c : ReadBuf) × ((append b other ≡ returned c) × Extends b other c)
    go out_of_fuel a e = absurd a
    go panicked a e = absurd (omega (arith, a, l))
    go (returned c) a e = (
      c,
      (
        e,
        record {
          is_valid = a.1.is_valid;
          filled_part = a.1.filled_part;
          same_capacity = a.1.same_capacity;
          kept_initialized = a.1.kept_initialized;
        },
      ),
    )
