-- ===== src/Io/ReadBufs/Cells.antt =====
-- The bytes of all buffers, one behind the other, when some are written.
use Prim.Native.Nat.add
use completion.Common.{
  take-append, ℕ, zero, suc, ◌+◌, ◌-◌, ◌≤◌, ◌≡◌, refl, sym, ap, ◌∙◌, some, List, [], ◌∷◌, ◌++◌,
  length, take, drop, map, replicate, length-append, length-replicate, append_assoc, arith,
  length-take, append-nil,
}
use completion.Io.ReadBuf.{Cell}
use completion.Io.ReadBuf.Bytes.{write_at, length-write_at}
use completion.Io.ReadBufs.{total, write_from, fill_from, zeros}
use completion.Io.ReadBufs.Position.{IsPlace, index, index_le}

abbrev pub concat : List (List Cell) → List Cell
concat [] = []
concat (b ∷ bs) = b ++ concat bs

pub length-concat : (bs : List (List Cell)) → length (concat bs) ≡ total bs
length-concat [] = refl
length-concat (b ∷ bs) = omega (arith, length-append b (concat bs), length-concat bs)

drop-map : (n : ℕ) (bs : List ℕ) → map {B = Cell} some (drop n bs) ≡ drop n (map some bs)
drop-map zero bs = refl
drop-map (suc n) [] = refl
drop-map (suc n) (b ∷ bs) = drop-map n bs

pub write_at-nil : (xs : List Cell) (i : ℕ) → write_at xs i [] ≡ xs
write_at-nil [] i = refl
write_at-nil (x ∷ xs) zero = refl
write_at-nil (x ∷ xs) (suc i) = ap (x ∷◌) (write_at-nil xs i)

-- A write that begins in the first of two slices.
write_at-append :
    (xs ys : List Cell) (i n : ℕ) (zs : List Cell)
    → i + n ≡ length xs
    → write_at (xs ++ ys) i zs ≡ write_at xs i zs ++ write_at ys 0 (drop n zs)
write_at-append [] ys zero zero zs h = refl
write_at-append [] ys zero (suc n) zs h = absurd (omega (arith, h))
write_at-append [] ys (suc i) n zs h = absurd (omega (arith, h))
write_at-append (x ∷ xs) ys zero zero zs h = absurd (omega (arith, h))
write_at-append (x ∷ xs) ys zero (suc n) [] h = ap (λ k. x ∷ (xs ++ k)) (sym (write_at-nil ys 0))
write_at-append (x ∷ xs) ys zero (suc n) (z ∷ zs) h =
    ap (z ∷◌) (write_at-append xs ys zero n zs (omega (arith, h)))
write_at-append (x ∷ xs) ys (suc i) n zs h =
    ap (x ∷◌) (write_at-append xs ys i n zs (omega (arith, h)))

-- A write that begins in the second one.
write_at-behind :
    (xs ys : List Cell) (i : ℕ) (zs : List Cell)
    → write_at (xs ++ ys) (length xs + i) zs ≡ xs ++ write_at ys i zs
write_at-behind [] ys i zs = rw add.zero refl
write_at-behind (x ∷ xs) ys i zs = rw add.suc (ap (x ∷◌) (write_at-behind xs ys i zs))

-- A write up to the end.
pub write_at-end :
    (xs : List Cell) (i : ℕ) (zs : List Cell)
    → i + length zs ≡ length xs
    → write_at xs i zs ≡ take i xs ++ zs
write_at-end [] zero [] h = refl
write_at-end [] zero (z ∷ zs) h = absurd (omega (arith, h))
write_at-end [] (suc i) zs h = absurd (omega (arith, h))
write_at-end (x ∷ xs) zero [] h = absurd (omega (arith, h))
write_at-end (x ∷ xs) zero (z ∷ zs) h = ap (z ∷◌) (write_at-end xs zero zs (omega (arith, h)))
write_at-end (x ∷ xs) (suc i) zs h = ap (x ∷◌) (write_at-end xs i zs (omega (arith, h)))

replicate-append : (m n : ℕ) (c : Cell) → replicate (m + n) c ≡ replicate m c ++ replicate n c
replicate-append zero n c = rw add.zero refl
replicate-append (suc m) n c = rw add.suc (ap (c ∷◌) (replicate-append m n c))

concat-zeros : (bs : List (List Cell)) → concat (map zeros bs) ≡ replicate (total bs) (some 0)
concat-zeros [] = refl
concat-zeros (b ∷ bs) =
    ap (replicate (length b) (some 0) ++◌) (concat-zeros bs)
    ∙ sym (replicate-append (length b) (total bs) (some 0))

concat-write_first :
    (b : List Cell) (bs : List (List Cell)) (to : ℕ) (other : List ℕ)
    → to ≤ length b
    → concat (write_from 0 to (b ∷ bs) other) ≡ write_at (concat (b ∷ bs)) to (map some other)
concat-write_first b [] to other h =
    append-nil (write_at b to (map some other))
    ∙ sym (ap (λ k. write_at k to (map some other)) (append-nil b))
concat-write_first b (c ∷ bs) to other h =
    ap (write_at b to (map some other) ++◌) (
      concat-write_first c bs 0 (drop (length b - to) other) (omega arith)
      ∙ ap (write_at (c ++ concat bs) 0) (drop-map (length b - to) other))
    ∙ sym
        (write_at-append b (c ++ concat bs) to (length b - to) (map some other) (omega (arith, h)))

-- `append` writes where a write into all the bytes does.
pub concat-write_from :
    (buf to : ℕ) (bs : List (List Cell)) (other : List ℕ)
    → IsPlace bs buf to
    → concat (write_from buf to bs other) ≡ write_at (concat bs) (index bs buf to) (map some other)
concat-write_from buf to [] other h = refl
concat-write_from zero to (b ∷ bs) other h = concat-write_first b bs to other (omega (arith, h))
concat-write_from (suc buf) to (b ∷ bs) other h =
    ap (b ++◌) (concat-write_from buf to bs other h)
    ∙ sym (write_at-behind b (concat bs) (index bs buf to) (map some other))

pub concat-fill_from :
    (buf to : ℕ) (bs : List (List Cell))
    → IsPlace bs buf to
    → concat (fill_from buf to bs)
      ≡ write_at (concat bs) (index bs buf to) (replicate (total bs - index bs buf to) (some 0))
concat-fill_from buf to [] h = refl
concat-fill_from zero to (b ∷ bs) h =
    append_assoc (take to b) (replicate (length b - to) (some 0)) (concat (map zeros bs))
    ∙ ap (take to b ++◌) (
        ap (replicate (length b - to) (some 0) ++◌) (concat-zeros bs)
        ∙ sym (replicate-append (length b - to) (total bs) (some 0))
        ∙ ap (λ n. replicate n (some 0)) (omega (arith, h)))
    ∙ ap (◌++ replicate (length b + total bs - to) (some 0))
        (sym (take-append to b (concat bs) (omega (arith, h))))
    ∙ sym (write_at-end (b ++ concat bs) to (replicate (length b + total bs - to) (some 0)) ends)
  where
    zero_cells : List Cell
    zero_cells = replicate (length b + total bs - to) (some 0)

    ends : to + length zero_cells ≡ length (b ++ concat bs)
    ends = omega (
      arith,
      h,
      length-append b (concat bs),
      length-concat bs,
      length-replicate {A = Cell} (length b + total bs - to) (some 0),
    )
concat-fill_from (suc buf) to (b ∷ bs) h =
    ap (b ++◌) (concat-fill_from buf to bs h)
    ∙ sym (
        write_at-behind b (concat bs) (index bs buf to)
          (replicate (total bs - index bs buf to) (some 0)))
    ∙ ap (λ n. write_at (b ++ concat bs) (length b + index bs buf to) (replicate n (some 0)))
        (omega (arith, index_le bs buf to h))

-- The lengths of the buffers stay.
pub lengths-write_from :
    (buf to : ℕ) (bs : List (List Cell)) (other : List ℕ)
    → map length (write_from buf to bs other) ≡ map length bs
lengths-write_from buf to [] other = refl
lengths-write_from zero to (b ∷ []) other = ap (◌∷ []) (length-write_at b to (map some other))
lengths-write_from zero to (b ∷ (c ∷ bs)) other =
    ap (◌∷ map length (write_from 0 0 (c ∷ bs) (drop (length b - to) other)))
      (length-write_at b to (map some other))
    ∙ ap (length b ∷◌) (lengths-write_from zero 0 (c ∷ bs) (drop (length b - to) other))
lengths-write_from (suc buf) to (b ∷ bs) other =
    ap (length b ∷◌) (lengths-write_from buf to bs other)

pub lengths-fill_from :
    (buf to : ℕ) (bs : List (List Cell))
    → IsPlace bs buf to
    → map length (fill_from buf to bs) ≡ map length bs
lengths-fill_from buf to [] h = refl
lengths-fill_from zero to (b ∷ bs) h =
    ap (◌∷ map length (map zeros bs)) (
      length-append (take to b) (replicate (length b - to) (some 0))
      ∙ omega (arith, h, length-take to b, length-replicate {A = Cell} (length b - to) (some 0)))
    ∙ ap (length b ∷◌) (lengths-zeros bs)
  where
    lengths-zeros : (bs : List (List Cell)) → map length (map zeros bs) ≡ map length bs
    lengths-zeros [] = refl
    lengths-zeros (c ∷ bs) =
        ap (◌∷ map length (map zeros bs)) (length-replicate {A = Cell} (length c) (some 0))
        ∙ ap (length c ∷◌) (lengths-zeros bs)
lengths-fill_from (suc buf) to (b ∷ bs) h = ap (length b ∷◌) (lengths-fill_from buf to bs h)

-- Places depend on the lengths alone.
module _ where
  head : {x y : ℕ} {xs ys : List ℕ} → x ∷ xs ≡ y ∷ ys → x ≡ y
  head e = cc

  tail : {x y : ℕ} {xs ys : List ℕ} → x ∷ xs ≡ y ∷ ys → xs ≡ ys
  tail e = cc

  pub lengths-IsPlace :
      (bs cs : List (List Cell)) (buf to : ℕ)
      → map length bs ≡ map length cs
      → IsPlace bs buf to
      → IsPlace cs buf to
  lengths-IsPlace [] [] buf to e h = h
  lengths-IsPlace [] (c ∷ cs) buf to e h = absurd (cc)
  lengths-IsPlace (b ∷ bs) [] buf to e h = absurd (cc)
  lengths-IsPlace (b ∷ bs) (c ∷ cs) zero to e h = omega (arith, h, head e)
  lengths-IsPlace (b ∷ bs) (c ∷ cs) (suc buf) to e h = lengths-IsPlace bs cs buf to (tail e) h

  pub lengths-index :
      (bs cs : List (List Cell)) (buf to : ℕ)
      → map length bs ≡ map length cs
      → index bs buf to ≡ index cs buf to
  lengths-index bs cs zero to e = refl
  lengths-index [] [] (suc buf) to e = refl
  lengths-index [] (c ∷ cs) (suc buf) to e = absurd (cc)
  lengths-index (b ∷ bs) [] (suc buf) to e = absurd (cc)
  lengths-index (b ∷ bs) (c ∷ cs) (suc buf) to e =
      omega (arith, head e, lengths-index bs cs buf to (tail e))

  pub lengths-total :
      (bs cs : List (List Cell)) → map length bs ≡ map length cs → total bs ≡ total cs
  lengths-total [] [] e = refl
  lengths-total [] (c ∷ cs) e = absurd (cc)
  lengths-total (b ∷ bs) [] e = absurd (cc)
  lengths-total (b ∷ bs) (c ∷ cs) e = omega (arith, head e, lengths-total bs cs (tail e))
