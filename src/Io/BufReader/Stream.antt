-- ===== src/Io/BufReader/Stream.antt =====
-- The bytes that a `BufReader` has yet to give.
use completion.Common.{
  ℕ, zero, suc, ◌≤◌, ◌≡◌, refl, ap, ◌∙◌, some, none, List, [], ◌∷◌, map, take, drop,
}
use completion.Io.ReadBuf.{ReadBuf, Cell, filled_cells}
use completion.Io.ReadBuf.Bytes.{Written, Written-mono}
use completion.Io.ReadBuf.Valid.{IsValid}
use completion.Io.Copy.{values}
use completion.Io.BufReader.{BufReader, buffer}

values-map-some : (xs : List ℕ) → values (map some xs) ≡ xs
values-map-some [] = refl
values-map-some (x ∷ xs) = ap (x ∷◌) (values-map-some xs)

drop-map : (n : ℕ) (xs : List ℕ) → drop n (map {B = Cell} some xs) ≡ map some (drop n xs)
drop-map zero xs = refl
drop-map (suc n) [] = refl
drop-map (suc n) (x ∷ xs) = drop-map n xs

Written-bytes :
    (n : ℕ) (cells : List Cell) → Written n cells → (xs : List ℕ) × (take n cells ≡ map some xs)
Written-bytes zero cells w = ([], refl)
Written-bytes (suc n) [] w = ([], refl)
Written-bytes (suc n) (none ∷ cells) w = absurd w.0
Written-bytes (suc n) (some x ∷ cells) w =
    let (xs, e) = Written-bytes n cells w.1 in (x ∷ xs, ap (some x ∷◌) e)

pub filled_bytes : (b : ReadBuf) → IsValid b → (xs : List ℕ) × (filled_cells b ≡ map some xs)
filled_bytes b v =
    Written-bytes b.filled b.bytes (Written-mono b.filled b.initialized b.bytes v.ordered v.written)

module _ {R : Type 0} where
  -- The bytes of the buffer are there, and the position is one of them or behind them.
  pub record IsBuffered (b : BufReader R) : Type 0 where
    pub is_valid : IsValid b.buf
    pub pos_le : b.pos ≤ b.buf.filled

  -- The filled part as bytes, when they are `xs`.
  pub buffer-drop :
      (b : BufReader R) (xs : List ℕ) → filled_cells b.buf ≡ map some xs → buffer b ≡ drop b.pos xs
  buffer-drop b xs e =
      ap (λ cells. values (drop b.pos cells)) e
      ∙ ap values (drop-map b.pos xs)
      ∙ values-map-some (drop b.pos xs)
