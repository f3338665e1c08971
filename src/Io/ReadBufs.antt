-- ===== src/Io/ReadBufs.antt =====
-- io/src/read/bufs.rs: `ReadBufs`, a list of byte buffers that are filled and initialised one behind the
-- other. A position is the index of a buffer and an index into it. `ReadBufsRef` has the same methods.
pub mod Position
pub mod Cells
pub mod Flat
pub mod Writes
pub mod Clear
use completion.Common.{
  ℕ, zero, suc, ◌+◌, ◌-◌, Bool, true, false, Option, none, some, List, [], ◌∷◌, ◌++◌, map, length,
  take, drop, replicate, get_elem?, ltb, leb, ◌==◌, if◌then◌else◌,
}
use completion.Poll.{wrapping_sub, Run, panicked, returned, ◌>>=◌, assert}
use completion.Io.ReadBuf.{Cell}
use completion.Io.ReadBuf.Bytes.{write_at}

-- `bufs` is the field `data`.
pub record ReadBufs : Type 0 where
  pub bufs : List (List Cell)
  pub filled_bufs : ℕ
  pub filled_to : ℕ
  pub initialized_bufs : ℕ
  pub initialized_to : ℕ

-- The index of the first buffer that is not empty, or the number of buffers.
abbrev pub first_nonempty {ℓ} : {A : Type ℓ} → List (List A) → ℕ
first_nonempty [] = 0
first_nonempty ([] ∷ bufs) = suc (first_nonempty bufs)
first_nonempty ((c ∷ cs) ∷ bufs) = 0

unfoldable pub new : List (List ℕ) → ReadBufs
new bufs = record {
  bufs = map (map some) bufs;
  filled_bufs = first_nonempty bufs;
  filled_to = 0;
  initialized_bufs = length bufs;
  initialized_to = 0;
}

unfoldable pub uninit : List (List Cell) → ReadBufs
uninit bufs = record {
  bufs = bufs;
  filled_bufs = first_nonempty bufs;
  filled_to = 0;
  initialized_bufs = first_nonempty bufs;
  initialized_to = 0;
}

-- The slices of `get_to`: the buffers before a position, and the start of its buffer.
abbrev pub get_to : ReadBufs → ℕ → ℕ → List (List Cell) × List Cell
get_to r buf to = (take buf r.bufs, elim (get_elem? r.bufs buf) [ none ↦ [] | some b ↦ take to b ])

-- The loop of `add_to_index_pair`, over the buffers from the index on.
abbrev pub add_loop : List (List Cell) → ℕ → ℕ → Option (ℕ × ℕ)
add_loop [] buf n = if n == 0 then some (buf, 0) else none
add_loop (b ∷ bs) buf n =
    let rest = add_loop bs (suc buf) (n - length b) in
    if ltb n (length b) then some (buf, n) else rest

unfoldable pub add_to_index_pair : ReadBufs → ℕ → ℕ → ℕ → Option (ℕ × ℕ)
add_to_index_pair r buf to n = if n == 0 then some (buf, to) else elim (get_elem? r.bufs buf) [
  | none ↦ none
  | some b ↦
      if ltb n (wrapping_sub (length b) to)
      then some (buf, n + to)
      else add_loop (drop (suc buf) r.bufs) (suc buf) (n - wrapping_sub (length b) to)
]

abbrev pub zeros : List Cell → List Cell
zeros b = replicate (length b) (some 0)

-- Every byte from a position on is set to 0.
abbrev pub fill_from : ℕ → ℕ → List (List Cell) → List (List Cell)
fill_from buf to [] = []
fill_from zero to (b ∷ bs) = (take to b ++ replicate (length b - to) (some 0)) ∷ map zeros bs
fill_from (suc buf) to (b ∷ bs) = b ∷ fill_from buf to bs

unfoldable pub initialize_unfilled : ReadBufs → ReadBufs
initialize_unfilled r = record r {
  bufs = fill_from r.initialized_bufs r.initialized_to r.bufs;
  initialized_bufs = length r.bufs;
  initialized_to = 0;
}

-- The bytes of some buffers together.
abbrev pub total : List (List Cell) → ℕ
total [] = 0
total (b ∷ bs) = length b + total bs

abbrev pub unfilled : ℕ → List (List Cell) → ℕ
unfilled to [] = 0
unfilled to (b ∷ bs) = (length b - to) + total bs

unfoldable pub remaining : ReadBufs → ℕ
remaining r = unfilled r.filled_to (drop r.filled_bufs r.bufs)

unfoldable pub clear : ReadBufs → ReadBufs
clear r = record r { filled_bufs = 0; filled_to = 0 }

-- `<=` on pairs, and `<`.
abbrev pub leb_pair : ℕ → ℕ → ℕ → ℕ → Bool
leb_pair a t b u = if ltb a b then true else (if a == b then leb t u else false)

abbrev pub ltb_pair : ℕ → ℕ → ℕ → ℕ → Bool
ltb_pair a t b u = if ltb a b then true else (if a == b then ltb t u else false)

-- `map_or(1, |buf| buf.len())`.
abbrev pub len_or_one : Option (List Cell) → ℕ
len_or_one none = 1
len_or_one (some b) = length b

unfoldable pub set_filled : ReadBufs → ℕ → ℕ → Run ReadBufs
set_filled r buf to = assert (leb_pair buf to r.initialized_bufs r.initialized_to) (
    assert (ltb to (len_or_one (get_elem? r.bufs buf)))
      (returned (record r { filled_bufs = buf; filled_to = to })))

abbrev pub filled_at : ReadBufs → Option (ℕ × ℕ) → Run ReadBufs
filled_at r none = panicked
filled_at r (some (buf, to)) = set_filled r buf to

unfoldable pub add_filled : ReadBufs → ℕ → Run ReadBufs
add_filled r n = filled_at r (add_to_index_pair r r.filled_bufs r.filled_to n)

abbrev pub initialized_at : ReadBufs → Option (ℕ × ℕ) → Run ReadBufs
initialized_at r none = panicked
initialized_at r (some (buf, to)) = returned (
    if ltb_pair r.initialized_bufs r.initialized_to buf to
    then record r { initialized_bufs = buf; initialized_to = to }
    else r)

unfoldable pub assume_init : ReadBufs → ℕ → Run ReadBufs
assume_init r n = initialized_at r (add_to_index_pair r r.filled_bufs r.filled_to n)

-- Bytes are written from a position on, from one buffer to the next.
abbrev pub write_from : ℕ → ℕ → List (List Cell) → List ℕ → List (List Cell)
write_from buf to [] other = []
write_from zero to (b ∷ bs) other =
    write_at b to (map some other) ∷ write_from zero 0 bs (drop (length b - to) other)
write_from (suc buf) to (b ∷ bs) other = b ∷ write_from buf to bs other

unfoldable pub append : ReadBufs → List ℕ → Run ReadBufs
append r other = assert (leb (length other) (remaining r)) (
    let written = record r { bufs = write_from r.filled_bufs r.filled_to r.bufs other } in
    assume_init written (length other) >>= λ s. add_filled s (length other))
