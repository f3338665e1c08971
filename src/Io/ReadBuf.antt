-- ===== src/Io/ReadBuf.antt =====
-- io/src/read/buf.rs: `ReadBuf`, a byte buffer that is filled and initialised step by step. A method
-- that takes `&mut self` returns the new buffer. `ReadBufRef` is a reference to such a buffer, and
-- its methods are the same.
pub mod Bytes
pub mod Valid
pub mod Append
use completion.Common.{
  ℕ, ◌+◌, ◌-◌, ◌≤◌, ◌<◌, ◌≡◌, Option, none, some, List, [], ◌∷◌, map, length, take, drop, replicate,
  ltb, leb, if◌then◌else◌,
}
use completion.Poll.{Run, panicked, returned, ◌>>=◌, assert, usize_limit}
use completion.Io.ReadBuf.Bytes.{write_at}

-- `bytes` is the field `data`. `MaybeUninit<u8>`: a byte that was never written has no value.
abbrev pub Cell : Type 0
Cell = Option ℕ

pub record ReadBuf : Type 0 where
  pub bytes : List Cell
  pub filled : ℕ
  pub initialized : ℕ

unfoldable pub new : List ℕ → ReadBuf
new buf = record { bytes = map some buf; filled = 0; initialized = length buf }

unfoldable pub uninit : List Cell → ReadBuf
uninit cells = record { bytes = cells; filled = 0; initialized = 0 }

abbrev pub capacity : ReadBuf → ℕ
capacity b = length b.bytes

abbrev pub remaining : ReadBuf → ℕ
remaining b = capacity b - b.filled

-- The slices that the methods `filled`, `initialized` and `unfilled_mut` show.
abbrev pub filled_cells : ReadBuf → List Cell
filled_cells b = take b.filled b.bytes

abbrev pub initialized_cells : ReadBuf → List Cell
initialized_cells b = take b.initialized b.bytes

abbrev pub unfilled_cells : ReadBuf → List Cell
unfilled_cells b = drop b.filled b.bytes

unfoldable pub initialize_unfilled_to : ReadBuf → ℕ → Run ReadBuf
initialize_unfilled_to b n = assert (leb n (remaining b)) (
    let end = b.filled + n in
    returned (
      if ltb b.initialized end
      then record b {
        bytes = write_at b.bytes b.initialized (replicate (end - b.initialized) (some 0));
        initialized = end;
      }
      else b))

unfoldable pub initialize_unfilled : ReadBuf → Run ReadBuf
initialize_unfilled b = initialize_unfilled_to b (remaining b)

unfoldable pub clear : ReadBuf → ReadBuf
clear b = record b { filled = 0 }

unfoldable pub set_filled : ReadBuf → ℕ → Run ReadBuf
set_filled b n = assert (leb n b.initialized) (returned (record b { filled = n }))

unfoldable pub add_filled : ReadBuf → ℕ → Run ReadBuf
unfolding set_filled
add_filled b n =
    let filled = b.filled + n in if ltb filled usize_limit then set_filled b filled else panicked

unfoldable pub assume_init : ReadBuf → ℕ → ReadBuf
assume_init b n =
    let new = b.filled + n in if ltb b.initialized new then record b { initialized = new } else b

unfoldable pub append : ReadBuf → List ℕ → Run ReadBuf
unfolding assume_init add_filled
append b other = assert (leb (length other) (remaining b)) (
    let written = record b { bytes = write_at b.bytes b.filled (map some other) } in
    add_filled (assume_init written (length other)) (length other))
