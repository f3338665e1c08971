-- ===== src/Io/Tests/Buffers.antt =====
-- The theorems about `ReadBufs`, at one input.
use completion.Common.{ℕ, ◌≡◌, refl, none, some, List, [], ◌∷◌, arith}
use completion.Poll.{returned, panicked}
use completion.Io.ReadBuf.{Cell}
use completion.Io.ReadBuf as ReadBuf
use completion.Io.ReadBufs.{
  ReadBufs, add_filled, append, initialize_unfilled, remaining, clear, set_filled, assume_init,
  add_to_index_pair,
}
use completion.Io.ReadBufs.Flat.{flat, IsPlaced, Refines}
use completion.Io.ReadBufs.Writes.{ReadBufs-ReadBuf}
use completion.Io.ReadBufs.Clear.{clear-add_filled}

-- An empty buffer stands between the others.
abbrev buffers : ReadBufs
buffers = record {
  bufs = (some 1 ∷ none ∷ []) ∷ [] ∷ (none ∷ none ∷ []) ∷ [];
  filled_bufs = 0;
  filled_to = 1;
  initialized_bufs = 0;
  initialized_to = 1;
}

buffers-IsPlaced : IsPlaced buffers
buffers-IsPlaced = record {
  filled_place = omega arith;
  initialized_place = omega arith;
  ordered = omega arith;
  small = omega arith;
}

ReadBufs-ReadBuf_example :
    (remaining buffers ≡ ReadBuf.remaining (flat buffers))
    × ((n : ℕ) → Refines (add_filled buffers n) (ReadBuf.add_filled (flat buffers) n))
    × ((other : List ℕ) → Refines (append buffers other) (ReadBuf.append (flat buffers) other))
    × Refines (returned (initialize_unfilled buffers)) (ReadBuf.initialize_unfilled (flat buffers))
ReadBufs-ReadBuf_example = ReadBufs-ReadBuf buffers buffers-IsPlaced

-- Two bytes, in the first and in the last buffer.
appended :
    append buffers (7 ∷ 8 ∷ [])
    ≡ returned (record {
      bufs = (some 1 ∷ some 7 ∷ []) ∷ [] ∷ (some 8 ∷ none ∷ []) ∷ [];
      filled_bufs = 2;
      filled_to = 1;
      initialized_bufs = 2;
      initialized_to = 1;
    })
unfolding append remaining assume_init add_filled set_filled add_to_index_pair
appended = refl

-- The first buffer is empty.
abbrev led : ReadBufs
led = record {
  bufs = [] ∷ (some 1 ∷ none ∷ []) ∷ [];
  filled_bufs = 1;
  filled_to = 1;
  initialized_bufs = 1;
  initialized_to = 1;
}

led-IsPlaced : IsPlaced led
led-IsPlaced = record {
  filled_place = omega arith;
  initialized_place = omega arith;
  ordered = omega arith;
  small = omega arith;
}

clear-add_filled_example :
    (add_filled (clear led) 0 ≡ panicked)
    × (flat (clear led) ≡ ReadBuf.clear (flat led))
    × (ReadBuf.add_filled (flat (clear led)) 0 ≡ returned (flat (clear led)))
clear-add_filled_example = clear-add_filled led ((some 1 ∷ none ∷ []) ∷ []) refl led-IsPlaced
