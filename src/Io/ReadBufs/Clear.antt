-- ===== src/Io/ReadBufs/Clear.antt =====
-- New `ReadBufs`, and what `clear` leaves.
use completion.Common.{
  ℕ, suc, ◌<◌, ◌≡◌, refl, ap, List, [], ◌∷◌, map, some, arith, le→leb, Bool-cases, inl, inr,
}
use completion.Poll.{panicked, returned, usize_limit}
use completion.Io.ReadBuf.{Cell}
use completion.Io.ReadBuf as ReadBuf
use completion.Io.ReadBufs.{
  ReadBufs, uninit, total, first_nonempty, clear, add_filled, set_filled, add_to_index_pair,
  leb_pair,
}
use completion.Io.ReadBufs.Position.{IsPlace, index}
use completion.Io.ReadBufs.Flat.{flat, IsPlaced}

first_nonempty-IsPlace : (bs : List (List Cell)) → IsPlace bs (first_nonempty bs) 0
first_nonempty-IsPlace [] = refl
first_nonempty-IsPlace ([] ∷ bs) = first_nonempty-IsPlace bs
first_nonempty-IsPlace ((c ∷ cs) ∷ bs) = omega arith

first_nonempty-map :
    (bs : List (List ℕ)) → first_nonempty bs ≡ first_nonempty (map (map {B = Cell} some) bs)
first_nonempty-map [] = refl
first_nonempty-map ([] ∷ bs) = ap suc (first_nonempty-map bs)
first_nonempty-map ((c ∷ cs) ∷ bs) = refl

pub uninit-IsPlaced : (bufs : List (List Cell)) → total bufs < usize_limit → IsPlaced (uninit bufs)
unfolding uninit
uninit-IsPlaced bufs l = record {
  filled_place = first_nonempty-IsPlace bufs;
  initialized_place = first_nonempty-IsPlace bufs;
  ordered = omega arith;
  small = l;
}

-- Of a valid `ReadBufs` whose first buffer is empty, `clear` leaves one on which `add_filled(0)`
-- panics, although it stands for a `ReadBuf` on which `add_filled(0)` returns.
pub clear-add_filled :
    (r : ReadBufs) (bufs : List (List Cell))
    → r.bufs ≡ [] ∷ bufs
    → IsPlaced r
    → (add_filled (clear r) 0 ≡ panicked)
      × (flat (clear r) ≡ ReadBuf.clear (flat r))
      × (ReadBuf.add_filled (flat (clear r)) 0 ≡ returned (flat (clear r)))
unfolding add_filled add_to_index_pair clear set_filled flat ReadBuf.clear ReadBuf.add_filled
    ReadBuf.set_filled
clear-add_filled r bufs e v = (panics r.bufs e, refl, rw (le→leb 0 initialized (omega arith)) refl)
  where
    initialized : ℕ
    initialized = index r.bufs r.initialized_bufs r.initialized_to

    panics :
        (bs : List (List Cell))
        → bs ≡ [] ∷ bufs
        → set_filled (record r { bufs = bs; filled_bufs = 0; filled_to = 0 }) 0 0 ≡ panicked
    panics [] h = absurd (cc)
    panics ((c ∷ cs) ∷ bs) h = absurd (cc)
    panics ([] ∷ bs) h = elim (Bool-cases (leb_pair 0 0 r.initialized_bufs r.initialized_to)) [
      | inl e ↦ rw e refl
      | inr e ↦ rw e refl
    ]
