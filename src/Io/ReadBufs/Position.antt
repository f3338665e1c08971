-- ===== src/Io/ReadBufs/Position.antt =====
-- A position in a list of buffers, and its place in the bytes of all of them.
use completion.Poll.{usize_limit, wrapping_sub, wrapping_sub-le}
use completion.Common.{
  ℕ, zero, suc, ◌+◌, ◌-◌, ◌<◌, ◌≤◌, ◌≡◌, refl, sym, ap, ◌∙◌, true, false, Option, none, some, List,
  [], ◌∷◌, length, drop, get_elem?, ltb, leb, ◌==◌, arith, Bool-cases, Option-cases, zero-cases,
  gt→ne, inl, inr, ltb→lt, le→leb, lt→leb, lt→ltb, ltb→ge,
}
use completion.Io.ReadBuf.{Cell}
use completion.Io.ReadBufs.{
  ReadBufs, total, unfilled, add_loop, add_to_index_pair, leb_pair, ltb_pair, len_or_one,
}

-- A position is in a buffer that has room behind it, or behind the last buffer.
abbrev pub IsPlace : List (List Cell) → ℕ → ℕ → Type 0
IsPlace [] zero to = to ≡ 0
IsPlace [] (suc buf) to = ⊥
IsPlace (b ∷ bs) zero to = to < length b
IsPlace (b ∷ bs) (suc buf) to = IsPlace bs buf to

-- The number of bytes before the position.
abbrev pub index : List (List Cell) → ℕ → ℕ → ℕ
index bs zero to = to
index [] (suc buf) to = to
index (b ∷ bs) (suc buf) to = length b + index bs buf to

pub index_le : (bs : List (List Cell)) (buf to : ℕ) → IsPlace bs buf to → index bs buf to ≤ total bs
index_le [] zero to h = omega (arith, h)
index_le [] (suc buf) to h = absurd h
index_le (b ∷ bs) zero to h = omega (arith, h)
index_le (b ∷ bs) (suc buf) to h = omega (arith, index_le bs buf to h)

index_lt :
    (bs : List (List Cell)) (a t b u : ℕ)
    → a < b
    → IsPlace bs a t
    → IsPlace bs b u
    → index bs a t < index bs b u
index_lt bs a t zero u l h k = absurd (omega (arith, l))
index_lt [] a t (suc b) u l h k = absurd k
index_lt (x ∷ bs) zero t (suc b) u l h k = omega (arith, h)
index_lt (x ∷ bs) (suc a) t (suc b) u l h k =
    omega (arith, index_lt bs a t b u (omega (arith, l)) h k)

index-to : (bs : List (List Cell)) (a t : ℕ) → index bs a t ≡ index bs a 0 + t
index-to bs zero t = omega arith
index-to [] (suc a) t = omega arith
index-to (b ∷ bs) (suc a) t = omega (arith, index-to bs a t)

-- The first components decide, and the others where these are equal.
module _ (a t b u i j c : ℕ) (below : a < b → i < j) (above : b < a → j < i)
    (same : a ≡ b → (i ≡ c + t) × (j ≡ c + u)) where
  eqb→eq : (a == b) ≡ true → a ≡ b
  eqb→eq e = ground arith

  gt-cases : ltb a b ≡ false → (a == b) ≡ false → b < a
  gt-cases e f = ground arith

  leb_lem : leb_pair a t b u ≡ leb i j
  leb_lem = elim (Bool-cases (ltb a b)) [
    | inl e ↦ rw e (sym (le→leb i j (omega (arith, below (ltb→lt a b e)))))
    | inr e ↦ elim (Bool-cases (a == b)) [
      | inl f ↦ rw (e, f) (shifted (same (eqb→eq f)))
      | inr f ↦ rw (e, f) (sym (lt→leb i j (above (gt-cases e f))))
    ]
  ]
    where
      shifted : (i ≡ c + t) × (j ≡ c + u) → leb t u ≡ leb i j
      shifted (h, k) = rw (h, k) (ground arith)

  ltb_lem : ltb_pair a t b u ≡ ltb i j
  ltb_lem = elim (Bool-cases (ltb a b)) [
    | inl e ↦ rw e (sym (lt→ltb i j (below (ltb→lt a b e))))
    | inr e ↦ elim (Bool-cases (a == b)) [
      | inl f ↦ rw (e, f) (shifted (same (eqb→eq f)))
      | inr f ↦ rw (e, f) (sym (ge→ltb (above (gt-cases e f))))
    ]
  ]
    where
      shifted : (i ≡ c + t) × (j ≡ c + u) → ltb t u ≡ ltb i j
      shifted (h, k) = rw (h, k) (ground arith)

      ge→ltb : j < i → ltb i j ≡ false
      ge→ltb h = ground arith

same_index :
    (bs : List (List Cell)) (a t b u : ℕ)
    → a ≡ b
    → (index bs a t ≡ index bs a 0 + t) × (index bs b u ≡ index bs a 0 + u)
same_index bs a t b u e = (index-to bs a t, index-to bs b u ∙ ap (λ k. index bs k 0 + u) (sym e))

-- The order of the pairs is that of the places.
pub leb_pair-index :
    (bs : List (List Cell)) (a t b u : ℕ)
    → IsPlace bs a t
    → IsPlace bs b u
    → leb_pair a t b u ≡ leb (index bs a t) (index bs b u)
leb_pair-index bs a t b u h k =
    leb_lem a t b u (index bs a t) (index bs b u) (index bs a 0) (λ l. index_lt bs a t b u l h k)
      (λ l. index_lt bs b u a t l k h) (same_index bs a t b u)

pub ltb_pair-index :
    (bs : List (List Cell)) (a t b u : ℕ)
    → IsPlace bs a t
    → IsPlace bs b u
    → ltb_pair a t b u ≡ ltb (index bs a t) (index bs b u)
ltb_pair-index bs a t b u h k =
    ltb_lem a t b u (index bs a t) (index bs b u) (index bs a 0) (λ l. index_lt bs a t b u l h k)
      (λ l. index_lt bs b u a t l k h) (same_index bs a t b u)

pub len_or_one-IsPlace :
    (bs : List (List Cell)) (buf to : ℕ) → IsPlace bs buf to → to < len_or_one (get_elem? bs buf)
len_or_one-IsPlace [] zero to h = omega (arith, h)
len_or_one-IsPlace [] (suc buf) to h = absurd h
len_or_one-IsPlace (b ∷ bs) zero to h = h
len_or_one-IsPlace (b ∷ bs) (suc buf) to h = len_or_one-IsPlace bs buf to h

-- The position `n` bytes behind another.
abbrev pub Moved : List (List Cell) → ℕ → Option (ℕ × ℕ) → Type 0
Moved bs n none = total bs < n
Moved bs n (some (buf, to)) = IsPlace bs buf to × (index bs buf to ≡ n)

-- Positions in the buffers behind the first `buf`.
abbrev Behind : List (List Cell) → ℕ → ℕ → Option (ℕ × ℕ) → Type 0
Behind bs buf n none = total bs < n
Behind bs buf n (some (b, to)) = (k : ℕ) × ((b ≡ buf + k) × IsPlace bs k to × (index bs k to ≡ n))

add_loop-Behind : (bs : List (List Cell)) (buf n : ℕ) → Behind bs buf n (add_loop bs buf n)
add_loop-Behind [] buf n = elim (zero-cases n) [
  | inl e ↦ rw e (0, (omega arith, refl, refl))
  | inr l ↦ rw (gt→ne n l) l
]
add_loop-Behind (b ∷ bs) buf n = elim (Bool-cases (ltb n (length b))) [
  | inl e ↦ rw e (0, (omega arith, ltb→lt n (length b) e, refl))
  | inr e ↦ rw e (
      later (add_loop bs (suc buf) (n - length b)) (ltb→ge n (length b) e)
        (add_loop-Behind bs (suc buf) (n - length b)))
]
  where
    later :
        (o : Option (ℕ × ℕ))
        → length b ≤ n
        → Behind bs (suc buf) (n - length b) o
        → Behind (b ∷ bs) buf n o
    later none l h = omega (arith, l, h)
    later (some (c, to)) l (k, (e, p, q)) = (suc k, (omega (arith, e), p, omega (arith, l, q)))

-- The buffers behind one of them.
drop-IsPlace :
    (bs : List (List Cell)) (buf c k u : ℕ) (b : List Cell)
    → get_elem? bs buf ≡ some b
    → c ≡ suc buf + k
    → IsPlace (drop (suc buf) bs) k u
    → IsPlace bs c u × (index bs c u ≡ index bs buf 0 + length b + index (drop (suc buf) bs) k u)
drop-IsPlace [] buf c k u b e h p = absurd (cc)
drop-IsPlace (x ∷ bs) buf zero k u b e h p = absurd (omega (arith, h))
drop-IsPlace (x ∷ bs) zero (suc c) k u b e h p = rw same (p, omega (arith, ap length (the_value e)))
  where
    same : c ≡ k
    same = omega (arith, h)

    the_value : some x ≡ some b → x ≡ b
    the_value e = cc
drop-IsPlace (x ∷ bs) (suc buf) (suc c) k u b e h p =
    let (q, i) = drop-IsPlace bs buf c k u b e (omega (arith, h)) p in (q, omega (arith, i))

total-drop :
    (bs : List (List Cell)) (buf : ℕ) (b : List Cell)
    → get_elem? bs buf ≡ some b
    → total bs ≡ index bs buf 0 + length b + total (drop (suc buf) bs)
total-drop [] buf b e = absurd (cc)
total-drop (x ∷ bs) zero b e = omega (arith, ap length (the_value e))
  where
    the_value : some x ≡ some b → x ≡ b
    the_value e = cc
total-drop (x ∷ bs) (suc buf) b e = omega (arith, total-drop bs buf b e)

get_elem?-IsPlace :
    (bs : List (List Cell)) (buf to : ℕ) (b : List Cell)
    → get_elem? bs buf ≡ some b
    → to < length b
    → IsPlace bs buf to
get_elem?-IsPlace [] buf to b e l = absurd (cc)
get_elem?-IsPlace (x ∷ bs) zero to b e l = omega (arith, l, ap length (the_value e))
  where
    the_value : some x ≡ some b → x ≡ b
    the_value e = cc
get_elem?-IsPlace (x ∷ bs) (suc buf) to b e l = get_elem?-IsPlace bs buf to b e l

IsPlace-get_elem? :
    (bs : List (List Cell)) (buf to : ℕ) (b : List Cell)
    → get_elem? bs buf ≡ some b
    → IsPlace bs buf to
    → to < length b
IsPlace-get_elem? [] buf to b e l = absurd (cc)
IsPlace-get_elem? (x ∷ bs) zero to b e l = omega (arith, l, ap length (the_value e))
  where
    the_value : some x ≡ some b → x ≡ b
    the_value e = cc
IsPlace-get_elem? (x ∷ bs) (suc buf) to b e l = IsPlace-get_elem? bs buf to b e l

IsPlace-end :
    (bs : List (List Cell)) (buf to : ℕ)
    → get_elem? bs buf ≡ none
    → IsPlace bs buf to
    → index bs buf to ≡ total bs
IsPlace-end [] zero to e h = h
IsPlace-end [] (suc buf) to e h = absurd h
IsPlace-end (x ∷ bs) zero to e h = absurd (cc)
IsPlace-end (x ∷ bs) (suc buf) to e h = omega (arith, IsPlace-end bs buf to e h)

-- `add_to_index_pair` finds the place `n` bytes on, and fails when there are less.
pub add_to_index_pair-Moved :
    (r : ReadBufs) (buf to n : ℕ)
    → IsPlace r.bufs buf to
    → total r.bufs < usize_limit
    → Moved r.bufs (index r.bufs buf to + n) (add_to_index_pair r buf to n)
unfolding add_to_index_pair
add_to_index_pair-Moved r buf to n h small = elim (zero-cases n) [
  | inl e ↦ rw e (h, omega arith)
  | inr l ↦ elim (Option-cases (get_elem? r.bufs buf)) [
    | inl e ↦ rw (gt→ne n l, e) (omega (arith, IsPlace-end r.bufs buf to e h, l))
    | inr (b, e) ↦ elim (Bool-cases (ltb n (length b - to))) [
      | inl f ↦ rw (gt→ne n l, e, room b e, f) (within b e (ltb→lt n (length b - to) f))
      | inr f ↦
          rw (gt→ne n l, e, room b e, f)
            (behind b e (ltb→ge n (length b - to) f)
              (add_loop (drop (suc buf) r.bufs) (suc buf) (n - (length b - to)))
              (add_loop-Behind (drop (suc buf) r.bufs) (suc buf) (n - (length b - to))))
    ]
  ]
]
  where
    room :
        (b : List Cell) → get_elem? r.bufs buf ≡ some b → wrapping_sub (length b) to ≡ length b - to
    room b e =
        let inside = IsPlace-get_elem? r.bufs buf to b e h in
        wrapping_sub-le (length b) to (omega (arith, inside))
          (omega (arith, small, total-drop r.bufs buf b e))

    within :
        (b : List Cell)
        → get_elem? r.bufs buf ≡ some b
        → n < length b - to
        → IsPlace r.bufs buf (n + to) × (index r.bufs buf (n + to) ≡ index r.bufs buf to + n)
    within b e l = (
      get_elem?-IsPlace r.bufs buf (n + to) b e (omega (arith, l)),
      omega (arith, index-to r.bufs buf (n + to), index-to r.bufs buf to),
    )

    behind :
        (b : List Cell)
        → get_elem? r.bufs buf ≡ some b
        → length b - to ≤ n
        → (o : Option (ℕ × ℕ)) → Behind (drop (suc buf) r.bufs) (suc buf) (n - (length b - to)) o
        → Moved r.bufs (index r.bufs buf to + n) o
    behind b e l none k = omega (
      arith,
      k,
      l,
      total-drop r.bufs buf b e,
      index-to r.bufs buf to,
      IsPlace-get_elem? r.bufs buf to b e h,
    )
    behind b e l (some (c, u)) (k, (q, p, i)) =
        let (p', j) = drop-IsPlace r.bufs buf c k u b e q p in
        (p', omega (arith, i, j, l, index-to r.bufs buf to, IsPlace-get_elem? r.bufs buf to b e h))

-- The position behind the last buffer.
pub end-IsPlace : (bs : List (List Cell)) → IsPlace bs (length bs) 0
end-IsPlace [] = refl
end-IsPlace (b ∷ bs) = end-IsPlace bs

pub index-end : (bs : List (List Cell)) → index bs (length bs) 0 ≡ total bs
index-end [] = refl
index-end (b ∷ bs) = omega (arith, index-end bs)

pub unfilled_lem :
    (bs : List (List Cell)) (buf to : ℕ)
    → IsPlace bs buf to
    → unfilled to (drop buf bs) ≡ total bs - index bs buf to
unfilled_lem [] zero to h = omega (arith, h)
unfilled_lem [] (suc buf) to h = absurd h
unfilled_lem (b ∷ bs) zero to h = omega (arith, h)
unfilled_lem (b ∷ bs) (suc buf) to h =
    unfilled_lem bs buf to h ∙ omega (arith, index_le bs buf to h)
