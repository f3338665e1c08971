-- ===== src/Poll/Machine.antt =====
-- Polled state machines: futures and streams are functions from a state to an outcome.
use completion.Common.{ℕ, zero, suc, ◌≤◌, ◌≡◌, ◌∙◌, ap, Option, none, some, List, [], ◌∷◌, arith}
use completion.Poll.{Poll, pending, ready, Run, returned, map_state}

-- The first argument is the fuel of the loops inside the call.
abbrev pub Machine {ℓ κ} : Type ℓ → Type κ → Type (ℓ ⊔ κ)
Machine S R = ℕ → S → Run (Poll R × S)

module _ {ℓ κ} {S : Type ℓ} {R : Type κ} where
  -- With enough fuel the call returns `r`: it terminates, and does not panic.
  abbrev pub PollsTo : Machine S R → S → Poll R × S → Type (ℓ ⊔ κ)
  PollsTo m s r = (k : ℕ) × ((n : ℕ) → k ≤ n → m n s ≡ returned r)

  pub PollsTo-suc :
      (m : Machine S R) (s : S) (r : Poll R × S) (k : ℕ)
      → ((n : ℕ) → k ≤ n → m (suc n) s ≡ returned r)
      → PollsTo m s r
  PollsTo-suc m s r k h = (suc k, go)
    where
      go : (n : ℕ) → suc k ≤ n → m n s ≡ returned r
      go zero l = absurd (omega arith)
      go (suc n) l = h n (omega arith)

  -- Polled until it is ready, the future gives `r` and is left in the state `t`.
  pub data Completes (m : Machine S R) : S → R → S → Type (ℓ ⊔ κ) where
    wait : {s u t : S} {r : R} → PollsTo m s (pending, u) → Completes m u r t → Completes m s r t
    done : {s t : S} {r : R} → PollsTo m s (ready r, t) → Completes m s r t

  -- What every poll of `s` gives, every poll of `u` gives too.
  pub Completes-of_polls :
      {m : Machine S R} {s u t : S} {r : R}
      → ((p : Poll R × S) → PollsTo m s p → PollsTo m u p)
      → Completes m s r t
      → Completes m u r t
  Completes-of_polls h (wait p c) = wait (h _ p) c
  Completes-of_polls h (done p) = done (h _ p)

module _ {ℓ κ} {S : Type ℓ} {A : Type κ} where
  -- Polled until it ends, the stream gives the items of the list in order.
  pub data Yields (m : Machine S (Option A)) : S → List A → Type (ℓ ⊔ κ) where
    wait : {s u : S} {xs : List A} → PollsTo m s (pending, u) → Yields m u xs → Yields m s xs
    item :
        {s u : S} {x : A} {xs : List A}
        → PollsTo m s (ready (some x), u)
        → Yields m u xs
        → Yields m s (x ∷ xs)
    done : {s u : S} → PollsTo m s (ready none, u) → Yields m s []

  -- In some polls the stream gives the items of the list, and is then in the state `u`.
  pub data Emits (m : Machine S (Option A)) : S → List A → S → Type (ℓ ⊔ κ) where
    stop : {s : S} → Emits m s [] s
    wait : {s u v : S} {xs : List A} → PollsTo m s (pending, u) → Emits m u xs v → Emits m s xs v
    item :
        {s u v : S} {x : A} {xs : List A}
        → PollsTo m s (ready (some x), u)
        → Emits m u xs v
        → Emits m s (x ∷ xs) v

  pub Yields-of_polls :
      {m : Machine S (Option A)} {s u : S} {xs : List A}
      → ((p : Poll (Option A) × S) → PollsTo m s p → PollsTo m u p)
      → Yields m s xs
      → Yields m u xs
  Yields-of_polls h (Yields.wait p y) = Yields.wait (h _ p) y
  Yields-of_polls h (Yields.item p y) = Yields.item (h _ p) y
  Yields-of_polls h (Yields.done p) = Yields.done (h _ p)

  -- Polled until it ends, the stream gives the items of the list, and is left in the state `t`.
  pub data Finishes (m : Machine S (Option A)) : S → List A → S → Type (ℓ ⊔ κ) where
    wait :
        {s u t : S} {xs : List A} → PollsTo m s (pending, u) → Finishes m u xs t → Finishes m s xs t
    item :
        {s u t : S} {x : A} {xs : List A}
        → PollsTo m s (ready (some x), u)
        → Finishes m u xs t
        → Finishes m s (x ∷ xs) t
    done : {s t : S} → PollsTo m s (ready none, t) → Finishes m s [] t

  pub Finishes-of_polls :
      {m : Machine S (Option A)} {s u t : S} {xs : List A}
      → ((p : Poll (Option A) × S) → PollsTo m s p → PollsTo m u p)
      → Finishes m s xs t
      → Finishes m u xs t
  Finishes-of_polls h (Finishes.wait p y) = Finishes.wait (h _ p) y
  Finishes-of_polls h (Finishes.item p y) = Finishes.item (h _ p) y
  Finishes-of_polls h (Finishes.done p) = Finishes.done (h _ p)

-- A machine whose state holds that of another, and which passes its results on.
module _ {ℓ κ μ} {S : Type ℓ} {T : Type μ} {R : Type κ} (wrap : S → T) (inner : Machine S R)
    (outer : Machine T R)
    (passes : (n : ℕ) (s : S) → outer n (wrap s) ≡ map_state wrap (inner n s)) where
  PollsTo-map_state :
      {s u : S} {p : Poll R} → PollsTo inner s (p, u) → PollsTo outer (wrap s) (p, wrap u)
  PollsTo-map_state {s} (k, h) = (k, λ n l. passes n s ∙ ap (map_state wrap) (h n l))

  pub Completes-map_state :
      {s u : S} {r : R} → Completes inner s r u → Completes outer (wrap s) r (wrap u)
  Completes-map_state (Completes.wait p c) =
      Completes.wait (PollsTo-map_state p) (Completes-map_state c)
  Completes-map_state (Completes.done p) = Completes.done (PollsTo-map_state p)

module _ {ℓ κ μ} {S : Type ℓ} {T : Type μ} {A : Type κ} (wrap : S → T)
    (inner : Machine S (Option A)) (outer : Machine T (Option A))
    (passes : (n : ℕ) (s : S) → outer n (wrap s) ≡ map_state wrap (inner n s)) where
  pub Yields-map_state : {s : S} {xs : List A} → Yields inner s xs → Yields outer (wrap s) xs
  Yields-map_state (Yields.wait p y) =
      Yields.wait (PollsTo-map_state wrap inner outer passes p) (Yields-map_state y)
  Yields-map_state (Yields.item p y) =
      Yields.item (PollsTo-map_state wrap inner outer passes p) (Yields-map_state y)
  Yields-map_state (Yields.done p) = Yields.done (PollsTo-map_state wrap inner outer passes p)
