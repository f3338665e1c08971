-- ===== src/Poll/Loop.antt =====
-- `loop { match ready!(stream.poll_next(cx)) { … } }`, the loop that most adapters and futures of
-- streams run, and what it does on a stream that yields a list.
use completion.Common.{
  ℕ, zero, suc, subst, ◌+◌, ◌≡◌, refl, ◌⊎◌, inl, inr, Option, none, some, List, [], ◌∷◌, arith,
}
use completion.Poll.{Poll, pending, ready, out_of_fuel, returned, ready_then, map_state}
use completion.Poll.Machine.{
  Machine, PollsTo, PollsTo-suc, Yields, Yields-of_polls, Completes, Completes-of_polls,
  Completes-map_state,
}

-- How one round of the loop ends: with new local variables, or with the result of the call.
pub data Flow {ℓ κ} (R : Type ℓ) (X : Type κ) : Type (ℓ ⊔ κ) where
  continue : X → Flow R X
  break : R → X → Flow R X

Flow-cases {ℓ κ} :
    {R : Type ℓ} {X : Type κ} (f : Flow R X)
    → ((x : X) × (f ≡ continue x)) ⊎ ((r : R) × (x : X) × (f ≡ break r x))
Flow-cases (continue x) = inl (x, refl)
Flow-cases (break r x) = inr (r, x, refl)

-- The stream goes on with the items of the list, if there is one.
abbrev pub Leaves {ℓ κ} :
    {S : Type ℓ} {A : Type κ} → Machine S (Option A) → S → Option (List A) → Type (ℓ ⊔ κ)
Leaves next u none = Unit
Leaves next u (some xs) = Yields next u xs

module _ {ℓ κ μ ν} {S : Type ℓ} {A : Type κ} {R : Type μ} {X : Type ν} (next : Machine S (Option A))
    (on_item : A → X → Flow R X) (on_end : X → R × X) where
  unfoldable pub loop_items : Machine (S × X) R
  loop_items zero (s, x) = out_of_fuel
  loop_items (suc n) (s, x) =
      ready_then (next n s) (λ u. (u, x))
        λ found u. elim found [
          | none ↦ returned (ready (on_end x).0, (u, (on_end x).1))
          | some a ↦ elim (on_item a x) [
            | continue x' ↦ loop_items n (u, x')
            | break r x' ↦ returned (ready r, (u, x'))
          ]
        ]

  polls_pending :
      {s u : S} (x : X) → PollsTo next s (pending, u) → PollsTo loop_items (s, x) (pending, (u, x))
  unfolding loop_items
  polls_pending x p = PollsTo-suc loop_items _ _ p.0 (λ n h. rw (p.1 n h, ready_then))

  polls_end :
      {s u : S} (x : X)
      → PollsTo next s (ready none, u)
      → PollsTo loop_items (s, x) (ready (on_end x).0, (u, (on_end x).1))
  unfolding loop_items
  polls_end x p = PollsTo-suc loop_items _ _ p.0 (λ n h. rw (p.1 n h, ready_then))

  polls_break :
      {s u : S} {a : A} {x x' : X} {r : R}
      → PollsTo next s (ready (some a), u)
      → on_item a x ≡ break r x'
      → PollsTo loop_items (s, x) (ready r, (u, x'))
  unfolding loop_items
  polls_break p e = PollsTo-suc loop_items _ _ p.0 (λ n h. rw (p.1 n h, ready_then) (rw e))

  polls_continue :
      {s u : S} {a : A} {x x' : X}
      → PollsTo next s (ready (some a), u)
      → on_item a x ≡ continue x'
      → (r : Poll R × (S × X)) → PollsTo loop_items (u, x') r
      → PollsTo loop_items (s, x) r
  unfolding loop_items
  polls_continue p e r q =
      PollsTo-suc loop_items _ _ (p.0 + q.0)
        (λ n h. rw (p.1 n (omega arith), ready_then) (rw e (q.1 n (omega arith))))

  -- The loop over a list: its result, its last variables, and the items that it left, unless the
  -- list ended.
  unfoldable pub run_items : X → List A → R × X × Option (List A)
  run_items x [] = ((on_end x).0, (on_end x).1, none)
  run_items x (a ∷ xs) = elim (on_item a x) [
    | continue x' ↦ run_items x' xs
    | break r x' ↦ (r, x', some xs)
  ]

  -- The loop completes with the result of the list, and leaves the rest of the stream.
  pub loop_items-Completes :
      {s : S} {xs : List A} (x : X)
      → Yields next s xs
      → (u : S) × Completes loop_items (s, x) (run_items x xs).0 (u, (run_items x xs).1)
        × Leaves next u (run_items x xs).2
  unfolding run_items
  loop_items-Completes x (Yields.wait p y) =
      let (u, c, l) = loop_items-Completes x y in (u, Completes.wait (polls_pending x p) c, l)
  loop_items-Completes x (Yields.item {u = v} {x = a} p y) = elim (Flow-cases (on_item a x)) [
    | inl (x', e) ↦
        (let (u, c, l) = loop_items-Completes x' y in
          rw (e, run_items) (u, Completes-of_polls (polls_continue p e) c, l))
    | inr (r, x', e) ↦ rw (e, run_items) (v, Completes.done (polls_break p e), y)
  ]
  loop_items-Completes x (Yields.done {u = v} p) = (v, Completes.done (polls_end x p), tt)

-- A future whose state holds that of the loop, on a list that leads to the result `r`.
module _ {ℓ κ μ ν ο} {S : Type ℓ} {A : Type κ} {R : Type μ} {X : Type ν} {T : Type ο}
    (next : Machine S (Option A)) (on_item : A → X → Flow R X) (on_end : X → R × X)
    (wrap : S × X → T) (outer : Machine T R)
    (passes : (n : ℕ) (z : S × X)
      → outer n (wrap z) ≡ map_state wrap (loop_items next on_item on_end n z)) where
  pub loop-Completes :
      {s : S} {xs : List A} (x : X) {r : R} {rest : Option (List A)}
      → Yields next s xs
      → (run_items next on_item on_end x xs).0 ≡ r
      → (run_items next on_item on_end x xs).2 ≡ rest
      → (v : S) × (x' : X) × Completes outer (wrap (s, x)) r (wrap (v, x')) × Leaves next v rest
  loop-Completes {s} {xs} x y e f =
      let (v, c, l) = loop_items-Completes next on_item on_end x y in
      (
        v,
        (run_items next on_item on_end x xs).1,
        subst
            (λ q.
              Completes outer (wrap (s, x)) q (wrap (v, (run_items next on_item on_end x xs).1)))
            e (Completes-map_state wrap _ outer passes c),
        subst (Leaves next v) f l,
      )

module _ {ℓ κ μ ν} {S : Type ℓ} {A : Type κ} {B : Type μ} {X : Type ν} (next : Machine S (Option A))
    (on_item : A → X → Flow (Option B) X) (end : X → X) where
  -- What a stream whose `poll_next` is the loop gives for a list of items.
  unfoldable pub emit_items : X → List A → List B
  emit_items x [] = []
  emit_items x (a ∷ xs) = elim (on_item a x) [
    | continue x' ↦ emit_items x' xs
    | break none x' ↦ []
    | break (some b) x' ↦ b ∷ emit_items x' xs
  ]

  abbrev loop : Machine (S × X) (Option B)
  loop = loop_items next on_item (λ x. (none, end x))

  pub loop_items-Yields :
      {s : S} {xs : List A} (x : X) → Yields next s xs → Yields loop (s, x) (emit_items x xs)
  unfolding emit_items
  loop_items-Yields x (Yields.wait p y) =
      Yields.wait (polls_pending next on_item _ x p) (loop_items-Yields x y)
  loop_items-Yields x (Yields.item {x = a} p y) = elim (Flow-cases (on_item a x)) [
    | inl (x', e) ↦
        rw (e, emit_items)
          (Yields-of_polls (polls_continue next on_item _ p e) (loop_items-Yields x' y))
    | inr (none, x', e) ↦ rw (e, emit_items) (Yields.done (polls_break next on_item _ p e))
    | inr (some b, x', e) ↦
        rw (e, emit_items) (Yields.item (polls_break next on_item _ p e) (loop_items-Yields x' y))
  ]
  loop_items-Yields x (Yields.done p) = Yields.done (polls_end next on_item _ x p)
