-- ===== src/Stream/Unfold.antt =====
-- src/stream/unfold.rs: `unfold` and `try_unfold`, streams that an asynchronous closure makes from a
-- seed.
use completion.Common.{ℕ, ◌≡◌, refl, ◌∙◌, Option, none, some, List, [], ◌∷◌, Result, ok, err}
use completion.Poll.{Poll, ready, Run, panicked, returned, ready_then, map_state}
use completion.Poll.Machine.{Machine, Completes, Finishes, Finishes-of_polls, PollsTo}
use completion.Stream.{CompletionStream}

pub record Unfold {ℓ} (T F G : Type ℓ) : Type ℓ where
  pub state : Option T
  pub f : F
  pub fut : Option G

pub record TryUnfold {ℓ} (T F G : Type ℓ) : Type ℓ where
  pub state : Option T
  pub f : F
  pub fut : Option G

abbrev pub low_hint {ℓ κ} : {T : Type ℓ} {G : Type κ} → Option T → Option G → ℕ × Option ℕ
low_hint none none = (0, some 0)
low_hint none (some g) = (0, none)
low_hint (some s) fut = (0, none)

module _ {ℓ} {T A F G : Type ℓ} (call : F → T → G × F) (poll : Machine G (Option (A × T)))
    (cancel : Machine G (Unit {0})) where
  abbrev pub unfold_from : T → F → Unfold T F G
  unfold_from seed f = record { state = some seed; f = f; fut = none }

  -- The state is taken, and a future is made of it.
  unfoldable start : Unfold T F G → Unfold T F G
  start t = elim t.state [
    | none ↦ t
    | some s ↦ let (g, f') = call t.f s in record { state = none; f = f'; fut = some g }
  ]

  abbrev finish : Unfold T F G → Option (A × T) → Run (Poll (Option A) × Unfold T F G)
  finish t none = returned (ready none, record t { fut = none })
  finish t (some (item, next_state)) =
      returned (ready (some item), record t { state = some next_state; fut = none })

  unfoldable unfold_next : Machine (Unfold T F G) (Option A)
  unfolding start
  unfold_next n t =
      let started = start t in
      elim started.fut [
        | none ↦ panicked
        | some g ↦
            ready_then (poll n g) (λ g'. record started { fut = some g' })
              (λ step g'. finish started step)
      ]

  pub unfold_stream : CompletionStream (Unfold T F G) A
  unfold_stream = record {
    poll_next = unfold_next;
    poll_cancel = λ n t. elim t.fut [
      | some g ↦ map_state (λ g'. record t { fut = some g' }) (cancel n g)
      | none ↦ returned (ready tt, t)
    ];
    size_hint = λ t. low_hint t.state t.fut;
  }

  -- The futures that the closure makes, each of the state that the one before left, complete with
  -- the items of the list, and then with none.
  pub data Produces : F → T → List A → F → Type ℓ where
    last :
        {f f' : F} {s : T} {g g' : G}
        → call f s ≡ (g, f')
        → Completes poll g none g'
        → Produces f s [] f'
    more :
        {f f' e : F} {s s' : T} {g g' : G} {x : A} {xs : List A}
        → call f s ≡ (g, f')
        → Completes poll g (some (x, s')) g'
        → Produces f' s' xs e
        → Produces f s (x ∷ xs) e

  abbrev pub at : Option T → Option G → F → Unfold T F G
  at s g f = record { state = s; f = f; fut = g }

  begins :
      {f f' : F} {s : T} {g : G} {xs : List A} {t : Unfold T F G}
      → call f s ≡ (g, f')
      → Finishes unfold_next (at none (some g) f') xs t
      → Finishes unfold_next (unfold_from s f) xs t
  unfolding unfold_next start
  begins e y = Finishes-of_polls (λ r q. (q.0, λ n l. rw e (q.1 n l))) y

  ends :
      {f : F} {g g' : G}
      → Completes poll g none g'
      → Finishes unfold_next (at none (some g) f) [] (at none none f)
  unfolding unfold_next start
  ends {f = f} (Completes.wait {u = u} p c) =
      Finishes.wait {u = at none (some u) f} (p.0, λ n l. rw (p.1 n l, ready_then)) (ends c)
  ends (Completes.done p) = Finishes.done (p.0, λ n l. rw (p.1 n l, ready_then))

  gives :
      {f : F} {g g' : G} {x : A} {s : T} {xs : List A} {t : Unfold T F G}
      → Completes poll g (some (x, s)) g'
      → Finishes unfold_next (unfold_from s f) xs t
      → Finishes unfold_next (at none (some g) f) (x ∷ xs) t
  unfolding unfold_next start
  gives {f = f} (Completes.wait {u = u} p c) y =
      Finishes.wait {u = at none (some u) f} (p.0, λ n l. rw (p.1 n l, ready_then)) (gives c y)
  gives (Completes.done p) y = Finishes.item (p.0, λ n l. rw (p.1 n l, ready_then)) y

  unfold-Finishes :
      {f e : F} {s : T} {xs : List A}
      → Produces f s xs e
      → Finishes unfold_next (unfold_from s f) xs (at none none e)
  unfold-Finishes (last e c) = begins e (ends c)
  unfold-Finishes (more e c p) = begins e (gives c (unfold-Finishes p))

  unfold-Ends :
      {f e : F} {s : T} {xs : List A}
      → Produces f s xs e
      → Finishes unfold_stream.poll_next (unfold_from s f) xs (at none none e)
        × (unfold_stream.size_hint (at none none e) ≡ (0, some 0))
        × ((n : ℕ) → unfold_stream.poll_next n (at none none e) ≡ panicked)
  unfolding unfold_stream unfold_next start
  unfold-Ends p = (unfold-Finishes p, refl, λ n. refl)

module _ {ℓ} {T A F G E : Type ℓ} (call : F → T → G × F)
    (poll : Machine G (Result (Option (A × T)) E)) (cancel : Machine G (Unit {0})) where
  abbrev pub try_unfold : T → F → TryUnfold T F G
  try_unfold seed f = record { state = some seed; f = f; fut = none }

  -- The state is taken, and a future is made of it.
  unfoldable try_start : TryUnfold T F G → TryUnfold T F G
  try_start t = elim t.state [
    | none ↦ t
    | some s ↦ let (g, f') = call t.f s in record { state = none; f = f'; fut = some g }
  ]

  abbrev try_finish :
      TryUnfold T F G
      → Result (Option (A × T)) E
      → Run (Poll (Option (Result A E)) × TryUnfold T F G)
  try_finish t (ok (some (item, next_state))) =
      returned (ready (some (ok item)), record t { state = some next_state; fut = none })
  try_finish t (ok none) = returned (ready none, record t { fut = none })
  try_finish t (err e) = returned (ready (some (err e)), record t { fut = none })

  unfoldable try_unfold_next : Machine (TryUnfold T F G) (Option (Result A E))
  unfolding try_start
  try_unfold_next n t =
      let started = try_start t in
      elim started.fut [
        | none ↦ returned (ready none, started)
        | some g ↦
            ready_then (poll n g) (λ g'. record started { fut = some g' })
              (λ step g'. try_finish started step)
      ]

  pub try_unfold_stream : CompletionStream (TryUnfold T F G) (Result A E)
  try_unfold_stream = record {
    poll_next = try_unfold_next;
    poll_cancel = λ n t. elim t.fut [
      | some g ↦ map_state (λ g'. record t { fut = some g' }) (cancel n g)
      | none ↦ returned (ready tt, t)
    ];
    size_hint = λ t. low_hint t.state t.fut;
  }

  -- The futures that the closure makes, each of the state that the one before left, complete with
  -- the items of the list, and then with none or with an error, which ends the list.
  pub data Attempts : F → T → List (Result A E) → F → Type ℓ where
    last :
        {f f' : F} {s : T} {g g' : G}
        → call f s ≡ (g, f')
        → Completes poll g (ok none) g'
        → Attempts f s [] f'
    failed :
        {f f' : F} {s : T} {g g' : G} {e : E}
        → call f s ≡ (g, f')
        → Completes poll g (err e) g'
        → Attempts f s (err e ∷ []) f'
    more :
        {f f' e : F} {s s' : T} {g g' : G} {x : A} {xs : List (Result A E)}
        → call f s ≡ (g, f')
        → Completes poll g (ok (some (x, s'))) g'
        → Attempts f' s' xs e
        → Attempts f s (ok x ∷ xs) e

  abbrev pub try_at : Option T → Option G → F → TryUnfold T F G
  try_at s g f = record { state = s; f = f; fut = g }

  try_begins :
      {f f' : F} {s : T} {g : G} {xs : List (Result A E)} {t : TryUnfold T F G}
      → call f s ≡ (g, f')
      → Finishes try_unfold_next (try_at none (some g) f') xs t
      → Finishes try_unfold_next (try_unfold s f) xs t
  unfolding try_unfold_next try_start
  try_begins e y = Finishes-of_polls (λ r q. (q.0, λ n l. rw e (q.1 n l))) y

  try_ends :
      {f : F} {g g' : G}
      → Completes poll g (ok none) g'
      → Finishes try_unfold_next (try_at none (some g) f) [] (try_at none none f)
  unfolding try_unfold_next try_start
  try_ends {f = f} (Completes.wait {u = u} p c) =
      Finishes.wait {u = try_at none (some u) f} (p.0, λ n l. rw (p.1 n l, ready_then)) (try_ends c)
  try_ends (Completes.done p) = Finishes.done (p.0, λ n l. rw (p.1 n l, ready_then))

  -- Once the future is ready, with an item or an error, the stream goes on from the state `v`.
  try_gives :
      {f : F} {g g' : G} {r : Result (Option (A × T)) E} {x : Result A E} {xs : List (Result A E)}
      {v t : TryUnfold T F G}
      → Completes poll g r g'
      → try_finish (try_at none (some g) f) r ≡ returned (ready (some x), v)
      → Finishes try_unfold_next v xs t
      → Finishes try_unfold_next (try_at none (some g) f) (x ∷ xs) t
  unfolding try_unfold_next try_start
  try_gives {f = f} {r = r} (Completes.wait {s = g} {u = u} p c) e y =
      Finishes.wait {u = try_at none (some u) f} (p.0, λ n l. rw (p.1 n l, ready_then))
        (try_gives c (same r ∙ e) y)
    where
      same :
          (r : Result (Option (A × T)) E)
          → try_finish (try_at none (some u) f) r ≡ try_finish (try_at none (some g) f) r
      same (ok none) = refl
      same (ok (some (x, s))) = refl
      same (err e) = refl
  try_gives (Completes.done p) e y = Finishes.item (p.0, λ n l. rw (p.1 n l, ready_then) e) y

  -- A stream that has ended, or failed, ends again.
  ended : (f : F) → PollsTo try_unfold_next (try_at none none f) (ready none, try_at none none f)
  unfolding try_unfold_next try_start
  ended f = (0, λ n l. refl)

  try_unfold-Finishes :
      {f e : F} {s : T} {xs : List (Result A E)}
      → Attempts f s xs e
      → Finishes try_unfold_next (try_unfold s f) xs (try_at none none e)
  try_unfold-Finishes (last e c) = try_begins e (try_ends c)
  try_unfold-Finishes (failed {f' = f'} e c) =
      try_begins e (try_gives c refl (Finishes.done (ended f')))
  try_unfold-Finishes (more e c p) = try_begins e (try_gives c refl (try_unfold-Finishes p))

  try_unfold-Ends :
      {f e : F} {s : T} {xs : List (Result A E)}
      → Attempts f s xs e
      → Finishes try_unfold_stream.poll_next (try_unfold s f) xs (try_at none none e)
        × (try_unfold_stream.size_hint (try_at none none e) ≡ (0, some 0))
        × PollsTo try_unfold_stream.poll_next (try_at none none e) (ready none, try_at none none e)
  unfolding try_unfold_stream
  try_unfold-Ends {e = e} p = (try_unfold-Finishes p, refl, ended e)

-- If the futures of the closures, each made of the state that the one before left, complete with
-- the items of a list and then with none, both streams give these items and end; that of
-- `try_unfold` also passes on an error, as its last item. After the end the size hints are those
-- of no items; a further poll panics for `unfold`, and ends again for `try_unfold`.
pub unfold_lem {ℓ} :
    {T A F G T' A' F' G' E : Type ℓ} (call : F → T → G × F) (poll : Machine G (Option (A × T)))
    (cancel : Machine G (Unit {0})) (call' : F' → T' → G' × F')
    (poll' : Machine G' (Result (Option (A' × T')) E)) (cancel' : Machine G' (Unit {0})) {f e : F}
    {s : T} {xs : List A} {f' e' : F'} {s' : T'} {ys : List (Result A' E)}
    → Produces call poll cancel f s xs e
    → Attempts call' poll' cancel' f' s' ys e'
    → (Finishes
          (unfold_stream call poll cancel).poll_next
          (unfold_from call poll cancel s f)
          xs
          (at call poll cancel none none e)
        × ((unfold_stream call poll cancel).size_hint (at call poll cancel none none e)
            ≡ (0, some 0))
        × ((n : ℕ)
            → (unfold_stream call poll cancel).poll_next n (at call poll cancel none none e)
              ≡ panicked))
      × (Finishes
            (try_unfold_stream call' poll' cancel').poll_next
            (try_unfold call' poll' cancel' s' f')
            ys
            (try_at call' poll' cancel' none none e')
          × ((try_unfold_stream call' poll' cancel').size_hint
                (try_at call' poll' cancel' none none e')
              ≡ (0, some 0))
          × PollsTo
              (try_unfold_stream call' poll' cancel').poll_next
              (try_at call' poll' cancel' none none e')
              (ready none, try_at call' poll' cancel' none none e'))
unfold_lem call poll cancel call' poll' cancel' p q =
    (unfold-Ends call poll cancel p, try_unfold-Ends call' poll' cancel' q)
