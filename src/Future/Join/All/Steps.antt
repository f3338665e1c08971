-- ===== src/Future/Join/All/Steps.antt =====
-- `new`, and a wake of a running future.
use completion.Common.{
  ℕ, suc, ◌≡◌, ◌<◌, refl, sym, ap, ◌∙◌, subst, true, false, some, List, [], ◌∷◌, ◌++◌, length,
  get_elem?, get_elem?-some, get_elem?-lt, length-replicate, map, All, All-append, ◌⊎◌, inl, inr,
  Each,
}
use completion.Poll.{returned}
use completion.Future.Join.{ControlFlowFuture, FutureState}
use completion.Future.Join.All.Queue.{Woken, wake_lem}
use completion.Future.Join.All.Wakes.{new-fresh, fresh-IsQueued}
use completion.Future.Join.All.History.{Polled, IsJoined}
use completion.Future.Join.All.Rounds.{IsOpen, IsFit, IsCounted}
use completion.Future.Join.All.Results.{IsRunning}
use completion.Future.Join.All.{Shared, JoinAll, new, wake}

module _ {Q W F B C P : Type 0} (shared : Shared Q W) (fut : ControlFlowFuture F B C P)
    (futures : List F) where
  abbrev started : List F → List (FutureState F C)
  started futures = map FutureState.running futures

  map-IsJoined :
      (P : ℕ → FutureState F C → Type 0) (fs : List F)
      → ((i : ℕ) (f : F) → get_elem? fs i ≡ some f → P i (FutureState.running f))
      → Each P (started fs)
  map-IsJoined P [] h = tt
  map-IsJoined P (f ∷ fs) h =
      (h 0 f refl, map-IsJoined (λ i. P (suc i)) fs (λ i f e. h (suc i) f e))

  length-map-running : (futures : List F) → length (started futures) ≡ length futures
  length-map-running [] = refl
  length-map-running (f ∷ futures) = ap suc (length-map-running futures)

  pub new-IsRunning :
      (s : JoinAll Q W F B C P)
      → 0 < length futures
      → new shared futures ≡ returned s
      → IsRunning shared fut futures s
  new-IsRunning s h e =
      let (q, (g, c, k)) = new-fresh shared futures s h e in
      subst (IsRunning shared fut futures) g (record {
        running = refl;
        whole = length-map-running futures;
        rounds = inr (
          record {
            is_queued = fresh-IsQueued shared futures q c k;
            same_length =
                length-replicate (length futures) false ∙ sym (length-map-running futures);
            fine = map-IsJoined (IsJoined fut futures) futures (λ i f e. (f, (e, Polled.begun)));
          },
          refl,
          c,
        );
      })

  module _ (Fine : ℕ → FutureState F C → Type 0) (i : ℕ) (s : JoinAll Q W F B C P) where
    abbrev pub woken_state : JoinAll Q W F B C P → JoinAll Q W F B C P
    woken_state t = record s { to_poll = t.to_poll; waker = t.waker; notified = t.notified }

    pub wake-IsCounted :
        (t : JoinAll Q W F B C P)
        → IsCounted shared Fine s
        → IsOpen s.futures i
        → Woken shared i s t
        → IsCounted shared Fine (woken_state t)
    wake-IsCounted t c o w = record {
      fit = record {
        is_queued = record { marks = w.is_queued.marks; room = w.is_queued.room };
        same_length = w.same_flags ∙ c.fit.same_length;
        fine = c.fit.fine;
      };
      once = c.once;
      count = c.count;
      woken_running = is_open w.queue c.woken_running;
    }
      where
        is_open :
            ((get_elem? s.notified i ≡ some true)
                × (shared.contents t.to_poll ≡ shared.contents s.to_poll))
              ⊎ (shared.contents t.to_poll ≡ shared.contents s.to_poll ++ (i ∷ []))
            → All (IsOpen s.futures) (shared.contents s.to_poll)
            → All (IsOpen s.futures) (shared.contents t.to_poll)
        is_open (inl (h, e)) k = subst (All (IsOpen s.futures)) (sym e) k
        is_open (inr e) k =
            subst (All (IsOpen s.futures)) (sym e)
              (All-append (IsOpen s.futures) (shared.contents s.to_poll) (i ∷ []) k (o, tt))

    -- A wake that returns is the wake of `wake_lem`.
    pub wake-returned :
        (t : JoinAll Q W F B C P)
        → IsFit shared Fine s
        → IsOpen s.futures i
        → wake shared i s ≡ returned t
        → Woken shared i s t
    wake-returned t fit o e =
        let (st, (g, z)) = o in
        let (b, k) =
          get_elem?-some i s.notified
            (subst (i <◌) (sym fit.same_length) (get_elem?-lt i s.futures st g)) in
        let (u, (q, w)) = wake_lem shared i s b fit.is_queued k in
        subst (Woken shared i s) (the_value u q) w
      where
        the_value : (u : JoinAll Q W F B C P) → wake shared i s ≡ returned u → u ≡ t
        the_value u q = cc
