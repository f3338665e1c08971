-- ===== src/Future/Join/All/Variants.antt =====
-- src/future/join/all/zip.rs, try_zip.rs, race.rs and race_ok.rs: the futures made of a `JoinAll`.
use completion.Common.{
  ℕ, ◌+◌, ◌<◌, ◌≡◌, ◌⊎◌, inl, inr, ap, List, [], ◌∷◌, length, Result, ok, err, arith, Matches,
}
use completion.Poll.{Poll, pending, ready, Run, panicked, returned, ◌>>=◌}
use completion.Future.Join.{ControlFlow, break, continue, FutureState}
use completion.Future.Join.Futures.{
  JoinedFuture, zip_future, try_zip_future, race_future, race_ok_future,
}
use completion.Future.Join.All.Settled.{settled}
use completion.Future.Join.All.History.{Continues, Ended, Broke}
use completion.Future.Join.All.Joined.{IsQuiet}
use completion.Future.Join.All.Results.{JoinResult}
use completion.Future.Join.All.Runs.{Runs, Cancels, Runs-one, Cancels-one, poll-JoinResult}
use completion.Future.Join.All.{Shared, JoinAll, poll}

module _ {Q W F P : Type 0} (shared : Shared Q W) where
  module _ {R : Type 0} (fut : JoinedFuture F R P) where
    abbrev zipped :
        Poll (ControlFlow ⊥ (List (FutureState F R))) × JoinAll Q W F ⊥ R P
        → Run (Poll (List (FutureState F R)) × JoinAll Q W F ⊥ R P)
    zipped (pending, s) = returned (pending, s)
    zipped (ready (continue val), s) = returned (ready val, s)
    zipped (ready (break never), s) = absurd never

    unfoldable pub zip_all_poll :
        ℕ → JoinAll Q W F ⊥ R P → Run (Poll (List (FutureState F R)) × JoinAll Q W F ⊥ R P)
    zip_all_poll n s = poll shared (zip_future fut) n s >>= zipped

    abbrev raced :
        Poll (ControlFlow R (List (FutureState F ⊥))) × JoinAll Q W F R ⊥ P
        → Run (Poll R × JoinAll Q W F R ⊥ P)
    raced (pending, s) = returned (pending, s)
    raced (ready (continue outs), s) = panicked
    raced (ready (break val), s) = returned (ready val, s)

    unfoldable pub race_all_poll : ℕ → JoinAll Q W F R ⊥ P → Run (Poll R × JoinAll Q W F R ⊥ P)
    race_all_poll n s = poll shared (race_future fut) n s >>= raced

  module _ {T E : Type 0} (fut : JoinedFuture F (Result T E) P) where
    abbrev try_zipped :
        Poll (ControlFlow E (List (FutureState F T))) × JoinAll Q W F E T P
        → Run (Poll (Result (List (FutureState F T)) E) × JoinAll Q W F E T P)
    try_zipped (pending, s) = returned (pending, s)
    try_zipped (ready (continue val), s) = returned (ready (ok val), s)
    try_zipped (ready (break e), s) = returned (ready (err e), s)

    unfoldable pub try_zip_all_poll :
        ℕ
        → JoinAll Q W F E T P
        → Run (Poll (Result (List (FutureState F T)) E) × JoinAll Q W F E T P)
    try_zip_all_poll n s = poll shared (try_zip_future fut) n s >>= try_zipped

    abbrev race_oked :
        Poll (ControlFlow T (List (FutureState F E))) × JoinAll Q W F T E P
        → Run (Poll (Result T (List (FutureState F E))) × JoinAll Q W F T E P)
    race_oked (pending, s) = returned (pending, s)
    race_oked (ready (continue errors), s) = returned (ready (err errors), s)
    race_oked (ready (break val), s) = returned (ready (ok val), s)

    unfoldable pub race_ok_all_poll :
        ℕ
        → JoinAll Q W F T E P
        → Run (Poll (Result T (List (FutureState F E))) × JoinAll Q W F T E P)
    race_ok_all_poll n s = poll shared (race_ok_future fut) n s >>= race_oked

  module _ {R : Type 0} (fut : JoinedFuture F R P) (futures : List F)
      (quiet : IsQuiet (race_future fut)) where
    -- The value of one of the futures comes when every future of the list has ended.
    unfoldable pub RaceResult : Poll R → JoinAll Q W F R ⊥ P → Type 0
    RaceResult pending t =
        (settled t.futures < length t.futures) × (length t.futures ≡ length futures)
    RaceResult (ready val) t =
        Broke (race_future fut) futures val × Matches (Ended (race_future fut)) futures t.futures

    none_completed :
        (fs : List F) (cs : List ⊥) (R : ℕ → F → ⊥ → Type 0) → 0 < length fs → Matches R fs cs → ⊥
    none_completed [] cs R l m = omega (arith, l)
    none_completed (f ∷ fs) [] R l m = m
    none_completed (f ∷ fs) (c ∷ cs) R l m = c

    -- From the `JoinAll` of one future or more, which neither panic nor wake a waker in a call, by
    -- wakes of running futures and by calls of `poll` that are pending, and which leave the queue
    -- empty when a future has ended: with fuel for the queue and for the futures, `poll` of
    -- `RaceAll` returns, and does not come to its `unreachable!()`. If it gives a value, the polls
    -- of one of the futures come to give it, and every future of the list has ended in its own
    -- poll, or its cancelling has come to its end, so none is dropped before that. It is pending
    -- only if a future is still running.
    pub race_all-RaceResult :
        (n : ℕ) (s : JoinAll Q W F R ⊥ P)
        → Runs shared (race_future fut) futures quiet s
          ⊎ Cancels shared (race_future fut) futures quiet s
        → length (shared.contents s.to_poll) + length s.futures < n
        → (p : Poll R) × ((t : JoinAll Q W F R ⊥ P) × ((race_all_poll fut n s ≡ returned (p, t))
              × RaceResult p t))
    unfolding race_all_poll RaceResult JoinResult
    race_all-RaceResult n s runs l =
        let (p, (t, (e, j))) = poll-JoinResult shared (race_future fut) futures quiet n s runs l in
        go p t e j
      where
        one : 0 < length futures
        one = elim runs [
          | inl c ↦ Runs-one shared (race_future fut) futures quiet c
          | inr c ↦ Cancels-one shared (race_future fut) futures quiet c
        ]

        go :
            (p : Poll (ControlFlow R (List (FutureState F ⊥)))) (t : JoinAll Q W F R ⊥ P)
            → poll shared (race_future fut) n s ≡ returned (p, t)
            → JoinResult shared (race_future fut) futures p t
            → (p : Poll R) × ((t : JoinAll Q W F R ⊥ P) × ((race_all_poll fut n s ≡ returned (p, t))
                  × RaceResult p t))
        go pending t e (l, j) = (
          pending,
          (t, (ap (λ r. r >>= raced fut) e, (l, elim j [ inl h ↦ h.whole | inr h ↦ h.whole ]))),
        )
        go (ready (break val)) t e j = (ready val, (t, (ap (λ r. r >>= raced fut) e, j)))
        go (ready (continue outs)) t e (cs, (q, k)) =
            absurd (none_completed futures cs (Continues (race_future fut)) one k)
