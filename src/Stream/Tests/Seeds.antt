-- ===== src/Stream/Tests/Seeds.antt =====
-- The theorem about `unfold` and `try_unfold`, on the closures of their documentation.
use completion.Common.{
  ℕ, ◌+◌, ◌*◌, ◌≡◌, refl, Option, none, some, [], ◌∷◌, ltb, ◌==◌, if◌then◌else◌, Bool, true, Result,
  ok, err,
}
use completion.Poll.{ready, panicked}
use completion.Poll.Machine.{Finishes, PollsTo}
use completion.Stream.Tests.{delayed, no_cancel, delayed-Completes}
use completion.Stream.Unfold.{
  unfold_from, unfold_stream, Produces, at, try_unfold, try_unfold_stream, Attempts, try_at,
  unfold_lem,
}

-- The closures count their calls.
abbrev doubles : ℕ → ℕ → (ℕ × Option (ℕ × ℕ)) × ℕ
doubles calls n = ((1, if ltb n 3 then some (n * 2, n + 1) else none), calls + 1)

abbrev fails : ℕ → ℕ → (ℕ × Result (Option (ℕ × ℕ)) Bool) × ℕ
fails calls n = ((1, if n == 3 then err true else ok (some (n * 2, n + 1))), calls + 1)

three : Produces doubles delayed no_cancel 0 0 (0 ∷ 2 ∷ 4 ∷ []) 4
three = Produces.more refl (delayed-Completes _) (
    Produces.more refl (delayed-Completes _)
      (Produces.more refl (delayed-Completes _) (Produces.last refl (delayed-Completes _))))

failure : Attempts fails delayed no_cancel 0 0 (ok 0 ∷ ok 2 ∷ ok 4 ∷ err true ∷ []) 4
failure = Attempts.more refl (delayed-Completes _) (
    Attempts.more refl (delayed-Completes _)
      (Attempts.more refl (delayed-Completes _) (Attempts.failed refl (delayed-Completes _))))

unfold_lem_example :
    (Finishes
        (unfold_stream doubles delayed no_cancel).poll_next
        (unfold_from doubles delayed no_cancel 0 0)
        (0 ∷ 2 ∷ 4 ∷ [])
        (at doubles delayed no_cancel none none 4)
      × ((unfold_stream doubles delayed no_cancel).size_hint
            (at doubles delayed no_cancel none none 4)
          ≡ (0, some 0))
      × ((n : ℕ)
          → (unfold_stream doubles delayed no_cancel).poll_next n
              (at doubles delayed no_cancel none none 4)
            ≡ panicked))
    × (Finishes
          (try_unfold_stream fails delayed no_cancel).poll_next
          (try_unfold fails delayed no_cancel 0 0)
          (ok 0 ∷ ok 2 ∷ ok 4 ∷ err true ∷ [])
          (try_at fails delayed no_cancel none none 4)
        × ((try_unfold_stream fails delayed no_cancel).size_hint
              (try_at fails delayed no_cancel none none 4)
            ≡ (0, some 0))
        × PollsTo
            (try_unfold_stream fails delayed no_cancel).poll_next
            (try_at fails delayed no_cancel none none 4)
            (ready none, try_at fails delayed no_cancel none none 4))
unfold_lem_example = unfold_lem doubles delayed no_cancel fails delayed no_cancel three failure
