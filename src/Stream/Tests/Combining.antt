-- ===== src/Stream/Tests/Combining.antt =====
-- The theorems about the adapters that poll several streams or futures, on scripts.
use completion.Common.{ℕ, ◌+◌, refl, Option, none, some, List, [], ◌∷◌, ◌++◌, arith, length}
use completion.Poll.{ready, returned}
use completion.Poll.Machine.{Yields}
use completion.Stream.{CompletionStream, Bounds}
use completion.Stream.Tests.{
  delayed, no_cancel, delayed-Completes, items, script, script-Yields, sample, sample-Bounds,
}
use completion.Stream.Map.{map, map_list}
use completion.Stream.Then.{stream_then, Futures, then-Yields}
use completion.Stream.Chain.{chain, chain_lem}
use completion.Stream.Flatten.{AllYield, flatten, flatten_lem, flat_map, flat_map-Yields}

abbrev delay : ℕ → ℕ → (ℕ × ℕ) × ℕ
delay calls x = ((1, x + 10), calls + 1)

abbrev brief : List (Option ℕ)
brief = some 1 ∷ none ∷ some 2 ∷ []

brief-Futures : Futures script delay delayed no_cancel 0 (1 ∷ 2 ∷ []) (11 ∷ 12 ∷ [])
brief-Futures =
    Futures.next refl (delayed-Completes 11) (Futures.next refl (delayed-Completes 12) Futures.end)

then-Yields_example :
    Yields
      (stream_then script delay delayed no_cancel).poll_next
      (record { stream = brief; fut = none; f = 0 })
      (11 ∷ 12 ∷ [])
then-Yields_example = then-Yields script delay delayed no_cancel (script-Yields brief) brief-Futures

chain_lem_example :
    Yields
      (chain script script).poll_next
      (record { a = some sample; b = brief })
      (items sample ++ items brief)
    × Bounds
        ((chain script script).size_hint (record { a = some sample; b = brief }))
        (length (items sample ++ items brief))
chain_lem_example =
    chain_lem script script (script-Yields sample) (script-Yields brief) sample-Bounds (omega arith)

-- A stream of two streams, and one that is under way.
abbrev Nested : Type 0
Nested = List (List (Option ℕ))

abbrev nested : CompletionStream Nested (List (Option ℕ))
nested = record {
  poll_next =
      λ n s. elim s [ [] ↦ returned (ready none, []) | u ∷ us ↦ returned (ready (some u), us) ];
  poll_cancel = no_cancel;
  size_hint = λ s. (0, none);
}

nested-Yields : (us : Nested) → Yields nested.poll_next us us
nested-Yields [] = Yields.done (0, λ n l. refl)
nested-Yields (u ∷ us) = Yields.item (0, λ n l. refl) (nested-Yields us)

two-AllYield : AllYield nested script (sample ∷ brief ∷ []) (items sample ++ (items brief ++ []))
two-AllYield =
    AllYield.next (script-Yields sample) (AllYield.next (script-Yields brief) AllYield.end)

flatten_lem_example :
    Yields
      (flatten nested script).poll_next
      (record { stream = sample ∷ brief ∷ []; current = some brief })
      (items brief ++ (items sample ++ (items brief ++ [])))
    × Bounds
        ((flatten nested script).size_hint
          (record { stream = sample ∷ brief ∷ []; current = some brief }))
        (length (items brief ++ (items sample ++ (items brief ++ []))))
flatten_lem_example =
    flatten_lem nested script (nested-Yields (sample ∷ brief ∷ [])) two-AllYield
      (script-Yields brief) (omega arith, tt) (omega arith)

-- Makes of `x` a stream of `x` and `x + 1`.
abbrev pair_of : ℕ → ℕ → List (Option ℕ) × ℕ
pair_of calls x = (some x ∷ none ∷ some (x + 1) ∷ [], calls + 1)

pairs-AllYield :
    AllYield
      (map script pair_of)
      script
      (map_list script pair_of 0 (items brief))
      (1 ∷ 2 ∷ 2 ∷ 3 ∷ [])
unfolding map_list
pairs-AllYield =
    AllYield.next (script-Yields (pair_of 0 1).0)
      (AllYield.next (script-Yields (pair_of 1 2).0) AllYield.end)

flat_map-Yields_example :
    Yields
      (flat_map script pair_of script).poll_next
      (record { inner = record { stream = record { stream = brief; f = 0 }; current = none } })
      (1 ∷ 2 ∷ 2 ∷ 3 ∷ [])
flat_map-Yields_example =
    flat_map-Yields script pair_of script 0 (script-Yields brief) pairs-AllYield
