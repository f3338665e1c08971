-- ===== src/Stream/Tests/Adapters.antt =====
-- The theorems about the adapters of one stream, on a script.
use completion.Common.{
  ℕ, refl, Bool, true, Option, none, some, List, [], ◌∷◌, arith, length, drop, take, ltb,
}
use completion.Poll.{pending}
use completion.Poll.Machine.{Yields, Emits, Completes}
use completion.Stream.{Bounds}
use completion.Stream.Tests.{
  items, script, script-Yields, sample, sample-Bounds, even, half, scaled, added,
}
use completion.Stream.Filter.{filter, filter_list, filter_map, filter_map_list, filter_lem}
use completion.Stream.Map.{map, map_list, map_lem}
use completion.Stream.SkipTake
use completion.Stream.While
use completion.Stream.StepBy.{step_by, every, step_by_lem}
use completion.Stream.Enumerate.{enumerate, number_from, enumerate_lem}
use completion.Stream.Inspect.{inspect, inspect-Emits}
use completion.Stream.Cycle.{Cycle, cycle, repeat, cycle-Emits}
use completion.Stream.Peekable.{Peekable, poll_peek, peekable, poll_peek_lem}
use completion.Stream.Fuse.{Ends, fuse-Ends}

filter_lem_example :
    (Yields
        (filter script even).poll_next
        (record { stream = sample; f = 0 })
        (filter_list script even 0 (items sample))
      × Bounds
          ((filter script even).size_hint (record { stream = sample; f = 0 }))
          (length (filter_list script even 0 (items sample))))
    × (Yields
          (filter_map script half).poll_next
          (record { stream = sample; f = 0 })
          (filter_map_list script half 0 (items sample))
        × Bounds
            ((filter_map script half).size_hint (record { stream = sample; f = 0 }))
            (length (filter_map_list script half 0 (items sample))))
filter_lem_example = filter_lem script even half 0 (script-Yields sample) sample-Bounds

map_lem_example :
    Yields
      (map script scaled).poll_next
      (record { stream = sample; f = 3 })
      (map_list script scaled 3 (items sample))
    × Bounds
        ((map script scaled).size_hint (record { stream = sample; f = 3 }))
        (length (map_list script scaled 3 (items sample)))
map_lem_example = map_lem script scaled 3 (script-Yields sample) sample-Bounds

step_by_lem_example :
    Yields
      (step_by script).poll_next
      (record { stream = sample; step = 2; i = 1 })
      (every script 2 1 (items sample))
    × Bounds
        ((step_by script).size_hint (record { stream = sample; step = 2; i = 1 }))
        (length (every script 2 1 (items sample)))
step_by_lem_example = step_by_lem script 2 1 (omega arith) (script-Yields sample) sample-Bounds

enumerate_lem_example :
    Yields
      (enumerate script).poll_next
      (record { stream = sample; count = 7 })
      (number_from script 7 (items sample))
    × Bounds
        ((enumerate script).size_hint (record { stream = sample; count = 7 }))
        (length (number_from script 7 (items sample)))
enumerate_lem_example = enumerate_lem script 7 (script-Yields sample) sample-Bounds (omega arith)

sample-Emits : Emits script.poll_next sample (1 ∷ 2 ∷ 4 ∷ []) (none ∷ none ∷ some 5 ∷ [])
sample-Emits =
    Emits.item (0, λ n l. refl)
      (Emits.wait (0, λ n l. refl)
        (Emits.item (0, λ n l. refl) (Emits.item (0, λ n l. refl) Emits.stop)))

inspect-Emits_example :
    Emits
      (inspect script added).poll_next
      (record { stream = sample; f = 0 })
      (1 ∷ 2 ∷ 4 ∷ [])
      (record { stream = none ∷ none ∷ some 5 ∷ []; f = 7 })
inspect-Emits_example = inspect-Emits script added sample-Emits 0

cycle-Emits_example :
    (w : Cycle (List (Option ℕ))) × Emits
      (cycle script).poll_next
      (record { template = sample; stream = sample })
      (repeat 3 (items sample))
      w
cycle-Emits_example = cycle-Emits script 3 (script-Yields sample)

poll_peek_lem_example :
    (t : Peekable (List (Option ℕ)) ℕ) × Completes
      (poll_peek script)
      (record { stream = sample; peeked = pending })
      (some 1)
      t
    × Completes (poll_peek script) t (some 1) t
    × Yields (peekable script).poll_next t (items sample)
poll_peek_lem_example = poll_peek_lem script (script-Yields sample)

fuse-Ends_example : Ends script (record { stream = some sample }) (items sample)
fuse-Ends_example = fuse-Ends script (script-Yields sample)

skip_take_lem_example :
    (Yields
        (SkipTake.skip script).poll_next
        (record { stream = sample; to_skip = 3 })
        (drop 3 (items sample))
      × Bounds
          ((SkipTake.skip script).size_hint (record { stream = sample; to_skip = 3 }))
          (length (drop 3 (items sample))))
    × (Yields
          (SkipTake.take script).poll_next
          (record { stream = sample; to_take = 3 })
          (take 3 (items sample))
        × Bounds
            ((SkipTake.take script).size_hint (record { stream = sample; to_take = 3 }))
            (length (take 3 (items sample))))
skip_take_lem_example = SkipTake.skip_take_lem script 3 (script-Yields sample) sample-Bounds

abbrev small : Unit {0} → ℕ → Bool × Unit {0}
small u x = (ltb x 3, u)

while_lem_example :
    (Yields
        (While.skip_while script small).poll_next
        (record { stream = sample; skipping = true; predicate = tt })
        (While.drop_while script small tt (items sample))
      × Bounds
          ((While.skip_while script small).size_hint
            (record { stream = sample; skipping = true; predicate = tt }))
          (length (While.drop_while script small tt (items sample))))
    × (Yields
          (While.take_while script small).poll_next
          (record { stream = sample; taking = true; predicate = tt })
          (While.while_list script small tt (items sample))
        × Bounds
            ((While.take_while script small).size_hint
              (record { stream = sample; taking = true; predicate = tt }))
            (length (While.while_list script small tt (items sample))))
while_lem_example = While.while_lem script small tt (script-Yields sample) sample-Bounds
