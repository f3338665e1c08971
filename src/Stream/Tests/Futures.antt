-- ===== src/Stream/Tests/Futures.antt =====
-- The theorems about the futures of streams, on a script.
use completion.Common.{ℕ, ◌+◌, ◌*◌, refl, Option, none, some, List, [], ◌∷◌, arith}
use completion.Poll.{ready, returned}
use completion.Poll.Machine.{Yields, Completes}
use completion.Poll.Loop.{Leaves}
use completion.Stream.{CompletionStream}
use completion.Stream.Tests.{items, script, script-Yields, sample, even, half, added}
use Prim.Native.Nat.{compare}
use completion.Stream.Search.{
  searcher, all, all_list, any, any_list, find, find_list, find_map, find_map_list, all_any_lem,
  find_lem,
}
use completion.Stream.Position.{
  position, position_list, position-Completes, nth, next, behind, nth_next_lem,
}
use completion.Stream.Consume.{
  count, last, last_or, for_each, fold, fold_list, count_last_lem, for_each_fold_lem,
}
use completion.Stream.MaxMin.{max_by, min_by}
use completion.Stream.MaxMin.Order.{IsOrder, less, pure, LastMax, FirstMin, max_min_lem}
use completion.Stream.Collect.{
  from_vec, from_option, collect, collect_list, new, all_some, collect-Completes, collect_option,
}

abbrev Script : Type 0
Script = List (Option ℕ)

all_any_lem_example :
    ((v : Script) × (f' : ℕ) × Completes
        (all script even).poll
        (searcher (sample, 0))
        (all_list script even 0 (items sample)).0
        (searcher (v, f'))
      × Leaves script.poll_next v (all_list script even 0 (items sample)).1)
    × ((v : Script) × (f' : ℕ) × Completes
          (any script even).poll
          (searcher (sample, 0))
          (any_list script even 0 (items sample)).0
          (searcher (v, f'))
        × Leaves script.poll_next v (any_list script even 0 (items sample)).1)
all_any_lem_example = all_any_lem script even 0 (script-Yields sample)

find_lem_example :
    ((v : Script) × (f' : ℕ) × Completes
        (find script even).poll
        (searcher (sample, 0))
        (find_list script even 0 (items sample)).0
        (searcher (v, f'))
      × Leaves script.poll_next v (find_list script even 0 (items sample)).1)
    × ((v : Script) × (f' : ℕ) × Completes
          (find_map script half).poll
          (searcher (sample, 0))
          (find_map_list script half 0 (items sample)).0
          (searcher (v, f'))
        × Leaves script.poll_next v (find_map_list script half 0 (items sample)).1)
find_lem_example = find_lem script even half 0 (script-Yields sample)

position-Completes_example :
    (v : Script) × (x' : ℕ × ℕ) × Completes
      (position script even).poll
      (record { stream = sample; predicate = 0; position = 0 })
      (position_list script even 0 0 (items sample)).0
      (record { stream = v; predicate = x'.0; position = x'.1 })
    × Leaves script.poll_next v (position_list script even 0 0 (items sample)).1
position-Completes_example = position-Completes script even 0 (script-Yields sample) (omega arith)

nth_next_lem_example :
    ((v : Script) × (n' : ℕ) × Completes
        (nth script).poll
        (record { stream = sample; n = 2 })
        (some 4)
        (record { stream = v; n = n' })
      × Leaves script.poll_next v (behind script (items sample) 2))
    × ((v : Script) × Completes
          (next script).poll
          (record { stream = sample })
          (some 1)
          (record { stream = v })
        × Leaves script.poll_next v (behind script (items sample) 0))
nth_next_lem_example = nth_next_lem script 2 (script-Yields sample)

count_last_lem_example :
    ((v : Script) × (n : ℕ) × Completes
        (count script).poll
        (record { count = 0; stream = sample })
        4
        (record { count = n; stream = v }))
    × ((v : Script) × (l : Option ℕ) × Completes
          (last script).poll
          (record { stream = sample; last = none })
          (last_or script none (items sample))
          (record { stream = v; last = l }))
count_last_lem_example = count_last_lem script (script-Yields sample) (omega arith)

abbrev weighted : ℕ → ℕ → ℕ → ℕ × ℕ
weighted factor sum x = (sum + factor * x, factor + 1)

for_each_fold_lem_example :
    ((v : Script) × Completes
        (for_each script added).poll
        (record { stream = sample; f = 1 })
        tt
        (record { stream = v; f = 13 }))
    × ((v : Script) × Completes
          (fold script weighted).poll
          (record { stream = sample; f = 1; accumulator = some 0 })
          (fold_list script weighted 1 0 (items sample)).0
          (record {
            stream = v;
            f = (fold_list script weighted 1 0 (items sample)).1;
            accumulator = none;
          }))
for_each_fold_lem_example = for_each_fold_lem script added weighted 1 0 (script-Yields sample)

order : IsOrder (less compare)
order = record { asym = λ a b h. ground arith; ge_trans = λ a b c h k. ground arith }

max_min_lem_example :
    ((r : Option ℕ) × (v : Script) × (z : Option ℕ × Unit {0}) × Completes
        (max_by script (pure compare)).poll
        (record { stream = sample; best = none; compare = tt })
        r
        (record { stream = v; best = z.0; compare = z.1 })
      × LastMax (less compare) (items sample) r)
    × ((r : Option ℕ) × (v : Script) × (z : Option ℕ × Unit {0}) × Completes
          (min_by script (pure compare)).poll
          (record { stream = sample; best = none; compare = tt })
          r
          (record { stream = v; best = z.0; compare = z.1 })
        × FirstMin (less compare) (items sample) r)
max_min_lem_example = max_min_lem script compare tt order (script-Yields sample)

collect-Completes_example :
    (v : Script) × Completes
      (collect script from_vec).poll
      (new script from_vec sample)
      (collect_list from_vec (from_vec.start 4 (some 4)) (items sample)).0
      (record { stream = v; collection = none })
    × Leaves script.poll_next v (collect_list from_vec (from_vec.start 4 (some 4)) (items sample)).1
collect-Completes_example = collect-Completes script from_vec (script-Yields sample)

-- A stream of optional items that is never pending.
abbrev optional : CompletionStream Script (Option ℕ)
optional = record {
  poll_next =
      λ n s. elim s [ [] ↦ returned (ready none, []) | x ∷ rest ↦ returned (ready (some x), rest) ];
  poll_cancel = λ n s. returned (ready tt, s);
  size_hint = λ s. (0, none);
}

optional-Yields : (s : Script) → Yields optional.poll_next s s
optional-Yields [] = Yields.done (0, λ n l. refl)
optional-Yields (x ∷ s) = Yields.item (0, λ n l. refl) (optional-Yields s)

collect_option_example :
    (v : Script) × Completes
      (collect optional (from_option from_vec)).poll
      (new optional (from_option from_vec) sample)
      (all_some sample)
      (record { stream = v; collection = none })
collect_option_example = collect_option optional (optional-Yields sample)
