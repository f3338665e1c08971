-- ===== src/Stream/Tests.antt =====
-- A stream that follows a script and a future that waits, for the tests of the adapters and futures.
mod Adapters
mod Combining
mod Futures
mod Seeds
use completion.Common.{
  ℕ, zero, suc, ◌+◌, ◌*◌, ◌/◌, ◌%◌, ◌≤◌, ◌<◌, ◌≡◌, refl, Bool, true, false, Option, none, some,
  List, [], ◌∷◌, arith, length, ◌==◌, if◌then◌else◌,
}
use completion.Poll.{pending, ready, returned}
use completion.Poll.Machine.{Machine, Yields, Completes}
use completion.Stream.{CompletionStream, Bounds}

abbrev pub items : List (Option ℕ) → List ℕ
items [] = []
items (none ∷ s) = items s
items (some x ∷ s) = x ∷ items s

-- `none` in the script is a poll that is pending.
abbrev pub script : CompletionStream (List (Option ℕ)) ℕ
script = record {
  poll_next = λ n s. elim s [
    | [] ↦ returned (ready none, [])
    | none ∷ rest ↦ returned (pending, rest)
    | some x ∷ rest ↦ returned (ready (some x), rest)
  ];
  poll_cancel = λ n s. returned (ready tt, s);
  size_hint = λ s. (length (items s), some (length (items s)));
}

pub script-Yields : (s : List (Option ℕ)) → Yields script.poll_next s (items s)
script-Yields [] = Yields.done (0, λ n l. refl)
script-Yields (none ∷ s) = Yields.wait (0, λ n l. refl) (script-Yields s)
script-Yields (some x ∷ s) = Yields.item (0, λ n l. refl) (script-Yields s)

abbrev pub sample : List (Option ℕ)
sample = some 1 ∷ none ∷ some 2 ∷ some 4 ∷ none ∷ none ∷ some 5 ∷ []

pub sample-Bounds : Bounds (script.size_hint sample) 4
sample-Bounds = omega arith

-- Accepts even numbers, and counts its calls.
abbrev pub even : ℕ → ℕ → Bool × ℕ
even calls x = (x % 2 == 0, calls + 1)

abbrev pub half : ℕ → ℕ → Option ℕ × ℕ
half calls x = if x % 2 == 0 then (some (x / 2), calls + 1) else (none, calls + 1)

abbrev pub scaled : ℕ → ℕ → ℕ × ℕ
scaled factor x = (factor * x, factor + 1)

abbrev pub added : ℕ → ℕ → ℕ
added sum x = sum + x

-- A future that is pending once for each unit of its number, and then gives its value.
abbrev pub delayed : {R : Type 0} → Machine (ℕ × R) R
delayed n (zero, x) = returned (ready x, (zero, x))
delayed n (suc k, x) = returned (pending, (k, x))

pub delayed-Completes : {R : Type 0} (x : R) → Completes delayed (1, x) x (0, x)
delayed-Completes x = Completes.wait (0, λ n l. refl) (Completes.done (0, λ n l. refl))

abbrev pub no_cancel {ℓ} : {S : Type ℓ} → Machine S (Unit {0})
no_cancel n s = returned (ready tt, s)
