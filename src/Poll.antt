-- ===== src/Poll.antt =====
-- `std::task::Poll`, what a call of the code can do, and the `ready!` macro.
pub mod Machine
pub mod Loop
pub mod Drive
use completion.Common.{
  ℕ, ◌+◌, ◌-◌, ◌^◌, ◌%◌, ◌≤◌, ◌<◌, ◌≡◌, arith, min, ltb, if◌then◌else◌, Bool, true, false, Option,
  none, some,
}

pub data Poll {ℓ} (A : Type ℓ) : Type ℓ where
  pending : Poll A
  ready : A → Poll A

-- The outcome of a call: it returns, it panics, or the fuel of the model ran out.
pub data Run {ℓ} (A : Type ℓ) : Type ℓ where
  out_of_fuel : Run A
  panicked : Run A
  returned : A → Run A

-- `ready!(poll)` in a body whose remaining steps are `k`; `wrap` rebuilds the whole state round
-- that of the callee.
abbrev pub ready_then {ℓ κ μ ν} :
    {A : Type ℓ} {B : Type κ} {S : Type μ} {T : Type ν}
    → Run (Poll A × S)
    → (S → T)
    → (A → S → Run (Poll B × T))
    → Run (Poll B × T)
ready_then out_of_fuel wrap k = out_of_fuel
ready_then panicked wrap k = panicked
ready_then (returned (pending, s)) wrap k = returned (pending, wrap s)
ready_then (returned (ready a, s)) wrap k = k a s

-- A call whose state is part of a larger one, with its result passed on unchanged.
abbrev pub map_state {ℓ μ ν} :
    {A : Type ℓ} {S : Type μ} {T : Type ν} → (S → T) → Run (A × S) → Run (A × T)
map_state wrap out_of_fuel = out_of_fuel
map_state wrap panicked = panicked
map_state wrap (returned (a, s)) = returned (a, wrap s)

-- One more than the largest `usize`.
abbrev pub usize_limit : ℕ
usize_limit = 2 ^ 64

-- One more than the largest `isize`: no slice has as many bytes.
abbrev pub isize_limit : ℕ
isize_limit = 2 ^ 63

abbrev pub saturating_add : ℕ → ℕ → ℕ
saturating_add a b = min (a + b) (usize_limit - 1)

abbrev pub checked_add : ℕ → ℕ → Option ℕ
checked_add a b = if ltb (a + b) usize_limit then some (a + b) else none

-- `a - b` on `usize`, as in a release build.
abbrev pub wrapping_sub : ℕ → ℕ → ℕ
wrapping_sub a b = (a + usize_limit - b) % usize_limit

pub wrapping_sub-le : (a b : ℕ) → b ≤ a → a < usize_limit → wrapping_sub a b ≡ a - b
wrapping_sub-le a b h l = omega arith

-- `Option::and_then`.
abbrev pub and_then {ℓ κ} : {A : Type ℓ} {B : Type κ} → Option A → (A → Option B) → Option B
and_then none f = none
and_then (some a) f = f a

infixl 5 ◌>>=◌
abbrev pub ◌>>=◌ {ℓ κ} : {A : Type ℓ} {B : Type κ} → Run A → (A → Run B) → Run B
out_of_fuel >>= f = out_of_fuel
panicked >>= f = panicked
returned a >>= f = f a

-- `assert!(test); rest`.
abbrev pub assert {ℓ} : {A : Type ℓ} → Bool → Run A → Run A
assert true rest = rest
assert false rest = panicked
