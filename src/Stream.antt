-- ===== src/Stream.antt =====
-- core/src/lib.rs: the trait `CompletionStream`, and what a size hint promises.
pub mod Filter
pub mod Map
pub mod Then
pub mod Chain
pub mod Fuse
pub mod SkipTake
pub mod While
pub mod StepBy
pub mod Enumerate
pub mod Inspect
pub mod Cycle
pub mod Peekable
pub mod Flatten
pub mod Search
pub mod Position
pub mod Consume
pub mod MaxMin
pub mod Collect
pub mod Unfold
mod Tests
use completion.Common.{ℕ, ◌+◌, ◌%◌, ◌≤◌, ◌<◌, ◌≡◌, Option, none, some, arith}
use completion.Poll.{and_then, checked_add, usize_limit}
use completion.Poll.Machine.{Machine}

pub record CompletionStream {ℓ κ} (S : Type ℓ) (A : Type κ) : Type (ℓ ⊔ κ) where
  pub poll_next : Machine S (Option A)
  pub poll_cancel : Machine S (Unit {0})
  pub size_hint : S → ℕ × Option ℕ

-- The trait `CompletionFuture`.
pub record CompletionFuture {ℓ κ} (S : Type ℓ) (R : Type κ) : Type (ℓ ⊔ κ) where
  pub poll : Machine S R
  pub poll_cancel : Machine S (Unit {0})

abbrev pub AtMost : Option ℕ → ℕ → Type 0
AtMost none n = Unit
AtMost (some high) n = n ≤ high

-- `n` items lie within the hint.
abbrev pub Bounds : ℕ × Option ℕ → ℕ → Type 0
Bounds hint n = (hint.0 ≤ n) × AtMost hint.1 n

pub AtMost-of_le : (high : Option ℕ) {m n : ℕ} → m ≤ n → AtMost high n → AtMost high m
AtMost-of_le none l h = tt
AtMost-of_le (some k) l h = omega arith

pub checked_add-AtMost :
    (a b : Option ℕ) (m n : ℕ)
    → AtMost a m
    → AtMost b n
    → AtMost (and_then a (λ x. and_then b (checked_add x))) (m + n)
checked_add-AtMost none b m n h k = tt
checked_add-AtMost (some x) none m n h k = tt
checked_add-AtMost (some x) (some y) m n h k = ground arith

-- A count that stays below the limit is not reduced.
pub no_wrap : (i : ℕ) → i + 1 < usize_limit → (i + 1) % usize_limit ≡ i + 1
no_wrap i h = omega arith
