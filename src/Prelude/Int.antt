-- ===== src/Prelude/Int.antt =====
-- Signed counters: what a column of integers needs that is only counted up and down.
use memo_build.Prelude.Tests.{ltb}
use Prim.Native.Nat.{ℕ, zero, suc, ◌+◌, ◌≤◌}
use mathlib.Core.Bool.{Bool, false}
use native.Mathlib.Omega.{arith}

-- `negsuc n` is -(n + 1).
pub data ℤ : Type 0 where
  pos : ℕ → ℤ
  negsuc : ℕ → ℤ

abbrev pub increment : ℤ → ℤ
increment (pos n) = pos (n + 1)
increment (negsuc zero) = pos 0
increment (negsuc (suc n)) = negsuc n

abbrev pub decrement : ℤ → ℤ
decrement (pos zero) = negsuc 0
decrement (pos (suc n)) = pos n
decrement (negsuc n) = negsuc (n + 1)

-- `z > n`
abbrev pub is_above : ℕ → ℤ → Bool
is_above n (pos m) = ltb n m
is_above n (negsuc m) = false

-- `n ≤ z`
abbrev pub AtLeast : ℕ → ℤ → Type 0
AtLeast n (pos m) = n ≤ m
AtLeast n (negsuc m) = ⊥

pub increment-AtLeast : (n : ℕ) (z : ℤ) → AtLeast n z → AtLeast (n + 1) (increment z)
increment-AtLeast n (pos m) h = omega arith
increment-AtLeast n (negsuc m) h = absurd h

pub decrement-AtLeast : (n : ℕ) (z : ℤ) → AtLeast (n + 1) z → AtLeast n (decrement z)
decrement-AtLeast n (pos zero) h = absurd (omega arith)
decrement-AtLeast n (pos (suc m)) h = omega arith
decrement-AtLeast n (negsuc m) h = absurd h

pub AtLeast-weaken : (m n : ℕ) (z : ℤ) → m ≤ n → AtLeast n z → AtLeast m z
AtLeast-weaken m n (pos k) le h = omega arith
AtLeast-weaken m n (negsuc k) le h = absurd h
