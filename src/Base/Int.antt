-- ===== src/Base/Int.antt =====
-- The integers of math/big over the native numbers, in their order.
use Prim.Native.Nat.{ℕ, suc, ◌+◌, ◌-◌, ◌≤◌}
use mathlib.Core.Bool.{Bool}
use native.Mathlib.Omega.{arith}
use strevm.Base.Tests.{leb, if◌then◌else◌}

-- `negsuc n` is -(n + 1).
pub data ℤ : Type 0 where
  pos : ℕ → ℤ
  negsuc : ℕ → ℤ

abbrev pub pos_part : ℤ → ℕ
pos_part (pos n) = n
pos_part (negsuc n) = 0

abbrev pub neg_part : ℤ → ℕ
neg_part (pos n) = 0
neg_part (negsuc n) = suc n

infix 50 ◌≤ℤ◌
abbrev pub ◌≤ℤ◌ : ℤ → ℤ → Type 0
a ≤ℤ b = pos_part a + neg_part b ≤ pos_part b + neg_part a

-- `a.Cmp(b) <= 0`
abbrev pub at_most : ℤ → ℤ → Bool
at_most a b = leb (pos_part a + neg_part b) (pos_part b + neg_part a)

-- `math.BigMax` and `math.BigMin` of libevm.
abbrev pub big_max : ℤ → ℤ → ℤ
big_max a b = if at_most a b then b else a

abbrev pub big_min : ℤ → ℤ → ℤ
big_min a b = if at_most a b then a else b

pub clamp_bounds :
    (lo hi x : ℤ) → lo ≤ℤ hi → (lo ≤ℤ big_min (big_max x lo) hi) × (big_min (big_max x lo) hi ≤ℤ hi)
clamp_bounds lo hi x h = ground arith

-- `x.Add(a, b)` for a natural number `b`.
abbrev pub add_nat : ℤ → ℕ → ℤ
add_nat (pos n) b = pos (n + b)
add_nat (negsuc n) b = if leb (n + 1) b then pos (b - (n + 1)) else negsuc (n - b)
