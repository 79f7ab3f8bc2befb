-- ===== src/IntMath/Tests.antt =====
-- Runs of intmath on concrete words, and its theorems at them.
use strevm.IntMath.MulDiv.{mul_div_zero}
use strevm.Base.{arith, overflow, ok, refl, err, ◌≡◌}
use strevm.IntMath.{mul_div_round, mul_div_ceil, mul_div, bounded_subtract}

mul_div_zero_example : (mul_div 7 3 0 ≡ err overflow) × (mul_div_ceil 7 3 0 ≡ err overflow)
mul_div_zero_example = mul_div_zero 7 3 (omega arith) (omega arith)

round_up : mul_div_ceil 7 3 10 ≡ ok (3, 9)
unfolding mul_div_ceil mul_div_round
round_up = refl

bounded_below : bounded_subtract 8 200 100 250 ≡ 250
unfolding bounded_subtract
bounded_below = refl
