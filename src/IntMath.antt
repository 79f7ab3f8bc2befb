-- ===== src/IntMath.antt =====
-- intmath/intmath.go: bounded arithmetic on an unsigned type of `w` bits, and multiplication with
-- division in 128 bits.
pub mod Bounded
pub mod MulDiv
mod Tests
use strevm.Base.{
  ℕ, ◌+◌, ◌-◌, ◌*◌, ◌/◌, ◌%◌, ◌^◌, Bool, true, false, not, ◌&&◌, ◌||◌, Outcome, ok, err, panic,
  ◌>>=◌, overflow, ltb, leb, ◌==◌, if◌then◌else◌, add_u64, sub_u64, bits_mul64, bits_add64,
  bits_div64,
}

module _ (w : ℕ) where
  -- The sum and the difference of T wrap; the last difference is not reached where it would.
  unfoldable pub bounded_subtract : ℕ → ℕ → ℕ → ℕ
  bounded_subtract a b floor =
      let min_a = (floor + b) % 2 ^ w in
      if ltb min_a b || leb a min_a then floor else (a + 2 ^ w - b) % 2 ^ w

  unfoldable pub bounded_add : ℕ → ℕ → ℕ → ℕ
  bounded_add a b ceil =
      if leb ceil b || leb ((ceil + 2 ^ w - b) % 2 ^ w) a then ceil else (a + b) % 2 ^ w

  unfoldable pub bounded_multiply : ℕ → ℕ → ℕ → ℕ
  bounded_multiply a b ceil = if not (b == 0) && ltb (ceil / b) a then ceil else (a * b) % 2 ^ w

-- `mulDiv`. On an error the source returns zeros beside it; see `quotient_or_zero`.
unfoldable pub mul_div_round : ℕ → ℕ → ℕ → Bool → Outcome (ℕ × ℕ)
mul_div_round a b den ceil =
    let (hi, lo) = bits_mul64 a b in
    let (lo', carry) = if ceil then bits_add64 lo (sub_u64 den 1) 0 else (lo, 0) in
    let hi' = add_u64 hi carry in if leb den hi' then err overflow else bits_div64 hi' lo' den

-- `MulDiv`
unfoldable pub mul_div : ℕ → ℕ → ℕ → Outcome (ℕ × ℕ)
mul_div a b den = mul_div_round a b den false

-- `MulDivCeil`
unfoldable pub mul_div_ceil : ℕ → ℕ → ℕ → Outcome (ℕ × ℕ)
mul_div_ceil a b den = do (q, r) ← mul_div_round a b den true; ok (q, sub_u64 (sub_u64 den r) 1)

-- `quo, _, _ := MulDiv(…)`: the quotient is zero where the error is dropped.
abbrev pub quotient_or_zero : Outcome (ℕ × ℕ) → Outcome ℕ
quotient_or_zero (ok (quo, rem)) = ok quo
quotient_or_zero (err e) = ok 0
quotient_or_zero panic = panic

-- `CeilDiv`
pub ceil_div : ℕ → ℕ → Outcome ℕ
ceil_div num den = do
  let (lo, hi) = bits_add64 num (sub_u64 den 1) 0
  (quo, rem) ← bits_div64 hi lo den
  ok quo
