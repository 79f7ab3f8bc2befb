-- ===== src/IntMath/MulDiv.antt =====
-- The 128-bit multiplication with division of intmath/intmath.go against exact arithmetic.
use strevm.Base.{
  ℕ, ◌+◌, ◌-◌, ◌*◌, ◌/◌, ◌%◌, ◌≤◌, ◌<◌, ◌≡◌, arith, ok, err, panic, overflow, IsU64, u64_mod,
  if◌then◌else◌, ltb, true, max_u64,
}
use native.Mathlib.Nat.{mul-le-mul, le-div_iff_mul-le, div-lt_iff_lt-mul, div-add-mod', mod-lt}
use strevm.IntMath.{mul_div_round, mul_div, mul_div_ceil, ceil_div}

product_bound : (a b : ℕ) → IsU64 a → IsU64 b → a * b ≤ (u64_mod - 1) * (u64_mod - 1)
product_bound a b ha hb =
    mul-le-mul {n₁ = a} {m₁ = b} {n₂ = u64_mod - 1} {m₂ = u64_mod - 1} (omega arith) (omega arith)

-- A high word below the divisor says that the quotient fits in a word.
fits : (n den : ℕ) → 0 < den → n / u64_mod < den → n / den < u64_mod
fits n den h lt = (div-lt_iff_lt-mul {k = den} {x = n} {y = u64_mod} h).1 (omega arith)

overflows : (n den : ℕ) → 0 < den → den ≤ n / u64_mod → u64_mod ≤ n / den
overflows n den h le = (le-div_iff_mul-le {k = den} {x = u64_mod} {y = n} h).1 (omega arith)

-- `MulDiv` returns the exact quotient and remainder of the product if the quotient fits in a
-- word, and reports an overflow otherwise. It never panics.
pub mul_div_exact :
    (a b den : ℕ)
    → IsU64 a
    → IsU64 b
    → 0 < den
    → IsU64 den
    → mul_div a b den
      ≡ (if ltb (a * b / den) u64_mod then ok (a * b / den, a * b % den) else err overflow)
unfolding mul_div mul_div_round
mul_div_exact a b den ha hb hp hd =
    ground (arith, product_bound a b ha hb, fits (a * b) den hp, overflows (a * b) den hp)

mul_div_round_up :
    (a b den : ℕ)
    → IsU64 a
    → IsU64 b
    → 0 < den
    → IsU64 den
    → let n = a * b + (den - 1) in
      mul_div_round a b den true
      ≡ (if ltb (n / den) u64_mod then ok (n / den, n % den) else err overflow)
unfolding mul_div_round
mul_div_round_up a b den ha hb hp hd =
    let n = a * b + (den - 1) in
    ground (arith, product_bound a b ha hb, fits n den hp, overflows n den hp)

-- What `MulDivCeil` computes, written out: the quotient rounded up and the complement of the
-- remainder, or an overflow.
pub mul_div_ceil_lem :
    (a b den : ℕ)
    → IsU64 a
    → IsU64 b
    → 0 < den
    → IsU64 den
    → let n = a * b + (den - 1) in
      mul_div_ceil a b den
      ≡ (if ltb (n / den) u64_mod then ok (n / den, den - 1 - n % den) else err overflow)
unfolding mul_div_ceil
mul_div_ceil_lem a b den ha hb hp hd =
    let n = a * b + (den - 1) in ground (arith, mul_div_round_up a b den ha hb hp hd, mod-lt n hp)

-- `MulDivCeil` returns the least quotient that covers the product, with the amount by which it
-- overshoots, exactly when that quotient fits in a word; it reports an overflow otherwise.
pub mul_div_ceil_exact :
    (a b den : ℕ)
    → IsU64 a
    → IsU64 b
    → 0 < den
    → IsU64 den
    → (a * b ≤ max_u64 * den
        → (q : ℕ) × (extra : ℕ) × (mul_div_ceil a b den ≡ ok (q, extra))
          × (q * den ≡ a * b + extra)
          × (extra < den)
          × IsU64 q)
      × (max_u64 * den < a * b → mul_div_ceil a b den ≡ err overflow)
mul_div_ceil_exact a b den ha hb hp hd =
    let n = a * b + (den - 1) in
    let q = n / den in
    let fit = (div-lt_iff_lt-mul {k = den} {x = n} {y = u64_mod} hp) in
    let split = div-add-mod' n den in
    let rem = mod-lt n hp in
    let run = mul_div_ceil_lem a b den ha hb hp hd in
    (
      λ h.
          let small : q < u64_mod = fit.1 (omega arith) in
          (q, den - 1 - n % den, ground arith, omega arith, omega arith, small),
      λ h. let big : n / den < u64_mod → ⊥ = λ lt. omega (arith, fit.0 lt) in ground arith,
    )

-- With a divisor of zero neither function panics: both report an overflow.
pub mul_div_zero :
    (a b : ℕ)
    → IsU64 a
    → IsU64 b
    → (mul_div a b 0 ≡ err overflow) × (mul_div_ceil a b 0 ≡ err overflow)
unfolding mul_div mul_div_ceil mul_div_round
mul_div_zero a b ha hb = (ground arith, ground arith)

-- `CeilDiv` returns the least quotient that covers the numerator, without overflow; it panics for
-- a divisor of zero and for no other.
pub ceil_div_exact :
    (num den : ℕ)
    → IsU64 num
    → IsU64 den
    → (0 < den
        → (q : ℕ) × (ceil_div num den ≡ ok q) × (num ≤ q * den) × (q * den < num + den) × IsU64 q)
      × (den ≡ 0 → ceil_div num den ≡ panic)
unfolding ceil_div
ceil_div_exact num den hn hd = (
  λ hp.
      let n = num + (den - 1) in
      let split = div-add-mod' n den in
      let rem = mod-lt n hp in
      let fit = div-lt_iff_lt-mul {k = den} {x = n} {y = u64_mod} hp in
      (n / den, ground arith, omega arith, omega arith, fit.1 (grind arith)),
  λ e. ground arith,
)
