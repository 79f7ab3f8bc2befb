-- ===== src/IntMath/Bounded.antt =====
-- The bounded operations of intmath/intmath.go never overflow, and meet their doc comments.
use Prim.Native.Nat.{min, max}
use strevm.Base.{ℕ, zero, suc, ◌+◌, ◌-◌, ◌*◌, ◌%◌, ◌^◌, ◌≤◌, ◌<◌, ◌≡◌, ◌∙◌, arith, dec_lt}
use native.Mathlib.Nat.{mod-eq_of_lt, mod-eq-sub-mod, le-div_iff_mul-le, div-lt_iff_lt-mul}
use strevm.IntMath.{bounded_subtract, bounded_add, bounded_multiply}

-- A sum of two words of any width, by whether it overflows.
wrapped_sum_no_carry : (m x y : ℕ) → x + y < m → (x + y) % m ≡ x + y
wrapped_sum_no_carry m x y h = mod-eq_of_lt h

wrapped_sum_carry : {m x y : ℕ} → x < m → y < m → m ≤ x + y → (x + y) % m ≡ x + y - m
wrapped_sum_carry {m} {x} {y} hx hy h =
    mod-eq-sub-mod {n = x + y} {m = m} h ∙ mod-eq_of_lt (omega arith)

wrapped_difference : {m x y : ℕ} → x < m → y ≤ x → (x + m - y) % m ≡ x - y
wrapped_difference {m} {x} {y} hx h =
    mod-eq-sub-mod {n = x + m - y} {m = m} (omega arith)
    ∙ rw (mod-eq_of_lt {n = x + m - y - m} {m = m} (omega arith)) (omega arith)

-- For words of any width, `BoundedSubtract` is the greater of the floor and the exact difference,
-- also where `floor + b` overflows.
pub bounded_subtract-eq-max :
    (w a b floor : ℕ)
    → a < 2 ^ w
    → b < 2 ^ w
    → floor < 2 ^ w
    → bounded_subtract w a b floor ≡ max (a - b) floor
unfolding bounded_subtract
bounded_subtract-eq-max w a b floor ha hb hf = elim (dec_lt (floor + b) (2 ^ w)) [
  | yes small ↦ ground (
    arith,
    wrapped_sum_no_carry (2 ^ w) floor b small,
    wrapped_difference {m = 2 ^ w} {x = a} {y = b} ha,
  )
  | no big ↦ ground (arith, wrapped_sum_carry {m = 2 ^ w} {x = floor} {y = b} hf hb)
]

-- For words of any width, `BoundedAdd` is the lesser of the ceiling and the exact sum.
pub bounded_add-eq-min :
    (w a b ceil : ℕ)
    → a < 2 ^ w
    → b < 2 ^ w
    → ceil < 2 ^ w
    → bounded_add w a b ceil ≡ min (a + b) ceil
unfolding bounded_add
bounded_add-eq-min w a b ceil ha hb hc =
    ground (
      arith,
      wrapped_sum_no_carry (2 ^ w) a b,
      wrapped_difference {m = 2 ^ w} {x = ceil} {y = b} hc,
    )

-- For words of any width, `BoundedMultiply` is the lesser of the ceiling and the exact product.
pub bounded_multiply-eq-min :
    (w a b ceil : ℕ)
    → a < 2 ^ w
    → b < 2 ^ w
    → ceil < 2 ^ w
    → bounded_multiply w a b ceil ≡ min (a * b) ceil
unfolding bounded_multiply
bounded_multiply-eq-min w a zero ceil ha hb hc =
    ground (arith, mod-eq_of_lt {n = a * 0} {m = 2 ^ w})
bounded_multiply-eq-min w a (suc b) ceil ha hb hc = ground (
  arith,
  mod-eq_of_lt {n = a * suc b} {m = 2 ^ w},
  (le-div_iff_mul-le {k = suc b} {x = a} {y = ceil} (omega arith)).0,
  (div-lt_iff_lt-mul {k = suc b} {x = ceil} {y = a} (omega arith)).0,
)
