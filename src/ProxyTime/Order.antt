-- ===== src/ProxyTime/Order.antt =====
-- The comparisons of proxytime/proxytime.go against the order of rational instants.
use strevm.Base.{
  ◌∙◌, IsU64, ℕ, suc, ◌+◌, ◌/◌, ◌%◌, ◌*◌, ◌≤◌, ◌<◌, ◌≡◌, ap, arith, u64_mod, compare, Ordering,
}
use native.Mathlib.Nat.{mul-le-mul_right, mul-lt-mul_of_pos_right}
use strevm.ProxyTime.{
  compare_unix, Time, IsValid, units, FractionalSecond, compare_fraction, compare_time, fraction_of,
}

-- Comparing high words, then low words, compares the numbers.
compare_words :
    (p q : ℕ)
    → (elim (compare (p / u64_mod) (q / u64_mod)) [
      | Ordering.eq ↦ compare (p % u64_mod) (q % u64_mod)
      | c ↦ c
    ])
      ≡ compare p q
compare_words p q = ground arith

pub compare_fraction-eq-compare :
    (f g : FractionalSecond)
    → compare_fraction f g ≡ compare (f.numerator * g.denominator) (g.numerator * f.denominator)
unfolding compare_fraction
compare_fraction-eq-compare f g =
    compare_words (f.numerator * g.denominator) (g.numerator * f.denominator)

compare_scaled : (x y h : ℕ) → 0 < h → compare (x * h) (y * h) ≡ compare x y
compare_scaled x y h hp = ground (
  arith,
  λ (lt : x < y). mul-lt-mul_of_pos_right {m = x} {n = y} {k = h} lt hp,
  λ (lt : y < x). mul-lt-mul_of_pos_right {m = y} {n = x} {k = h} lt hp,
  λ (e : x ≡ y). ap (λ (s : ℕ). s * h) e,
)

-- More seconds make for a later instant, at any two rates.
later_second :
    (s h f s' h' f' : ℕ) → f < h → f' < h' → s < s' → (s * h + f) * h' < (s' * h' + f') * h
later_second s h f s' h' f' hf hf' lt =
    let step : suc s * h ≤ s' * h = mul-le-mul_right h lt in
    let first : (s * h + f) * h' < (s' * h) * h' =
      mul-lt-mul_of_pos_right {m = s * h + f} {n = s' * h} {k = h'} (omega arith) (omega arith) in
    omega arith

-- `Compare` on two valid instants, of whatever rates, orders them as the rational numbers of
-- seconds that they stand for.
pub compare_time-eq-compare :
    (t u : Time)
    → IsValid t
    → IsValid u
    → compare_time t u ≡ compare (units t * u.hertz) (units u * t.hertz)
unfolding compare_time
compare_time-eq-compare t u vt vu = ground (
  arith,
  compare_fraction-eq-compare (fraction_of t) (fraction_of u),
  later_second t.seconds t.hertz t.fraction u.seconds u.hertz u.fraction,
  later_second u.seconds u.hertz u.fraction t.seconds t.hertz t.fraction,
  ap (λ (s : ℕ). s * t.hertz * u.hertz),
)

-- `CompareUnix` compares the whole instant, its fraction included, with a number of seconds.
pub compare_unix-eq-compare :
    (t : Time) (sec : ℕ)
    → IsValid t
    → IsU64 sec
    → compare_unix t sec ≡ compare (units t) (sec * t.hertz)
unfolding compare_unix
compare_unix-eq-compare t sec v hs =
    let u : Time = record { seconds = sec; fraction = 0; hertz = t.hertz } in
    let valid : IsValid u = record {
      fraction_in = omega arith;
      hertz_in = v.hertz_in;
      seconds_in = hs;
    } in
    compare_time-eq-compare t u v valid
    ∙ compare_scaled (units t) (sec * t.hertz + 0) t.hertz (omega arith)
    ∙ ap (compare (units t)) (omega arith)
