-- ===== src/ProxyTime/Tests.antt =====
-- Runs of proxytime on concrete instants, and its theorems at them.
use strevm.ProxyTime.Advance.{fast_forward_to_lem, Forwarded}
use strevm.ProxyTime.Order.{compare_unix-eq-compare, compare_time-eq-compare}
use strevm.ProxyTime.Convert.{of_lem, in_nanoseconds}
use strevm.ProxyTime.Rate.{scale_fraction_full}
use strevm.Base.{max, ◌+◌, refl, compare, ok, ◌*◌, ◌≡◌, arith, ℕ}
use strevm.ProxyTime.{
  units, is_future, forward, FractionalSecond, fast_forward_to, of, scale_fraction, set_rate,
  compare_unix, compare_time, tick, IsValid, Instant, Time,
}
use strevm.IntMath.{mul_div_ceil, mul_div_round}

-- 3.75 seconds, in quarters.
abbrev clock : Time
clock = record { seconds = 3; fraction = 3; hertz = 4 }

-- 3.8 seconds, in tenths.
abbrev other : Time
other = record { seconds = 3; fraction = 8; hertz = 10 }

abbrev half_past : Instant
half_past = record { unix = 12; nanosecond = 500_000_000 }

clock-IsValid : IsValid clock
clock-IsValid = omega arith

other-IsValid : IsValid other
other-IsValid = omega arith

fast_forward_to_lem_example :
    (t' : Time) × (sec : ℕ) × (frac : FractionalSecond) × (fast_forward_to clock 5 6
      ≡ ok (t', sec, frac))
    × (units t' ≡ max (units clock) (5 * clock.hertz + 6))
    × Forwarded clock t' sec frac
fast_forward_to_lem_example = fast_forward_to_lem clock 5 6 (clock-IsValid) (omega arith)

compare_time-eq-compare_example :
    compare_time clock other ≡ compare (units clock * other.hertz) (units other * clock.hertz)
compare_time-eq-compare_example =
    compare_time-eq-compare clock other (clock-IsValid) (other-IsValid)

compare_unix-eq-compare_example : compare_unix clock 3 ≡ compare (units clock) (3 * clock.hertz)
compare_unix-eq-compare_example = compare_unix-eq-compare clock 3 (clock-IsValid) (omega arith)

scale_fraction_full_example : scale_fraction clock 3 ≡ ok 3
scale_fraction_full_example =
    scale_fraction_full clock 3 (clock-IsValid) (omega arith) (omega arith)

of_lem_example : (of half_past ≡ ok (in_nanoseconds half_past)) × IsValid (in_nanoseconds half_past)
of_lem_example = of_lem half_past (omega arith) (omega arith)

ticked : tick clock 6 ≡ ok (record { seconds = 5; fraction = 1; hertz = 4 })
unfolding tick
ticked = refl

forwarded :
    fast_forward_to clock 5 6
    ≡ ok (
      record { seconds = 6; fraction = 2; hertz = 4 },
      2,
      record { numerator = 3; denominator = 4 },
    )
unfolding fast_forward_to forward is_future
forwarded = refl

-- At a third of a second the fraction rounds up to a full one, which the seconds take over.
rate_changed : set_rate clock 3 ≡ ok (record { seconds = 4; fraction = 0; hertz = 3 })
unfolding set_rate mul_div_ceil mul_div_round
rate_changed = refl
