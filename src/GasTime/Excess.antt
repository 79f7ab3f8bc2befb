-- ===== src/GasTime/Excess.antt =====
-- The excess of gastime/gastime.go under the passage of time.
use strevm.Base.{
  sub_u64, ◌%◌, ◌∙◌, ℕ, ◌+◌, ◌-◌, ◌/◌, ◌*◌, ◌<◌, ◌≡◌, refl, ap, min, max, ok, arith, IsU64, u64_mod,
  max_u64,
}
use native.Mathlib.Nat.{mul-div-mul_right, mul_comm, le-div_iff_mul-le, div-lt_iff_lt-mul}
use strevm.IntMath.{mul_div}
use strevm.IntMath.MulDiv.{mul_div_exact}
use strevm.IntMath.Bounded.{bounded_add-eq-min, bounded_subtract-eq-max}
use strevm.ProxyTime
use strevm.ProxyTime.{units, FractionalSecond}
use strevm.ProxyTime.Advance.{tick_lem, fast_forward_to_lem}
use strevm.GasTime.{Time, Config, tick, fast_forward_to, reduce_by_seconds}

-- A configuration that `newConfig` accepts.
pub record ConfigIsValid (c : Config) : Type 0 where
  pub scaling_pos : 0 < c.target_to_excess_scaling
  pub scaling_in : IsU64 c.target_to_excess_scaling
  pub price_pos : 0 < c.min_price
  pub price_in : IsU64 c.min_price

-- The rate is twice the target, which is not zero.
pub record IsValid (tm : Time) : Type 0 where
  pub clock : ProxyTime.IsValid tm.time
  pub rate : tm.time.hertz ≡ tm.target * 2
  pub target_pos : 0 < tm.target
  pub excess_in : IsU64 tm.excess
  pub config_valid : ConfigIsValid tm.config

-- Half of the gas goes to the target: `g * T / R`, for `R = 2 * T`.
half_of_gas : (g target : ℕ) → 0 < target → g * target / (target * 2) ≡ g / 2
half_of_gas g target hp = rw (mul_comm target 2) (mul-div-mul_right g 2 hp)

mul_div_half :
    (g target : ℕ)
    → IsU64 g
    → 0 < target
    → IsU64 (target * 2)
    → (rem : ℕ) × (mul_div g target (target * 2) ≡ ok (g / 2, rem))
mul_div_half g target hg hp ht = (
  g * target % (target * 2),
  ground (
    arith,
    mul_div_exact g target (target * 2) hg (omega arith) (omega arith) ht,
    half_of_gas g target hp,
  ),
)

-- `Tick` never panics. It moves the instant by the gas, and raises the excess by half of it, up to
-- the greatest uint64; target and configuration stay.
pub tick_raises_excess :
    (tm : Time) (g : ℕ)
    → IsValid tm
    → IsU64 g
    → units tm.time + g < u64_mod * tm.time.hertz
    → (tm' : Time) × (tick tm g ≡ ok tm')
      × IsValid tm'
      × (units tm'.time ≡ units tm.time + g)
      × (tm'.excess ≡ min (tm.excess + g / 2) max_u64)
      × (tm'.target ≡ tm.target)
      × (tm'.config ≡ tm.config)
unfolding tick
tick_raises_excess tm g v hg room =
    let (time, run, valid, moved, rate) = tick_lem tm.time g v.clock hg room in
    let (rem, half) = mul_div_half g tm.target hg v.target_pos (omega arith) in
    let word : sub_u64 time.hertz tm.target ≡ tm.target = omega arith in
    let twice : time.hertz ≡ tm.target * 2 = rate ∙ v.rate in
    (
      record tm { time = time; excess = min (tm.excess + g / 2) max_u64 },
      rw
          (
            run,
            word,
            twice,
            half,
            bounded_add-eq-min 64 tm.excess (g / 2) max_u64 v.excess_in (omega arith) (omega arith),
          )
          refl,
      record {
        clock = valid;
        rate = twice;
        target_pos = v.target_pos;
        excess_in = omega arith;
        config_valid = v.config_valid;
      },
      moved,
      refl,
      refl,
      refl,
    )

-- The reduction of the excess by whole seconds stops at zero.
reduce_by_seconds-eq :
    (excess s target : ℕ)
    → IsU64 excess
    → 0 < target
    → reduce_by_seconds excess s target ≡ ok (excess - s * target)
unfolding reduce_by_seconds
reduce_by_seconds-eq excess s target hx hp = ground (
  arith,
  (le-div_iff_mul-le {k = target} {x = s} {y = excess} hp).0,
  (div-lt_iff_lt-mul {k = target} {x = excess} {y = s} hp).0,
)

-- `FastForwardTo` a target whose seconds fit in a word never panics. It moves to the later of the
-- instant and the target, and lowers the excess by half of the gas that is skipped, down to zero;
-- target and configuration stay.
pub fast_forward_lowers_excess :
    (tm : Time) (to to_frac : ℕ)
    → IsValid tm
    → to + to_frac / tm.time.hertz < u64_mod
    → (tm' : Time) × (fast_forward_to tm to to_frac ≡ ok tm')
      × IsValid tm'
      × (units tm'.time ≡ max (units tm.time) (to * tm.time.hertz + to_frac))
      × (tm'.excess ≡ tm.excess - (units tm'.time - units tm.time) / 2)
      × (tm'.target ≡ tm.target)
      × (tm'.config ≡ tm.config)
unfolding fast_forward_to
fast_forward_lowers_excess tm to to_frac v fit =
    let (time, sec, frac, run, moved, f) = fast_forward_to_lem tm.time to to_frac v.clock fit in
    let twice : time.hertz ≡ tm.target * 2 = f.rate ∙ v.rate in
    let small : frac.numerator < tm.target * 2 = omega arith in
    let (rem, half) =
      mul_div_half frac.numerator tm.target (omega arith) v.target_pos (omega arith) in
    let excess : ℕ = tm.excess - (units time - units tm.time) / 2 in
    let scaled = ap (λ (x : ℕ). sec * x) v.rate in
    let skipped : units time ≡ units tm.time + (sec * (tm.target * 2) + frac.numerator) =
      omega arith in
    let drop : excess ≡ tm.excess - sec * tm.target - frac.numerator / 2 = omega arith in
    (
      record tm { time = time; excess = excess },
      rw
          (
            run,
            twice,
            half,
            reduce_by_seconds-eq tm.excess sec tm.target v.excess_in v.target_pos,
            bounded_subtract-eq-max 64 (tm.excess - sec * tm.target) (frac.numerator / 2) 0
                (omega arith) (omega arith) (omega arith),
          )
          (ground (arith, λ (e : sec ≡ 0). ap (λ (x : ℕ). x * tm.target) e)),
      record {
        clock = f.valid;
        rate = twice;
        target_pos = v.target_pos;
        excess_in = omega arith;
        config_valid = v.config_valid;
      },
      moved,
      refl,
      refl,
      refl,
    )
