-- ===== src/GasTime/Target.antt =====
-- Construction of gastime/gastime.go's clock, and changes of its target.
use strevm.Base.{
  ◌≢◌, panic, ℕ, ap, ◌+◌, ◌-◌, ◌/◌, ◌*◌, ◌≤◌, ◌<◌, ◌≡◌, refl, min, max, ok, arith, IsU64, u64_mod,
  max_u64,
}
use native.Mathlib.Nat.{mul-le-mul_right}
use strevm.IntMath.MulDiv.{mul_div_ceil_lem}
use strevm.ProxyTime
use strevm.ProxyTime.{scale, units, Instant, nanoseconds_per_second}
use strevm.ProxyTime.Rate.{set_rate_lem, scale_lem}
use strevm.ProxyTime.Convert.{of_lem, in_nanoseconds}
use strevm.Hook.{GasPriceConfig, validate, Points, Header, IsLawful}
use strevm.GasTime.{
  Time, Config, new, new_config, set_target, rate_of, clamp_target, sub_second, safe_rate_of_target,
}
use strevm.GasTime.Excess.{IsValid, ConfigIsValid}

-- The clamp leaves a target that is not zero, and whose rate fits in a word.
pub clamp_target_bounds :
    (t : ℕ)
    → (0 < clamp_target t)
      × (rate_of (clamp_target t) ≡ clamp_target t * 2)
      × IsU64 (clamp_target t * 2)
clamp_target_bounds t = omega arith

-- `SafeRateOfTarget` never overflows: it is twice the target, for a target within the limits, and
-- twice the nearer limit for any other.
pub safe_rate_of_target_lem :
    (t : ℕ)
    → (safe_rate_of_target t ≡ 2 * min (max t 1) (max_u64 / 2))
      × (0 < safe_rate_of_target t)
      × IsU64 (safe_rate_of_target t)
unfolding safe_rate_of_target
safe_rate_of_target_lem t = omega arith

-- `newConfig` accepts exactly the configurations whose scaling and whose price are not zero.
pub new_config_lem :
    (c : GasPriceConfig)
    → IsU64 c.target_to_excess_scaling
    → IsU64 c.min_price
    → ((cfg : Config) → new_config c ≡ ok cfg → ConfigIsValid cfg)
      × (0 < c.target_to_excess_scaling
          → 0 < c.min_price
          → (cfg : Config) × (new_config c ≡ ok cfg)
            × (cfg.target_to_excess_scaling ≡ c.target_to_excess_scaling)
            × (cfg.min_price ≡ c.min_price)
            × (cfg.static_pricing ≡ c.static_pricing))
unfolding new_config validate
new_config_lem c hs hm = (
  λ cfg e. ground arith,
  λ ps pm. (
    record {
      target_to_excess_scaling = c.target_to_excess_scaling;
      min_price = c.min_price;
      static_pricing = c.static_pricing;
    },
    ground arith,
    refl,
    refl,
    refl,
  ),
)

-- `SetTarget` never panics. The target is clamped, the rate is twice the target, the instant moves
-- by less than a unit, and the excess is scaled like the rate, rounded up and capped at the
-- greatest uint64.
pub set_target_lem :
    (tm : Time) (t : ℕ)
    → IsValid tm
    → tm.time.seconds + 1 < u64_mod
    → let target = min (max t 1) (max_u64 / 2) in
      (tm' : Time) × (set_target tm t ≡ ok tm')
      × IsValid tm'
      × (tm'.target ≡ target)
      × (tm'.excess
          ≡ min ((tm.excess * (target * 2) + (tm.time.hertz - 1)) / tm.time.hertz) max_u64)
      × (tm'.config ≡ tm.config)
      × (units tm.time * (target * 2) ≤ units tm'.time * tm.time.hertz)
      × (units tm'.time * tm.time.hertz < units tm.time * (target * 2) + tm.time.hertz)
unfolding set_target
set_target_lem tm t v room =
    let (pos, rate, fits) = clamp_target_bounds t in
    let r = clamp_target t * 2 in
    let (time, run, valid, hertz, lo, hi) =
      set_rate_lem tm.time r v.clock (omega arith) fits room in
    let scaled = scale_lem tm.time tm.excess r v.clock v.excess_in fits in
    let excess = min ((tm.excess * r + (tm.time.hertz - 1)) / tm.time.hertz) max_u64 in
    (
      record tm { time = time; target = clamp_target t; excess = excess },
      rw (rate, run, scaled) (ground arith),
      record {
        clock = valid;
        rate = hertz;
        target_pos = pos;
        excess_in = omega arith;
        config_valid = v.config_valid;
      },
      refl,
      refl,
      refl,
      lo,
      hi,
    )

-- `SubSecond` scales the sub-second time to the rate, rounded up: the result is at most the rate.
pub sub_second_lem :
    (hooks : Points) (h : Header) (rate : ℕ)
    → IsLawful hooks
    → IsU64 rate
    → (g : ℕ) × (sub_second hooks h rate ≡ ok g)
      × (g ≤ rate)
      × (hooks.sub_second_block_time h * rate ≤ g * nanoseconds_per_second)
      × (g * nanoseconds_per_second < hooks.sub_second_block_time h * rate + nanoseconds_per_second)
unfolding sub_second
sub_second_lem hooks h rate lawful hr =
    let ns = hooks.sub_second_block_time h in
    let below = lawful.sub_second h in
    let bound : ns * rate ≤ 999_999_999 * rate = mul-le-mul_right rate (omega arith) in
    let q = (ns * rate + 999_999_999) / nanoseconds_per_second in
    let scaled =
      mul_div_ceil_lem ns rate nanoseconds_per_second (omega arith) hr (omega arith)
        (omega arith) in
    (q, ground arith, omega arith, omega arith, omega arith)

new-eq-ok :
    (at : Instant) (target excess : ℕ) (c : GasPriceConfig) (cfg : Config) (t time : ProxyTime.Time)
    → new_config c ≡ ok cfg
    → ProxyTime.of at ≡ ok t
    → ProxyTime.set_rate t (clamp_target target * 2) ≡ ok time
    → new at target excess c
      ≡ ok (record { time = time; target = clamp_target target; excess = excess; config = cfg })
unfolding new
new-eq-ok at target excess c cfg t time e₁ e₂ e₃ =
    rw (e₁, e₂, (clamp_target_bounds target).1, e₃) refl

-- `New` accepts a valid configuration: the clock is valid, starts at the given excess, and its
-- instant is the given time, rounded up by less than a unit of gas.
pub new_lem :
    (at : Instant) (target excess : ℕ) (c : GasPriceConfig)
    → at.unix + 1 < u64_mod
    → at.nanosecond < nanoseconds_per_second
    → IsU64 excess
    → IsU64 c.target_to_excess_scaling
    → IsU64 c.min_price
    → 0 < c.target_to_excess_scaling
    → 0 < c.min_price
    → (tm : Time) × (new at target excess c ≡ ok tm)
      × IsValid tm
      × (tm.excess ≡ excess)
      × (tm.target ≡ clamp_target target)
      × ((at.unix * nanoseconds_per_second + at.nanosecond) * tm.time.hertz
          ≤ units tm.time * nanoseconds_per_second)
      × (units tm.time * nanoseconds_per_second
          < (at.unix * nanoseconds_per_second + at.nanosecond) * tm.time.hertz
            + nanoseconds_per_second)
unfolding new
new_lem at target excess c hu hn hx hs hm ps pm =
    let (pos, rate, fits) = clamp_target_bounds target in
    let r = clamp_target target * 2 in
    let (valid_cfg, accepted) = new_config_lem c hs hm in
    let (cfg, run_cfg, e₁, e₂, e₃) = accepted ps pm in
    let (run, v) = of_lem at (omega arith) hn in
    let (time, run', valid, hertz, lo, hi) =
      set_rate_lem (in_nanoseconds at) r v (omega arith) fits hu in
    (
      record { time = time; target = clamp_target target; excess = excess; config = cfg },
      new-eq-ok at target excess c cfg (in_nanoseconds at) time run_cfg run run',
      record {
        clock = valid;
        rate = hertz;
        target_pos = pos;
        excess_in = hx;
        config_valid = valid_cfg cfg run_cfg;
      },
      refl,
      refl,
      let scaled = ap (λ (x : ℕ). (at.unix * nanoseconds_per_second + at.nanosecond) * x) hertz in
          omega arith,
      let scaled = ap (λ (x : ℕ). (at.unix * nanoseconds_per_second + at.nanosecond) * x) hertz in
          omega arith,
    )

pub new_config-ne-panic : (c : GasPriceConfig) → new_config c ≢ panic
unfolding new_config validate
new_config-ne-panic c e = ground arith
