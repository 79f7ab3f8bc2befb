-- ===== src/GasTime/Below.antt =====
-- The gas clock of the execution stays below that of the worst case: gastime/acp176.go run twice, on
-- less gas and on more.
use native.Mathlib.Nat.{div-add-mod', mul-le-mul_right, mod-lt}
use strevm.Base.{
  refl, ◌-◌, max_u64, sym, max, ◌∙◌, min, ap, arith, ok, dec_le, u64_mod, IsU64, ◌/◌, ◌*◌, ◌+◌, ◌<◌,
  ◌≤◌, ℕ, ◌≡◌,
}
use strevm.ProxyTime.{units}
use strevm.GasTime.{set_target, Time, tick, fast_forward_to}
use strevm.GasTime.Excess.{IsValid, tick_raises_excess, fast_forward_lowers_excess}
use strevm.GasTime.Target.{set_target_lem}

-- With the same target and configuration, the clock is no later and its excess no greater.
pub record IsBelow (low high : Time) : Type 0 where
  pub target : low.target ≡ high.target
  pub config : low.config ≡ high.config
  pub hertz : low.time.hertz ≡ high.time.hertz
  pub instant : units low.time ≤ units high.time
  pub excess : low.excess ≤ high.excess

ceil_mono : (a b c d r h : ℕ) → a ≤ b → c * h < a * r + h → b * r ≤ d * h → c ≤ d
ceil_mono a b c d r h le upper lower = elim (dec_le c d) [
  | yes le' ↦ le'
  | no gt ↦
      let more : (d + 1) * h ≤ c * h = mul-le-mul_right h (omega arith) in
      let scaled : a * r ≤ b * r = mul-le-mul_right r le in absurd (omega arith)
]

div_mono : (a b h : ℕ) → 0 < h → a ≤ b → a / h ≤ b / h
div_mono a b h pos le =
    let below = mod-lt b pos in
    let split = div-add-mod' a h in
    let split' = div-add-mod' b h in
    elim (dec_le (a / h) (b / h)) [
      | yes le' ↦ le'
      | no gt ↦
          let more : (b / h + 1) * h ≤ a / h * h = mul-le-mul_right h (omega arith) in
          absurd (omega arith)
    ]

-- The same gas, or more, moves the upper clock further.
pub tick-IsBelow :
    (low high : Time) (g g' : ℕ)
    → IsValid low
    → IsValid high
    → IsBelow low high
    → g ≤ g'
    → IsU64 g'
    → units high.time + g' < u64_mod * high.time.hertz
    → (low' : Time) × (high' : Time) × (tick low g ≡ ok low')
      × (tick high g' ≡ ok high')
      × IsValid low'
      × IsValid high'
      × (units high'.time ≡ units high.time + g')
      × (high'.time.hertz ≡ high.time.hertz)
      × IsBelow low' high'
tick-IsBelow low high g g' v v' b le hg room =
    let same : u64_mod * low.time.hertz ≡ u64_mod * high.time.hertz =
      ap (λ (h : ℕ). u64_mod * h) b.hertz in
    let (low', run, valid, moved, excess, target, config) =
      tick_raises_excess low g v (omega arith) (omega (arith, b.instant)) in
    let (high', run', valid', moved', excess', target', config') =
      tick_raises_excess high g' v' hg room in
    (
      low',
      high',
      run,
      run',
      valid,
      valid',
      moved',
      omega (arith, valid'.rate, target'),
      record {
        target = target ∙ b.target ∙ sym target';
        config = config ∙ b.config ∙ sym config';
        hertz = omega (arith, valid.rate, valid'.rate, b.target);
        instant = omega (arith, b.instant);
        excess = omega (arith, b.excess);
      },
    )

-- Both clocks move to the same target, over which the lower one loses no less excess.
pub fast_forward-IsBelow :
    (low high : Time) (to to_frac : ℕ)
    → IsValid low
    → IsValid high
    → IsBelow low high
    → to + to_frac / high.time.hertz < u64_mod
    → (low' : Time) × (high' : Time) × (fast_forward_to low to to_frac ≡ ok low')
      × (fast_forward_to high to to_frac ≡ ok high')
      × IsValid low'
      × IsValid high'
      × IsBelow low' high'
fast_forward-IsBelow low high to to_frac v v' b fit =
    let fits : to_frac / low.time.hertz ≡ to_frac / high.time.hertz =
      ap (λ (h : ℕ). to_frac / h) b.hertz in
    let aim : to * low.time.hertz ≡ to * high.time.hertz = ap (λ (h : ℕ). to * h) b.hertz in
    let (low', run, valid, moved, excess, target, config) =
      fast_forward_lowers_excess low to to_frac v (omega arith) in
    let (high', run', valid', moved', excess', target', config') =
      fast_forward_lowers_excess high to to_frac v' fit in
    (
      low',
      high',
      run,
      run',
      valid,
      valid',
      record {
        target = target ∙ b.target ∙ sym target';
        config = config ∙ b.config ∙ sym config';
        hertz = omega (arith, valid.rate, valid'.rate, b.target);
        instant = omega (arith, b.instant);
        excess = omega (arith, b.excess, b.instant);
      },
    )

pub set_target-IsBelow :
    (low high : Time) (t : ℕ)
    → IsValid low
    → IsValid high
    → IsBelow low high
    → low.time.seconds + 1 < u64_mod
    → high.time.seconds + 1 < u64_mod
    → (low' : Time) × (high' : Time) × (set_target low t ≡ ok low')
      × (set_target high t ≡ ok high')
      × IsValid low'
      × IsValid high'
      × IsBelow low' high'
set_target-IsBelow low high t v v' b room room' =
    let (low', run, valid, target, excess, config, lo, hi) = set_target_lem low t v room in
    let (high', run', valid', target', excess', config', lo', hi') =
      set_target_lem high t v' room' in
    let r = min (max t 1) (max_u64 / 2) * 2 in
    let shared : units high'.time * low.time.hertz ≡ units high'.time * high.time.hertz =
      ap (λ (h : ℕ). units high'.time * h) b.hertz in
    let scaled : low.excess * r ≤ high.excess * r = mul-le-mul_right r b.excess in
    let divided : (low.excess * r + (low.time.hertz - 1)) / low.time.hertz
        ≤ (high.excess * r + (low.time.hertz - 1)) / low.time.hertz =
      div_mono _ _ low.time.hertz (omega arith) (omega arith) in
    let moved : (high.excess * r + (low.time.hertz - 1)) / low.time.hertz
        ≡ (high.excess * r + (high.time.hertz - 1)) / high.time.hertz =
      ap (λ (h : ℕ). (high.excess * r + (h - 1)) / h) b.hertz in
    (
      low',
      high',
      run,
      run',
      valid,
      valid',
      record {
        target = target ∙ sym target';
        config = config ∙ b.config ∙ sym config';
        hertz = omega (arith, valid.rate, valid'.rate, target, target');
        instant =
            ceil_mono (units low.time) (units high.time) (units low'.time) (units high'.time) r
              low.time.hertz b.instant hi (omega arith);
        excess = omega arith;
      },
    )

pub IsBelow-refl : (tm : Time) → IsBelow tm tm
IsBelow-refl tm = record {
  target = refl;
  config = refl;
  hertz = refl;
  instant = omega arith;
  excess = omega arith;
}
