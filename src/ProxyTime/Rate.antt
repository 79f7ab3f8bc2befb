-- ===== src/ProxyTime/Rate.antt =====
-- Changes of rate and of unit (proxytime/proxytime.go): every rounding is up, by less than a unit.
use strevm.Base.{
  ℕ, suc, ◌+◌, ◌-◌, ◌/◌, ◌%◌, ◌*◌, ◌≤◌, ◌<◌, ◌≡◌, ap, ok, arith, dec_lt, ltb, err, overflow,
  if◌then◌else◌, IsU64, u64_mod, refl,
}
use native.Mathlib.Nat.{mul-le-mul_right, div-add-mod', mod-lt}
use strevm.IntMath.MulDiv.{mul_div_ceil_lem}
use strevm.ProxyTime.{scale, Time, IsValid, units, scale_fraction, set_rate}

-- `Scale` rounds up, and fails exactly where the result would not fit in a word.
pub scale_lem :
    (t : Time) (val r : ℕ)
    → IsValid t
    → IsU64 val
    → IsU64 r
    → let n = val * r + (t.hertz - 1) in
      scale t val r ≡ (if ltb (n / t.hertz) u64_mod then ok (n / t.hertz) else err overflow)
unfolding scale
scale_lem t val r v hx hr =
    ground (arith, mul_div_ceil_lem val r t.hertz hx hr (omega arith) v.hertz_in)

-- `scaleFraction` never panics on a valid instant. It returns the fraction in the new rate,
-- rounded up, which is at most that rate.
pub scale_fraction_lem :
    (t : Time) (r : ℕ)
    → IsValid t
    → IsU64 r
    → (q : ℕ) × (extra : ℕ) × (scale_fraction t r ≡ ok q)
      × (q * t.hertz ≡ t.fraction * r + extra)
      × (extra < t.hertz)
      × (q ≤ r)
unfolding scale_fraction
scale_fraction_lem t r v hr =
    let n = t.fraction * r + (t.hertz - 1) in
    let q = n / t.hertz in
    let split = div-add-mod' n t.hertz in
    let rem : n % t.hertz < t.hertz = mod-lt n (omega arith) in
    let bound : suc t.fraction * r ≤ t.hertz * r = mul-le-mul_right r v.fraction_in in
    let small : q ≤ r = elim (dec_lt r q) [
      | yes lt ↦
          absurd
            (let step : suc r * t.hertz ≤ q * t.hertz = mul-le-mul_right t.hertz lt in omega arith)
      | no ge ↦ omega arith
    ] in
    let run = mul_div_ceil_lem t.fraction r t.hertz (omega arith) hr (omega arith) v.hertz_in in
    (q, t.hertz - 1 - n % t.hertz, ground arith, omega arith, omega arith, small)

-- `SetRate` never panics on a valid instant. The new instant is valid at the new rate, not earlier
-- than the old one, and later by less than a unit of the new rate.
pub set_rate_lem :
    (t : Time) (hertz : ℕ)
    → IsValid t
    → 0 < hertz
    → IsU64 hertz
    → t.seconds + 1 < u64_mod
    → (t' : Time) × (set_rate t hertz ≡ ok t')
      × IsValid t'
      × (t'.hertz ≡ hertz)
      × (units t * hertz ≤ units t' * t.hertz)
      × (units t' * t.hertz < units t * hertz + t.hertz)
unfolding set_rate
set_rate_lem t hertz v hp hh room =
    let (q, extra, run, exact, over, small) = scale_fraction_lem t hertz v hh in
    elim (dec_lt q hertz) [
      | yes below ↦ (
        record { seconds = t.seconds; fraction = q; hertz = hertz },
        ground arith,
        ground arith,
        refl,
        omega arith,
        omega arith,
      )
      | no full ↦ (
        record { seconds = t.seconds + 1; fraction = 0; hertz = hertz },
        ground arith,
        ground arith,
        refl,
        let e = ap (λ (x : ℕ). x * t.hertz) (let e' : q ≡ hertz = omega arith in e') in omega arith,
        let e = ap (λ (x : ℕ). x * t.hertz) (let e' : q ≡ hertz = omega arith in e') in omega arith,
      )
    ]

-- The scaled fraction can reach the new rate: it does wherever what is missing to a full second
-- is less than one unit of that rate.
pub scale_fraction_full :
    (t : Time) (r : ℕ)
    → IsValid t
    → IsU64 r
    → (t.hertz - t.fraction) * r < t.hertz
    → scale_fraction t r ≡ ok r
scale_fraction_full t r v hr gap =
    let (q, extra, run, exact, over, small) = scale_fraction_lem t r v hr in
    let missing = t.hertz - t.fraction in
    let parts : t.fraction + missing ≡ t.hertz = omega arith in
    let scaled = ap (λ (x : ℕ). x * r) parts in
    let same : q ≡ r = elim (dec_lt q r) [
      | yes lt ↦
          absurd
            (let step : suc q * t.hertz ≤ r * t.hertz = mul-le-mul_right t.hertz lt in omega arith)
      | no ge ↦ omega arith
    ] in
    ground arith
