-- ===== src/ProxyTime/Convert.antt =====
-- Conversions of proxytime/proxytime.go from and to wall-clock units.
use strevm.Base.{sub_u64, ℕ, ◌+◌, ◌-◌, ◌/◌, ◌%◌, ◌*◌, ◌≤◌, ◌<◌, ◌≡◌, ap, ok, arith, IsU64, refl}
use native.Mathlib.Nat.{mul-le-mul_right}
use strevm.IntMath.MulDiv.{mul_div_exact}
use strevm.ProxyTime.{
  Time, IsValid, units, Instant, of, nanoseconds_per_second, FractionalSecond, convert_milliseconds,
  as_time, UnixArguments, max_i64, sub,
}
use strevm.ProxyTime.Rate.{scale_fraction_lem}

-- An instant of the Go library, in nanoseconds.
abbrev pub in_nanoseconds : Instant → Time
in_nanoseconds at = record {
  seconds = at.unix;
  fraction = at.nanosecond;
  hertz = nanoseconds_per_second;
}

-- `Of` represents every instant of the Go library exactly, at nanosecond resolution.
pub of_lem :
    (at : Instant)
    → IsU64 at.unix
    → at.nanosecond < nanoseconds_per_second
    → (of at ≡ ok (in_nanoseconds at)) × IsValid (in_nanoseconds at)
unfolding of
of_lem at hu hn = (ground arith, ground arith)

-- `ConvertMilliseconds` never panics. It returns the whole seconds, and the rest as a fraction
-- below one, rounded down to a unit of the rate.
pub convert_milliseconds_lem :
    (rate ms : ℕ)
    → 0 < rate
    → IsU64 rate
    → (frac : FractionalSecond) × (convert_milliseconds rate ms ≡ ok (ms / 1000, frac))
      × (frac.denominator ≡ rate)
      × (frac.numerator < rate)
      × (frac.numerator * 1000 ≤ ms % 1000 * rate)
      × (ms % 1000 * rate < frac.numerator * 1000 + 1000)
unfolding convert_milliseconds
convert_milliseconds_lem rate ms hp hr =
    let n = ms % 1000 * rate in
    let small : n ≤ 999 * rate = mul-le-mul_right rate (omega arith) in
    (
      record { numerator = n / 1000; denominator = rate },
      ground
          (arith, mul_div_exact (ms % 1000) rate 1000 (omega arith) hr (omega arith) (omega arith)),
      refl,
      omega arith,
      omega arith,
      omega arith,
    )

-- Within the range of int64, `AsTime` hands over the instant in nanoseconds, rounded up by less
-- than one. The nanoseconds can be a full second, which `time.Unix` carries.
pub as_time_lem :
    (t : Time)
    → IsValid t
    → t.seconds ≤ max_i64
    → (at : UnixArguments) × (as_time t ≡ ok at)
      × (at.nsec ≤ nanoseconds_per_second)
      × (units t * nanoseconds_per_second ≤ (at.sec * nanoseconds_per_second + at.nsec) * t.hertz)
      × ((at.sec * nanoseconds_per_second + at.nsec) * t.hertz
          < units t * nanoseconds_per_second + t.hertz)
unfolding as_time
as_time_lem t v small =
    let (q, extra, run, exact, over, le) =
      scale_fraction_lem t nanoseconds_per_second v (omega arith) in
    (record { sec = t.seconds; nsec = q }, ground arith, le, omega arith, omega arith)

-- `Sub` of no more seconds than there are moves the instant back by exactly those seconds.
pub sub_lem :
    (t : Time) (s : ℕ)
    → IsValid t
    → s ≤ t.seconds
    → IsValid (sub t s) × (units (sub t s) + s * t.hertz ≡ units t) × ((sub t s).hertz ≡ t.hertz)
unfolding sub
sub_lem t s v le =
    let e : t.seconds - s + s ≡ t.seconds = omega arith in
    let scaled = ap (λ (x : ℕ). x * t.hertz) e in
    let word : sub_u64 t.seconds s ≡ t.seconds - s = omega arith in
    (ground arith, rw word (omega arith), refl)
