-- ===== src/ProxyTime.antt =====
-- proxytime/proxytime.go: an instant measured in units of a proxy, `hertz` of them to a second.
-- A method that changes its receiver returns the new value. The encoding of proxytime.canoto.go is
-- generated, and is not modelled.
pub mod Advance
pub mod Rate
pub mod Order
pub mod Convert
mod Tests
use strevm.Base.{
  ℕ, ◌+◌, ◌-◌, ◌/◌, ◌%◌, ◌*◌, ◌^◌, ◌<◌, Bool, not, Outcome, ok, err, panic, ◌>>=◌, ltb, leb, ◌==◌,
  if◌then◌else◌, compare, Ordering, IsU64, add_u64, sub_u64, bits_mul64, bits_add64, bits_div64,
}
use strevm.IntMath.{mul_div, mul_div_ceil, quotient_or_zero}

-- `Time[D]`
pub record Time : Type 0 where
  pub seconds : ℕ
  pub fraction : ℕ
  pub hertz : ℕ

-- The documented invariant, with the range of the fields.
pub record IsValid (t : Time) : Type 0 where
  pub fraction_in : t.fraction < t.hertz
  pub hertz_in : IsU64 t.hertz
  pub seconds_in : IsU64 t.seconds

-- The instant in units since the epoch, which the representation stands for.
abbrev pub units : Time → ℕ
units t = t.seconds * t.hertz + t.fraction

-- `FractionalSecond[D]`
pub record FractionalSecond : Type 0 where
  pub numerator : ℕ
  pub denominator : ℕ

-- A `time.Time` of the Go library; `unix` is the word of its seconds since the epoch, an int64.
pub record Instant : Type 0 where
  pub unix : ℕ
  pub nanosecond : ℕ

pub clone : Time → Time
clone t = record { seconds = t.seconds; fraction = t.fraction; hertz = t.hertz }

-- `New`
pub new : ℕ → ℕ → Time
new unix_seconds hertz = record { seconds = unix_seconds; fraction = 0; hertz = hertz }

unfoldable pub tick : Time → ℕ → Outcome Time
tick t d = do
  let (frac, carry) = bits_add64 t.fraction d 0
  (quo, rem) ← bits_div64 carry frac t.hertz
  ok (record t { seconds = add_u64 t.seconds quo; fraction = rem })

-- time.Second / time.Nanosecond
abbrev pub nanoseconds_per_second : ℕ
nanoseconds_per_second = 1_000_000_000

-- `Of`
pub of : Instant → Outcome Time
unfolding new tick
of at = tick (new at.unix nanoseconds_per_second) at.nanosecond

-- `Fraction`
abbrev pub fraction_of : Time → FractionalSecond
fraction_of t = record { numerator = t.fraction; denominator = t.hertz }

-- `FractionalSecond.Compare`
pub compare_fraction : FractionalSecond → FractionalSecond → Ordering
compare_fraction f g =
    let (f_hi, f_lo) = bits_mul64 f.numerator g.denominator in
    let (g_hi, g_lo) = bits_mul64 g.numerator f.denominator in
    elim (compare f_hi g_hi) [ Ordering.eq ↦ compare f_lo g_lo | c ↦ c ]

unfoldable pub is_future : Time → ℕ → ℕ → Bool
is_future t sec num = if not (sec == t.seconds) then ltb t.seconds sec else ltb t.fraction num

-- The branch of `FastForwardTo` that moves, at a target whose fraction is reduced.
unfoldable pub forward : Time → ℕ → ℕ → Time × ℕ × FractionalSecond
forward t to to_frac =
    let ff_sec = sub_u64 to t.seconds in
    let moved : Time = record t { seconds = to; fraction = to_frac } in
    if ltb to_frac t.fraction
    then (
      moved,
      sub_u64 ff_sec 1,
      record { numerator = sub_u64 t.hertz (sub_u64 t.fraction to_frac); denominator = t.hertz },
    )
    else (moved, ff_sec, record { numerator = sub_u64 to_frac t.fraction; denominator = t.hertz })

-- `FastForwardTo`; Go's division panics for a rate of zero.
unfoldable pub fast_forward_to : Time → ℕ → ℕ → Outcome (Time × ℕ × FractionalSecond)
fast_forward_to t to to_frac =
    let to' = add_u64 to (to_frac / t.hertz) in
    let to_frac' = to_frac % t.hertz in
    if t.hertz == 0
    then panic
    else if not (is_future t to' to_frac')
    then ok (t, 0, record { numerator = 0; denominator = t.hertz })
    else ok (forward t to' to_frac')

-- `ConvertMilliseconds`
pub convert_milliseconds : ℕ → ℕ → Outcome (ℕ × FractionalSecond)
convert_milliseconds rate ms = do
  numerator ← quotient_or_zero (mul_div (ms % 1000) rate 1000)
  ok (ms / 1000, record { numerator = numerator; denominator = rate })

-- `Scale`
unfoldable pub scale : Time → ℕ → ℕ → Outcome ℕ
scale t val new_rate = do (scaled, extra) ← mul_div_ceil val new_rate t.hertz; ok scaled

-- An error of `Scale` is a panic of `scaleFraction`.
abbrev pub panic_on_error {ℓ} : {A : Type ℓ} → Outcome A → Outcome A
panic_on_error (ok a) = ok a
panic_on_error (err e) = panic
panic_on_error panic = panic

unfoldable pub scale_fraction : Time → ℕ → Outcome ℕ
unfolding scale
scale_fraction t new_rate = panic_on_error (scale t t.fraction new_rate)

unfoldable pub set_rate : Time → ℕ → Outcome Time
unfolding scale_fraction
set_rate t hertz = do
  frac ← scale_fraction t hertz
  if leb hertz frac
      then ok
          (record { seconds = add_u64 t.seconds 1; fraction = sub_u64 frac hertz; hertz = hertz })
      else ok (record { seconds = t.seconds; fraction = frac; hertz = hertz })

-- `Sub`
pub sub : Time → ℕ → Time
sub t s = record t { seconds = sub_u64 t.seconds s }

-- `Time.Compare`
pub compare_time : Time → Time → Ordering
unfolding compare_fraction
compare_time t u = elim (compare t.seconds u.seconds) [
  | Ordering.eq ↦ compare_fraction (fraction_of t) (fraction_of u)
  | c ↦ c
]

-- `CompareUnix`
pub compare_unix : Time → ℕ → Ordering
unfolding compare_time
compare_unix t sec = compare_time t (record { seconds = sec; fraction = 0; hertz = t.hertz })

-- The arguments that `AsTime` hands to the Go library's `time.Unix`.
pub record UnixArguments : Type 0 where
  pub sec : ℕ
  pub nsec : ℕ

-- math.MaxInt64
abbrev pub max_i64 : ℕ
max_i64 = 2 ^ 63 - 1

pub as_time : Time → Outcome UnixArguments
unfolding scale_fraction
as_time t = if ltb max_i64 t.seconds then ok (record { sec = max_i64; nsec = max_i64 }) else (do
  nsec ← scale_fraction t nanoseconds_per_second
  ok (record { sec = t.seconds; nsec = nsec }))
