-- ===== src/ProxyTime/Advance.antt =====
-- Ticking and fast-forwarding (proxytime/proxytime.go), in units since the epoch.
use strevm.Base.{
  sym, ◌∙◌, inr, inl, Bool-cases, add_u64, ℕ_discrete, false, true, dec_lt, ℕ, suc, ap, refl, panic,
  ◌≢◌, ◌+◌, ◌-◌, ◌/◌, ◌%◌, ◌*◌, ◌≤◌, ◌<◌, ◌≡◌, max, ok, arith, ◌>>=◌, IsU64, u64_mod,
}
use native.Mathlib.Nat.{
  div-add-mod', mod-lt, div-mul-le_self, mul-le-mul_right, lt_of_mul-lt-mul_right,
}
use strevm.ProxyTime.{
  Time, IsValid, units, FractionalSecond, tick, fast_forward_to, forward, is_future,
}

-- A smaller number of seconds makes for fewer units, whatever the fractions.
pub seconds_dominate : (a b h f g : ℕ) → a < b → f < h → a * h + f < b * h + g
seconds_dominate a b h f g lt hf =
    let step : suc a * h ≤ b * h = mul-le-mul_right h lt in omega arith

seconds_determined : (a b h f g : ℕ) → f < h → g < h → a * h + f ≡ b * h + g → (a ≡ b) × (f ≡ g)
seconds_determined a b h f g hf hg e =
    let same : a ≡ b = elim (dec_lt a b) [
      | yes lt ↦ absurd (omega (arith, seconds_dominate a b h f g lt hf))
      | no ge ↦ elim (dec_lt b a) [
        | yes gt ↦ absurd (omega (arith, seconds_dominate b a h g f gt hg))
        | no le ↦ omega arith
      ]
    ] in
    (same, omega (arith, ap (λ (s : ℕ). s * h) same))

-- Units below the wrap leave room for the seconds.
seconds_fit : (s h n : ℕ) → 0 < h → s * h + n < u64_mod * h → s + n / h < u64_mod
seconds_fit s h n hp lt =
    let q = div-mul-le_self n h in
    lt_of_mul-lt-mul_right h {m = s + n / h} {n = u64_mod} (omega arith)

-- Two valid instants of one rate with as many units are one.
pub units_injective :
    (t u : Time) → IsValid t → IsValid u → t.hertz ≡ u.hertz → units t ≡ units u → t ≡ u
units_injective t u vt vu eh eu =
    let e = ap (λ (h : ℕ). u.seconds * h) eh in
    ground (
      arith,
      seconds_determined t.seconds u.seconds t.hertz t.fraction u.fraction vt.fraction_in
          (omega arith) (omega arith),
    )

-- `Tick` by any amount keeps the invariant and the rate, never panics, and moves the instant by
-- exactly that many units, where the new number of seconds fits in a word.
pub tick_lem :
    (t : Time) (d : ℕ)
    → IsValid t
    → IsU64 d
    → units t + d < u64_mod * t.hertz
    → (t' : Time) × (tick t d ≡ ok t')
      × IsValid t'
      × (units t' ≡ units t + d)
      × (t'.hertz ≡ t.hertz)
unfolding tick
tick_lem t d v hd room =
    let n = t.fraction + d in
    let split = div-add-mod' n t.hertz in
    let rem : n % t.hertz < t.hertz = mod-lt n (omega arith) in
    let small : t.seconds + n / t.hertz < u64_mod =
      (seconds_fit t.seconds t.hertz n (omega arith) (omega arith)) in
    (
      record t { seconds = t.seconds + n / t.hertz; fraction = n % t.hertz },
      ground arith,
      record { fraction_in = rem; hertz_in = v.hertz_in; seconds_in = small },
      omega arith,
      refl,
    )

-- `Tick` never panics on a valid instant, whatever the amount; the seconds wrap.
pub tick-ne-panic : (t : Time) (d : ℕ) → IsValid t → IsU64 d → tick t d ≢ panic
unfolding tick
tick-ne-panic t d v hd = ground arith

-- `isFuture` compares the instants, for a fraction below the rate.
is_future_iff :
    (t : Time) (sec num : ℕ)
    → IsValid t
    → num < t.hertz
    → (is_future t sec num ≡ true → units t < sec * t.hertz + num)
      × (is_future t sec num ≡ false → sec * t.hertz + num ≤ units t)
unfolding is_future
is_future_iff t sec num v hn = elim (ℕ_discrete sec t.seconds) [
  | yes e ↦ let e' = ap (λ (s : ℕ). s * t.hertz) e in (λ h. ground arith, λ h. ground arith)
  | no ne ↦ (
    λ h. seconds_dominate t.seconds sec t.hertz t.fraction num (ground arith) v.fraction_in,
    λ h.
        let lt = seconds_dominate sec t.seconds t.hertz num t.fraction (ground arith) hn in
        omega arith,
  )
]

-- What a fast-forward by `sec` seconds and `frac` has done to `t`.
pub record Forwarded (t t' : Time) (sec : ℕ) (frac : FractionalSecond) : Type 0 where
  pub valid : IsValid t'
  pub rate : t'.hertz ≡ t.hertz
  pub denominator : frac.denominator ≡ t.hertz
  pub numerator : frac.numerator < t.hertz
  pub seconds : IsU64 sec
  pub advance : units t' ≡ units t + (sec * t.hertz + frac.numerator)

units-forward :
    (t : Time) (to to_frac : ℕ) → units (forward t to to_frac).0 ≡ to * t.hertz + to_frac
unfolding forward
units-forward t to to_frac = ground arith

forward_lem :
    (t : Time) (to to_frac : ℕ)
    → IsValid t
    → IsU64 to
    → to_frac < t.hertz
    → units t < to * t.hertz + to_frac
    → let (t', sec, frac) = forward t to to_frac in Forwarded t t' sec frac
unfolding forward
forward_lem t to to_frac v hs hf later = elim (dec_lt to_frac t.fraction) [
  | yes borrow ↦
      let order : t.seconds < to = elim (dec_lt t.seconds to) [
        | yes lt ↦ lt
        | no ge ↦ absurd (
            let le = mul-le-mul_right {m = to} {n = t.seconds} t.hertz (omega arith) in omega arith)
      ] in
      let sec = to - t.seconds - 1 in
      let split : t.seconds + suc sec ≡ to = omega arith in
      let scaled = ap (λ (s : ℕ). s * t.hertz) split in
      let value : forward t to to_frac ≡ (
        record t { seconds = to; fraction = to_frac },
        sec,
        record { numerator = t.hertz - (t.fraction - to_frac); denominator = t.hertz },
      ) =
        ground arith in
      rw value (ground arith)
  | no plain ↦
      let order : t.seconds ≤ to = elim (dec_lt to t.seconds) [
        | yes lt ↦ absurd (
            let lt' = seconds_dominate to t.seconds t.hertz to_frac t.fraction lt hf in omega arith)
        | no ge ↦ omega arith
      ] in
      let sec = to - t.seconds in
      let split : t.seconds + sec ≡ to = omega arith in
      let scaled = ap (λ (s : ℕ). s * t.hertz) split in
      let value : forward t to to_frac ≡ (
        record t { seconds = to; fraction = to_frac },
        sec,
        record { numerator = to_frac - t.fraction; denominator = t.hertz },
      ) =
        ground arith in
      rw value (ground arith)
]

-- `FastForwardTo` a target whose seconds fit in a word never panics. It moves to the later of the
-- instant and the target, keeps the invariant and the rate, and returns exactly the time skipped,
-- which is zero where the target is not in the future.
pub fast_forward_to_lem :
    (t : Time) (to to_frac : ℕ)
    → IsValid t
    → to + to_frac / t.hertz < u64_mod
    → (t' : Time) × (sec : ℕ) × (frac : FractionalSecond) × (fast_forward_to t to to_frac
        ≡ ok (t', sec, frac))
      × (units t' ≡ max (units t) (to * t.hertz + to_frac))
      × Forwarded t t' sec frac
unfolding fast_forward_to
fast_forward_to_lem t to to_frac v fit =
    let to' = to + to_frac / t.hertz in
    let frac' = to_frac % t.hertz in
    let small : frac' < t.hertz = mod-lt to_frac (omega arith) in
    let split = div-add-mod' to_frac t.hertz in
    let word : add_u64 to (to_frac / t.hertz) ≡ to' = omega arith in
    let test = is_future_iff t to' frac' v small in
    elim (Bool-cases (is_future t to' frac')) [
      | inl later ↦
          let moved = forward_lem t to' frac' v fit small (test.0 later) in
          (
            (forward t to' frac').0,
            (forward t to' frac').1,
            (forward t to' frac').2,
            rw (word, later) (ground arith),
            omega (arith, units-forward t to' frac'),
            moved,
          )
      | inr past ↦ (
        t,
        0,
        record { numerator = 0; denominator = t.hertz },
        ground arith,
        omega (arith, test.1 past),
        ground arith,
      )
    ]

-- Ticks add up: two in a row are one by the sum, where that fits.
pub tick-tick :
    (t : Time) (d e : ℕ)
    → IsValid t
    → IsU64 (d + e)
    → units t + (d + e) < u64_mod * t.hertz
    → (tick t d >>= λ t'. tick t' e) ≡ tick t (d + e)
tick-tick t d e v hd room =
    let (t₁, run₁, v₁, u₁, r₁) = tick_lem t d v (omega arith) (omega arith) in
    let scaled = ap (λ (x : ℕ). t₁.seconds * x) r₁ in
    let room' : units t₁ + e < u64_mod * t₁.hertz = omega arith in
    let (t₂, run₂, v₂, u₂, r₂) = tick_lem t₁ e v₁ (omega arith) room' in
    let (t₃, run₃, v₃, u₃, r₃) = tick_lem t (d + e) v hd room in
    rw (run₁, run₂, run₃)
      (ap ok (units_injective t₂ t₃ v₂ v₃ (r₂ ∙ r₁ ∙ sym r₃) (u₂ ∙ omega arith)))
