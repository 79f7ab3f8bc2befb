-- ===== src/GasPrice/Valid.antt =====
-- `validate` of gasprice/estimator.go, and the bounds that a configuration gives a price.
use strevm.ProxyTime.{Instant}
use strevm.Base.{inr, arith, inl, ◌≤ℤ◌, some, Option-cases, ℤ, ◌≡◌, ◌≤◌, ◌<◌, ◌↔◌, ℕ, ok}
use strevm.GasPrice.{validate, validate_tips, Config}

-- The bounds of a configuration, and what it is to be valid.
pub record IsValid (c : Config) : Type 0 where
  pub clock : ℕ → Instant
  pub lowest : ℤ
  pub highest : ℤ
  pub has_clock : c.now ≡ some clock
  pub has_lowest : c.min_suggested_tip ≡ some lowest
  pub has_highest : c.max_suggested_tip ≡ some highest
  pub ordered : lowest ≤ℤ highest
  pub positive : 0 < c.suggested_tip_percentile
  pub percent : c.suggested_tip_percentile ≤ 100

validate_tips_inverts :
    (percentile : ℕ) (low high : ℤ)
    → validate_tips percentile low high ≡ ok tt
    → (low ≤ℤ high) × (0 < percentile) × (percentile ≤ 100)
unfolding validate_tips
validate_tips_inverts percentile low high run = ground arith

validate_tips_passes :
    (percentile : ℕ) (low high : ℤ)
    → low ≤ℤ high
    → 0 < percentile
    → percentile ≤ 100
    → validate_tips percentile low high ≡ ok tt
unfolding validate_tips
validate_tips_passes percentile low high ordered positive percent = ground arith

validate_inverts : (c : Config) → validate c ≡ ok tt → IsValid c
unfolding validate
validate_inverts c run = elim (Option-cases c.now) [
  | inl missing ↦ absurd (ground arith)
  | inr (clock, has_clock) ↦ elim (Option-cases c.min_suggested_tip) [
    | inl missing ↦ absurd (ground arith)
    | inr (low, has_low) ↦ elim (Option-cases c.max_suggested_tip) [
      | inl missing ↦ absurd (ground arith)
      | inr (high, has_high) ↦
          let (ordered, positive, percent) =
            validate_tips_inverts c.suggested_tip_percentile low high
              (rw (has_clock, has_low, has_high) at run) in
          record {
            clock = clock;
            lowest = low;
            highest = high;
            has_clock = has_clock;
            has_lowest = has_low;
            has_highest = has_high;
            ordered = ordered;
            positive = positive;
            percent = percent;
          }
    ]
  ]
]

validate_passes : (c : Config) → IsValid c → validate c ≡ ok tt
unfolding validate
validate_passes c v =
    rw (v.has_clock, v.has_lowest, v.has_highest)
      (validate_tips_passes c.suggested_tip_percentile v.lowest v.highest v.ordered v.positive
        v.percent)

-- A configuration is accepted exactly when it is valid.
pub validate_lem : (c : Config) → (validate c ≡ ok tt) ↔ IsValid c
validate_lem c = (validate_inverts c, validate_passes c)
