-- ===== src/GasPrice/Suggested.antt =====
-- SuggestGasTipCap of gasprice/estimator.go: the price that is suggested, over all histories of calls.
use strevm.IntMath.{bounded_subtract}
use strevm.GasPrice.Valid.{IsValid}
use strevm.GasPrice.Sorted.{ascending_place, no_lower, no_higher, length_of_counts, count, IsSort}
use strevm.Base.{
  ap, ◌∙◌, ◌>>=◌, leb→le, leb, Bool-cases, inr, max, clamp_bounds, inl, ◌⊎◌, zero, [], big_max, suc,
  big_min, ◌≤ℤ◌, some, get_elem?, arith, length, ℤ, ◌*◌, List, ◌≡◌, ◌≤◌, ◌<◌, refl, ℕ, ok, ◌∷◌, ◌-◌,
  ◌+◌,
}
use strevm.WorstCase
use strevm.WorstCase.{deref}
use strevm.GasPrice.{
  recent_unix, recent_tips, suggest_with, Backend, price_of, suggest_locked, Transaction, LruCache,
  Config, percentile_price, percentile_index, Estimator,
}

-- The tip `v` stands at the percentile: so many tips are no higher, and the others no lower.
pub record StandsAt (percentile : ℕ) (tips : List Transaction) (v : ℤ) : Type 0 where
  pub enough_below : percentile_index (length tips) percentile + 1 ≤ count (no_higher v) tips
  pub enough_above :
      length tips ≤ count (no_lower v) tips + percentile_index (length tips) percentile

percentile_index-lt :
    (n percentile : ℕ) → 0 < n → percentile ≤ 100 → percentile_index n percentile < n
unfolding percentile_index
percentile_index-lt n percentile pos_n most =
    let low : (n - 1) * percentile ≤ (n - 1) * 100 = grind arith in omega arith

get_elem?-below {ℓ} :
    {A : Type ℓ} (xs : List A) (i : ℕ) → i < length xs → (x : A) × (get_elem? xs i ≡ some x)
get_elem?-below [] i below = absurd (omega arith)
get_elem?-below (x ∷ xs) zero below = (x, refl)
get_elem?-below (x ∷ xs) (suc i) below = get_elem?-below xs i (omega arith)

module _ (sort : List Transaction → List Transaction) (sorts : IsSort sort) where
  length-sort : (tips : List Transaction) → length (sort tips) ≡ length tips
  length-sort tips = length_of_counts sort sorts.counts tips

  -- The element of the sorted tips at the index of the percentile.
  sorted_element :
      (percentile : ℕ) (tips : List Transaction)
      → 0 < length tips
      → percentile ≤ 100
      → (t : Transaction) × (get_elem? (sort tips) (percentile_index (length tips) percentile)
          ≡ some t)
        × StandsAt percentile tips t.tip
  sorted_element percentile tips some_tips most =
      let inside = percentile_index-lt (length tips) percentile some_tips most in
      let (t, there) =
        get_elem?-below (sort tips) (percentile_index (length tips) percentile)
          (omega (arith, length-sort tips)) in
      let (below, above) =
        ascending_place (sort tips) (percentile_index (length tips) percentile) t
          (sorts.ascends tips) there in
      (
        t,
        there,
        record {
          enough_below = omega (arith, sorts.counts (no_higher t.tip) tips);
          enough_above = omega (arith, sorts.counts (no_lower t.tip) tips, length-sort tips);
        },
      )

module _ (effective_gas_tip_value : WorstCase.Transaction → ℕ → ℤ)
    (sort : List Transaction → List Transaction) (lru : LruCache) (sorts : IsSort sort) where
  -- An estimator whose last price is within the bounds of its configuration.
  pub record IsBounded (e : Estimator effective_gas_tip_value sort lru) : Type 0 where
    pub valid : IsValid e.config
    pub not_below : valid.lowest ≤ℤ e.price
    pub not_above : e.price ≤ℤ valid.highest

  percentile_price_lem :
      (c : Config) (v : IsValid c) (tips : List Transaction)
      → 0 < length tips
      → (tip : ℤ) × StandsAt c.suggested_tip_percentile tips tip
        × (percentile_price effective_gas_tip_value sort lru c tips
            ≡ ok (big_min (big_max tip v.lowest) v.highest))
  unfolding percentile_price
  percentile_price_lem c v tips some_tips =
      let (t, there, stands) =
        sorted_element sort sorts c.suggested_tip_percentile tips some_tips v.percent in
      (t.tip, stands, rw (there, v.has_lowest, v.has_highest) refl)

  -- What a price is made from, and the bounds that it keeps.
  pub record IsPrice (e : Estimator effective_gas_tip_value sort lru) (v : IsValid e.config)
      (tips : List Transaction) (price : ℤ) : Type 0 where
    pub above_lowest : v.lowest ≤ℤ price
    pub below_highest : price ≤ℤ v.highest
    pub of_tips :
        ((tips ≡ []) × (price ≡ e.price))
        ⊎ ((tip : ℤ) × StandsAt e.config.suggested_tip_percentile tips tip
            × (price ≡ big_min (big_max tip v.lowest) v.highest))

  price_of_lem :
      (e : Estimator effective_gas_tip_value sort lru) (b : IsBounded e) (tips : List Transaction)
      → (price : ℤ) × (price_of effective_gas_tip_value sort lru e tips ≡ ok price)
        × IsPrice e b.valid tips price
  unfolding price_of
  price_of_lem e b [] = (
    e.price,
    refl,
    record { above_lowest = b.not_below; below_highest = b.not_above; of_tips = inl (refl, refl) },
  )
  price_of_lem e b (t ∷ rest) =
      let (tip, stands, run) = percentile_price_lem e.config b.valid (t ∷ rest) (omega arith) in
      let (low, high) = clamp_bounds b.valid.lowest b.valid.highest tip b.valid.ordered in
      (
        big_min (big_max tip b.valid.lowest) b.valid.highest,
        run,
        record { above_lowest = low; below_highest = high; of_tips = inr (tip, stands, refl) },
      )

  -- The recent blocks that a call reads, and their tips.
  abbrev pub read :
      Backend
      → ℕ
      → (e : Estimator effective_gas_tip_value sort lru) → IsBounded e
      → lru.Carrier × List Transaction
  read backend newest e b =
      recent_tips effective_gas_tip_value sort lru backend
        (recent_unix (b.valid.clock backend.moment) e.config.suggested_tip_max_duration)
        (newest - bounded_subtract 64 newest e.config.suggested_tip_max_blocks 0) newest e.cache

  -- Under the write lock the suggestion succeeds. With no block that is newer the estimator and its
  -- price stay; otherwise the price is made from the tips of the recent blocks.
  pub suggest_locked_lem :
      (backend : Backend) (newest : ℕ) (e : Estimator effective_gas_tip_value sort lru)
      (b : IsBounded e)
      → (f : Estimator effective_gas_tip_value sort lru) × (price : ℤ) × (suggest_locked
            effective_gas_tip_value sort lru backend newest e
          ≡ ok (f, price))
        × IsBounded f
        × (f.config ≡ e.config)
        × (f.price ≡ price)
        × (f.number ≡ max newest e.number)
        × ((newest ≤ e.number) × (f ≡ e)
            ⊎ (e.number < newest) × IsPrice e b.valid (read backend newest e b).1 price)
  unfolding suggest_locked suggest_with
  suggest_locked_lem backend newest e b = elim (Bool-cases (leb newest e.number)) [
    | inl known ↦
        (e, e.price, rw known refl, b, refl, refl, ground arith, inl (leb→le _ _ known, refl))
    | inr newer ↦
        let (price, made, is_price) = price_of_lem e b (read backend newest e b).1 in
        (
          record e { number = newest; price = price; cache = (read backend newest e b).0 },
          price,
          rw newer (
              ap
                (λ clock.
                  deref clock >>= suggest_with effective_gas_tip_value sort lru backend newest e)
                b.valid.has_clock
              ∙ rw made refl),
          record {
            valid = b.valid;
            not_below = is_price.above_lowest;
            not_above = is_price.below_highest;
          },
          refl,
          refl,
          ground arith,
          inr (ground arith, is_price),
        )
  ]
