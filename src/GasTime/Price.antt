-- ===== src/GasTime/Price.antt =====
-- The gas price of gastime/gastime.go and the search for an excess of gastime/acp176.go.
use strevm.Base.{
  Bool-cases, max_u64, false, true, ℕ, zero, suc, ◌+◌, ◌-◌, ◌/◌, ◌^◌, ◌≤◌, ◌<◌, ◌≡◌, arith, IsU64,
  dec_lt, refl, ◌⊎◌, inl, inr, true, false, dec_le, lt→ltb, le→leb, ltb-eq-false, leb-eq-false,
}
use native.Mathlib.Nat.{pow-suc}
use strevm.GasTime.{Time, excess_scaling_factor, price, find_excess_for_price, search_excess}

-- What `gas.CalculatePrice` documents: an approximation of `M * e^(x / K)`, which does not fall
-- as the excess grows, and starts at the minimum price.
pub record PriceLaws (calculate_price : ℕ → ℕ → ℕ → ℕ) : Type 0 where
  pub monotone : (m k x y : ℕ) → x ≤ y → calculate_price m x k ≤ calculate_price m y k
  pub starts : (m k : ℕ) → calculate_price m 0 k ≡ m

module _ (calculate_price : ℕ → ℕ → ℕ → ℕ) (laws : PriceLaws calculate_price) where
  -- `r` is where the price first reaches `p` from `lo` on, or is `hi` if it stays below before that.
  pub record IsFirst (m k p lo hi r : ℕ) : Type 0 where
    pub lower : lo ≤ r
    pub upper : r ≤ hi
    pub below : (x : ℕ) → lo ≤ x → x < r → calculate_price m x k < p
    pub reached : r < hi → p ≤ calculate_price m r k

  IsFirst-reached :
      (m k p hi r : ℕ)
      → IsFirst m k p 0 hi r
      → p ≤ calculate_price m hi k
      → p ≤ calculate_price m r k
  IsFirst-reached m k p hi r f edge = elim (dec_lt r hi) [
    | yes inside ↦ f.reached inside
    | no out ↦ let same : r ≡ hi = omega (arith, f.upper) in rw same edge
  ]

  IsFirst-unreached : (m k p hi r : ℕ) → IsFirst m k p 0 hi r → calculate_price m hi k < p → r ≡ hi
  IsFirst-unreached m k p hi r f low = elim (dec_lt r hi) [
    | yes inside ↦ absurd (omega (arith, f.reached inside, laws.monotone m k r hi f.upper, low))
    | no out ↦ omega (arith, f.upper)
  ]

  pub search_excess-IsFirst :
      (fuel m k p lo hi : ℕ)
      → lo ≤ hi
      → hi - lo < 2 ^ fuel
      → IsFirst m k p lo hi (search_excess calculate_price fuel m k p lo hi)
  unfolding search_excess
  search_excess-IsFirst zero m k p lo hi le small = record {
    lower = omega arith;
    upper = le;
    below = λ x a b. absurd (omega arith);
    reached = λ lt. absurd (let one : hi - lo < 1 = small in omega arith);
  }
  search_excess-IsFirst (suc fuel) m k p lo hi le small =
      let width = pow-suc 2 fuel in
      let mid = lo + (hi - lo) / 2 in
      elim (dec_lt lo hi) [
        | no done ↦ rw (ltb-eq-false lo hi done) (record {
          lower = omega arith;
          upper = le;
          below = λ x a b. absurd (omega arith);
          reached = λ lt. absurd (omega arith);
        })
        | yes more ↦ rw (lt→ltb lo hi more) (elim (dec_le p (calculate_price m mid k)) [
          | yes high ↦
              let ih = search_excess-IsFirst fuel m k p lo mid (omega arith) (omega arith) in
              rw (le→leb p _ high) (record {
                lower = ih.lower;
                upper = omega (arith, ih.upper);
                below = ih.below;
                reached = λ lt.
                    elim (dec_lt (search_excess calculate_price fuel m k p lo mid) mid) [
                      | yes inside ↦ ih.reached inside
                      | no edge ↦
                          let same : search_excess calculate_price fuel m k p lo mid ≡ mid =
                            omega (arith, ih.upper) in
                          rw same high
                    ];
              })
          | no low ↦
              let ih = search_excess-IsFirst fuel m k p (mid + 1) hi (omega arith) (omega arith) in
              rw (leb-eq-false p _ low) (record {
                lower = omega (arith, ih.lower);
                upper = ih.upper;
                below = λ x a b. elim (dec_lt mid x) [
                  | yes right ↦ ih.below x (omega arith) b
                  | no left ↦ omega (arith, laws.monotone m k x mid (omega arith))
                ];
                reached = ih.reached;
              })
        ])
      ]

  pub find_excess-eq-zero :
      (tm : Time) (p : ℕ)
      → (tm.config.static_pricing ≡ true) ⊎ (p ≤ tm.config.min_price)
      → find_excess_for_price calculate_price tm p ≡ 0
  unfolding find_excess_for_price
  find_excess-eq-zero tm p (inl e) = ground arith
  find_excess-eq-zero tm p (inr le) = ground arith

  pub find_excess-eq-search :
      (tm : Time) (p : ℕ)
      → tm.config.static_pricing ≡ false
      → tm.config.min_price < p
      → find_excess_for_price calculate_price tm p
        ≡ search_excess calculate_price 64 tm.config.min_price
            (excess_scaling_factor tm)
            p
            0
            max_u64
  unfolding find_excess_for_price
  find_excess-eq-search tm p e lt = simp (leb-eq-false p tm.config.min_price (omega arith), e) refl

  -- `findExcessForPrice` returns zero for static pricing, or where the minimum price reaches the
  -- one that is sought. Otherwise it returns the least excess whose price is at least that one, if
  -- there is one in uint64, and the maximum of uint64 if there is none; its 64 rounds suffice.
  pub find_excess_for_price_lem :
      (tm : Time) (p : ℕ)
      → let x = find_excess_for_price calculate_price tm p in
        (tm.config.static_pricing ≡ true → x ≡ 0)
        × (p ≤ tm.config.min_price → x ≡ 0)
        × (tm.config.static_pricing ≡ false
            → tm.config.min_price < p
            → p ≤ calculate_price tm.config.min_price max_u64 (excess_scaling_factor tm)
            → IsU64 x
              × (p ≤ price calculate_price (record tm { excess = x }))
              × ((y : ℕ) → y < x → price calculate_price (record tm { excess = y }) < p))
        × (tm.config.static_pricing ≡ false
            → tm.config.min_price < p
            → calculate_price tm.config.min_price max_u64 (excess_scaling_factor tm) < p
            → x ≡ max_u64)
  unfolding price excess_scaling_factor
  find_excess_for_price_lem tm p =
      let m = tm.config.min_price in
      let k = excess_scaling_factor tm in
      let first = search_excess-IsFirst 64 m k p 0 max_u64 (omega arith) (omega arith) in
      (
        λ e. find_excess-eq-zero tm p (inl e),
        λ le. find_excess-eq-zero tm p (inr le),
        λ dynamic dear reachable. rw (find_excess-eq-search tm p dynamic dear) (
          omega (arith, first.upper),
          simp dynamic (IsFirst-reached m k p max_u64 _ first reachable),
          λ y lt. simp dynamic (first.below y (omega arith) lt),
        ),
        λ dynamic dear unreached.
            rw (find_excess-eq-search tm p dynamic dear)
              (IsFirst-unreached m k p max_u64 _ first unreached),
      )

  -- The excess that the search returns is a uint64.
  pub find_excess-IsU64 : (tm : Time) (p : ℕ) → IsU64 (find_excess_for_price calculate_price tm p)
  find_excess-IsU64 tm p = elim (Bool-cases tm.config.static_pricing) [
    | inl static ↦ rw (find_excess-eq-zero tm p (inl static)) (omega arith)
    | inr dynamic ↦ elim (dec_le p tm.config.min_price) [
      | yes le ↦ rw (find_excess-eq-zero tm p (inr le)) (omega arith)
      | no gt ↦
          let first =
            search_excess-IsFirst 64 tm.config.min_price (excess_scaling_factor tm) p 0 max_u64
              (omega arith) (omega arith) in
          rw (find_excess-eq-search tm p dynamic (omega arith)) (omega (arith, first.upper))
    ]
  ]
