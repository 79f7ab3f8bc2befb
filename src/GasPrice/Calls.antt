-- ===== src/GasPrice/Calls.antt =====
-- The estimator of gasprice/estimator.go over a history of calls: suggestions under the write lock, in
-- any order and on any backend, and changes of the cache by accepted blocks and by FeeHistory.
use strevm.GasPrice.Valid.{validate_lem, IsValid}
use strevm.GasPrice.Suggested.{suggest_locked_lem, IsBounded}
use strevm.GasPrice.Sorted.{IsSort}
use strevm.Base.{
  leb→le, leb, Bool-cases, bind_inverts, arith, ok-injective, List, ◌≤ℤ◌, ℤ, ◌≡◌, ◌≤◌, refl, sym,
  ap, ◌∙◌, ℕ, ok, ◌>>=◌, inl, inr, some,
}
use mathlib.Core.Path.{subst}
use strevm.WorstCase
use strevm.WorstCase.{deref}
use strevm.GasPrice.{
  fresh, suggest_gas_tip_cap, Transaction, Backend, LruCache, Config, new_estimator, suggest_locked,
  suggest_gas_tip_cap, Estimator, validate,
}

-- A price within the bounds of the configuration.
pub record WithinTips (c : Config) (price : ℤ) : Type 0 where
  pub lowest : ℤ
  pub highest : ℤ
  pub is_lowest : c.min_suggested_tip ≡ some lowest
  pub is_highest : c.max_suggested_tip ≡ some highest
  pub not_below : lowest ≤ℤ price
  pub not_above : price ≤ℤ highest

module _ (effective_gas_tip_value : WorstCase.Transaction → ℕ → ℤ)
    (sort : List Transaction → List Transaction) (lru : LruCache) (sorts : IsSort sort) where
  -- The estimators that calls lead to.
  pub data Reached (e : Estimator effective_gas_tip_value sort lru)
      : Estimator effective_gas_tip_value sort lru → Type 0 where
    start : Reached e e
    suggested :
        (backend : Backend) (newest : ℕ) (f g : Estimator effective_gas_tip_value sort lru)
        (price : ℤ)
        → Reached e f
        → suggest_locked effective_gas_tip_value sort lru backend newest f ≡ ok (g, price)
        → Reached e g
    recached :
        (cache : lru.Carrier) (f : Estimator effective_gas_tip_value sort lru)
        → Reached e f
        → Reached e (record f { cache = cache })

  -- What no call changes or lowers.
  pub record Keeps (e f : Estimator effective_gas_tip_value sort lru) : Type 0 where
    pub bounded : IsBounded effective_gas_tip_value sort lru sorts f
    pub same_config : f.config ≡ e.config
    pub not_back : e.number ≤ f.number

  suggest_locked-Keeps :
      (backend : Backend) (newest : ℕ) (e f g : Estimator effective_gas_tip_value sort lru)
      (price : ℤ)
      → suggest_locked effective_gas_tip_value sort lru backend newest f ≡ ok (g, price)
      → Keeps e f
      → Keeps e g × (g.price ≡ price) × (newest ≤ g.number)
  suggest_locked-Keeps backend newest e f g price run kept =
      let (h, p, does, bounded, config, is_price, number, rest) =
        suggest_locked_lem effective_gas_tip_value sort lru sorts backend newest f kept.bounded in
      let same : (h, p) ≡ (g, price) = ok-injective (sym does ∙ run) in
      let same_state : h ≡ g =
        ap (λ (r : Estimator effective_gas_tip_value sort lru × ℤ). r.0) same in
      let same_price : p ≡ price =
        ap (λ (r : Estimator effective_gas_tip_value sort lru × ℤ). r.1) same in
      subst
        (λ (x : Estimator effective_gas_tip_value sort lru).
          Keeps e x × (x.price ≡ price) × (newest ≤ x.number))
        same_state
        (
          record {
            bounded = bounded;
            same_config = config ∙ kept.same_config;
            not_back = omega (arith, kept.not_back);
          },
          is_price ∙ same_price,
          omega arith,
        )

  Reached-Keeps :
      (e f : Estimator effective_gas_tip_value sort lru)
      → IsBounded effective_gas_tip_value sort lru sorts e
      → Reached e f
      → Keeps e f
  Reached-Keeps e f bounded start = record {
    bounded = bounded;
    same_config = refl;
    not_back = omega arith;
  }
  Reached-Keeps e f bounded (suggested backend newest g h price before run) =
      (suggest_locked-Keeps backend newest e g h price run (Reached-Keeps e g bounded before)).0
  Reached-Keeps e f bounded (recached cache g before) =
      let kept = Reached-Keeps e g bounded before in
      record {
        bounded = record {
          valid = kept.bounded.valid;
          not_below = kept.bounded.not_below;
          not_above = kept.bounded.not_above;
        };
        same_config = kept.same_config;
        not_back = kept.not_back;
      }

  fresh_config :
      (c : Config) (lowest : ℤ) → (fresh effective_gas_tip_value sort lru c lowest).config ≡ c
  unfolding fresh
  fresh_config c lowest = refl

  fresh-IsBounded :
      (c : Config) (v : IsValid c)
      → IsBounded effective_gas_tip_value sort lru sorts
          (fresh effective_gas_tip_value sort lru c v.lowest)
  unfolding fresh
  fresh-IsBounded c v = record { valid = v; not_below = omega arith; not_above = v.ordered }

  new_estimator-IsBounded :
      (c : Config) (e : Estimator effective_gas_tip_value sort lru)
      → new_estimator effective_gas_tip_value sort lru c ≡ ok e
      → IsBounded effective_gas_tip_value sort lru sorts e × (e.config ≡ c)
  unfolding new_estimator
  new_estimator-IsBounded c e run =
      let (passed, checks, rest) = bind_inverts (validate c) _ e run in
      let v = (validate_lem c).0 checks in
      let made : fresh effective_gas_tip_value sort lru c v.lowest ≡ e = ok-injective (
        sym (
          ap (λ lowest. deref lowest >>= λ l. ok (fresh effective_gas_tip_value sort lru c l))
            v.has_lowest)
        ∙ rest) in
      subst
        (λ (x : Estimator effective_gas_tip_value sort lru).
          IsBounded effective_gas_tip_value sort lru sorts x × (x.config ≡ c))
        made (fresh-IsBounded c v, fresh_config c v.lowest)

  within :
      (c : Config) (e : Estimator effective_gas_tip_value sort lru)
      → IsBounded effective_gas_tip_value sort lru sorts e
      → e.config ≡ c
      → WithinTips c e.price
  within c e b same =
      subst (λ d. WithinTips d e.price) same
        (record {
          lowest = b.valid.lowest;
          highest = b.valid.highest;
          is_lowest = b.valid.has_lowest;
          is_highest = b.valid.has_highest;
          not_below = b.not_below;
          not_above = b.not_above;
        })

  Reached-trans :
      (e f g : Estimator effective_gas_tip_value sort lru) → Reached e f → Reached f g → Reached e g
  Reached-trans e f g before start = before
  Reached-trans e f g before (suggested backend newest h k price after run) =
      suggested backend newest h g price (Reached-trans e f h before after) run
  Reached-trans e f g before (recached cache h after) =
      recached cache h (Reached-trans e f h before after)

  -- In every history of calls on a new estimator, a suggestion succeeds whatever other goroutines call
  -- before the write lock is held. Its price is within the bounds of the configuration, the estimator
  -- that it leaves is reached by calls too, and knows a block that is no older than the last accepted
  -- one, nor than the one it knew.
  pub suggest_gas_tip_cap_lem :
      (c : Config) (e f : Estimator effective_gas_tip_value sort lru) (backend : Backend)
      (meanwhile : Estimator effective_gas_tip_value sort lru
        → Estimator effective_gas_tip_value sort lru)
      → new_estimator effective_gas_tip_value sort lru c ≡ ok e
      → Reached e f
      → Reached f (meanwhile f)
      → (g : Estimator effective_gas_tip_value sort lru) × (price : ℤ) × (suggest_gas_tip_cap
            effective_gas_tip_value sort lru backend meanwhile f
          ≡ ok (g, price))
        × WithinTips c price
        × Reached e g
        × (f.number ≤ g.number)
        × (backend.last_accepted_block.header.number ≤ g.number)
  unfolding suggest_gas_tip_cap
  suggest_gas_tip_cap_lem c e f backend meanwhile made reached others =
      let newest = backend.last_accepted_block.header.number in
      let (bounded, same) = new_estimator-IsBounded c e made in
      let kept = Reached-Keeps e f bounded reached in
      let then_kept = Reached-Keeps f (meanwhile f) kept.bounded others in
      elim (Bool-cases (leb newest f.number)) [
        | inl known ↦ (
          f,
          f.price,
          rw known refl,
          within c f kept.bounded (kept.same_config ∙ same),
          reached,
          omega arith,
          leb→le _ _ known,
        )
        | inr newer ↦
            let (g, price, run, now_bounded, config, is_price, number, rest) =
              suggest_locked_lem effective_gas_tip_value sort lru sorts backend newest (meanwhile f)
                then_kept.bounded in
            (
              g,
              price,
              rw newer run,
              subst (λ p. WithinTips c p) is_price
                  (within c g now_bounded
                    (config ∙ then_kept.same_config ∙ kept.same_config ∙ same)),
              suggested backend newest (meanwhile f) g price
                  (Reached-trans e f (meanwhile f) reached others) run,
              omega (arith, then_kept.not_back),
              omega arith,
            )
      ]
