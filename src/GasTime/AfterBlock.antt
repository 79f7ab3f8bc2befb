-- ===== src/GasTime/AfterBlock.antt =====
-- `AfterBlock` of gastime/acp176.go: the clock after a block, and the price across a change of its
-- configuration.
use strevm.GasTime.Target.{new_config_lem, set_target_lem}
use strevm.ProxyTime.{units}
use strevm.GasTime.Excess.{tick_raises_excess, IsValid}
use native.Mathlib.Nat.{mul-le-mul_right}
use strevm.Base.{
  inr, inl, Bool-cases, sym, ap, ◌∙◌, ◌≢◌, dec_lt, u64_mod, refl, ◌+◌, some, err, none, ok, Error,
  Option, ◌*◌, IsU64, Outcome, ℕ, ◌≤◌, ◌<◌, ◌≡◌, ◌↔◌, arith, max_u64, true, false,
}
use strevm.GasTime.{
  clamp_target, new_config, set_target, tick, Header, reconfigure, Points, after_block, Time,
  Config, price, excess_scaling_factor, equals, find_excess_for_price,
}
use strevm.GasTime.Price.{find_excess-IsU64, PriceLaws, find_excess_for_price_lem}

-- `config.equals` decides equality of the configurations.
pub equals_iff : (c d : Config) → (equals c d ≡ true) ↔ (c ≡ d)
unfolding equals
equals_iff c d = ground arith

module _ (calculate_price : ℕ → ℕ → ℕ → ℕ) (laws : PriceLaws calculate_price) where
  -- The price at an excess of zero is the minimum price, whatever the mode.
  price_at_zero : (tm : Time) → tm.excess ≡ 0 → price calculate_price tm ≡ tm.config.min_price
  unfolding price
  price_at_zero tm e = ground (arith, laws.starts tm.config.min_price (excess_scaling_factor tm))

  price_static :
      (tm : Time) → tm.config.static_pricing ≡ true → price calculate_price tm ≡ tm.config.min_price
  unfolding price
  price_static tm e = ground arith

  -- The price `p` before a change of the configuration, against the clock after it.
  pub record Continues (p : ℕ) (tm : Time) : Type 0 where
    pub static_price :
        tm.config.static_pricing ≡ true → price calculate_price tm ≡ tm.config.min_price
    pub raised_minimum : p ≤ tm.config.min_price → price calculate_price tm ≡ tm.config.min_price
    pub kept :
        tm.config.static_pricing ≡ false
        → tm.config.min_price < p
        → p ≤ calculate_price tm.config.min_price max_u64 (excess_scaling_factor tm)
        → (p ≤ price calculate_price tm)
          × ((y : ℕ) → y < tm.excess → price calculate_price (record tm { excess = y }) < p)

  -- The clock that `reconfigure` returns for a changed configuration.
  abbrev pub reconfigured : ℕ → Time → Config → Time
  reconfigured p tm cfg = record tm {
    config = cfg;
    excess = find_excess_for_price calculate_price (record tm { config = cfg }) p;
  }

  reconfigured-Continues : (p : ℕ) (tm : Time) (cfg : Config) → Continues p (reconfigured p tm cfg)
  unfolding excess_scaling_factor
  reconfigured-Continues p tm cfg =
      let tm' : Time = record tm { config = cfg } in
      let (static, minimum, found, unreached) =
        find_excess_for_price_lem calculate_price laws tm' p in
      record {
        static_price = λ e. price_static (reconfigured p tm cfg) e;
        raised_minimum = λ le. price_at_zero (reconfigured p tm cfg) (minimum le);
        kept = λ dynamic dear reachable.
            let (range, high, least) = found dynamic dear reachable in (high, least);
      }

  pub after_block-eq :
      (tm ticked scaled : Time) (used : ℕ) (hooks : Points) (h : Header)
      → tick tm used ≡ ok ticked
      → set_target ticked (hooks.gas_config_after h).0 ≡ ok scaled
      → after_block calculate_price tm used hooks h
        ≡ reconfigure calculate_price
            (price calculate_price ticked)
            scaled
            (new_config (hooks.gas_config_after h).1)
  unfolding after_block
  after_block-eq tm ticked scaled used hooks h e₁ e₂ = rw (e₁, e₂) refl

  -- With the seconds that `Tick` needs there is one to spare for the rounding of `SetTarget`.
  pub seconds_to_spare :
      (s h f n : ℕ) → 0 < h → s * h + f ≡ n → n + h < u64_mod * h → s + 1 < u64_mod
  seconds_to_spare s h f n hp e lt = elim (dec_lt (s + 1) u64_mod) [
    | yes ok' ↦ ok'
    | no big ↦
        absurd
          (let le : u64_mod * h ≤ (s + 1) * h = mul-le-mul_right h (omega arith) in omega arith)
  ]

  -- What `AfterBlock` has made of the clock, by what `newConfig` says of the new configuration.
  pub record Finished (tm ticked : Time) (target : ℕ) (made : Outcome Config)
      (run : Outcome (Time × Option Error)) : Type 0 where
    pub accepted :
        (cfg : Config)
        → made ≡ ok cfg
        → (tm' : Time) × (run ≡ ok (tm', none))
          × IsValid tm'
          × (tm'.target ≡ clamp_target target)
          × (tm'.config ≡ cfg)
          × (cfg ≢ tm.config → Continues (price calculate_price ticked) tm')
    pub rejected :
        (e : Error)
        → made ≡ err e
        → (tm' : Time) × (run ≡ ok (tm', some e))
          × IsValid tm'
          × (tm'.target ≡ clamp_target target)
          × (tm'.config ≡ tm.config)

  pub reconfigure_same :
      (p : ℕ) (tm : Time) (cfg : Config)
      → cfg ≡ tm.config
      → reconfigure calculate_price p tm (ok cfg) ≡ ok (tm, none)
  unfolding reconfigure
  reconfigure_same p tm cfg e = rw ((equals_iff cfg tm.config).1 e)

  pub reconfigure_changed :
      (p : ℕ) (tm : Time) (cfg : Config)
      → equals cfg tm.config ≡ false
      → reconfigure calculate_price p tm (ok cfg) ≡ ok (reconfigured p tm cfg, none)
  unfolding reconfigure
  reconfigure_changed p tm cfg e = rw e

  pub reconfigure_rejected :
      (p : ℕ) (tm : Time) (e : Error) → reconfigure calculate_price p tm (err e) ≡ ok (tm, some e)
  unfolding reconfigure
  reconfigure_rejected p tm e = refl

  -- `AfterBlock` never panics where the gas used leaves a second of uint64 to spare. With a valid
  -- configuration it ends without an error, in a valid clock that has the clamped new target and
  -- the new configuration. Where that differs from the old one, the price continues: it is the
  -- minimum under static pricing or where the minimum reaches the old price, and otherwise the
  -- least price at or above the old one, if uint64 has an excess for it. With an invalid
  -- configuration the error is returned, and only the configuration is left as it was.
  pub after_block_lem :
      (tm : Time) (used : ℕ) (hooks : Points) (h : Header)
      → IsValid tm
      → IsU64 used
      → units tm.time + used + tm.time.hertz < u64_mod * tm.time.hertz
      → IsU64 (hooks.gas_config_after h).1.target_to_excess_scaling
      → IsU64 (hooks.gas_config_after h).1.min_price
      → (ticked : Time) × (tick tm used ≡ ok ticked)
        × Finished tm ticked
            (hooks.gas_config_after h).0
            (new_config (hooks.gas_config_after h).1)
            (after_block calculate_price tm used hooks h)
  after_block_lem tm used hooks h v hu room hs hm =
      let (ticked, run, valid, moved, excess, target, config) =
        tick_raises_excess tm used v hu (omega arith) in
      let rate = valid.rate ∙ ap (λ (x : ℕ). x * 2) target ∙ sym v.rate in
      let scaled = ap (λ (x : ℕ). ticked.time.seconds * x) rate in
      let spare =
        seconds_to_spare ticked.time.seconds tm.time.hertz ticked.time.fraction
          (units tm.time + used) (omega arith) (omega arith) room in
      let (scaled, run', valid', target', excess', config', lo, hi) =
        set_target_lem ticked (hooks.gas_config_after h).0 valid spare in
      let p = price calculate_price ticked in
      let start = after_block-eq tm ticked scaled used hooks h run run' in
      (
        ticked,
        run,
        record {
          accepted = λ cfg made. elim (Bool-cases (equals cfg scaled.config)) [
            | inl same ↦
                let e = (equals_iff cfg scaled.config).0 same in
                (
                  scaled,
                  start ∙ rw made (reconfigure_same p scaled cfg e),
                  valid',
                  target',
                  sym e,
                  λ ne. absurd (ne (e ∙ config' ∙ config)),
                )
            | inr differs ↦ (
              reconfigured p scaled cfg,
              start ∙ rw made (reconfigure_changed p scaled cfg differs),
              record {
                clock = valid'.clock;
                rate = valid'.rate;
                target_pos = valid'.target_pos;
                excess_in =
                    find_excess-IsU64 calculate_price laws (record scaled { config = cfg }) p;
                config_valid = (new_config_lem (hooks.gas_config_after h).1 hs hm).0 cfg made;
              },
              target',
              refl,
              λ ne. reconfigured-Continues p scaled cfg,
            )
          ];
          rejected = λ e made. (
            scaled,
            start ∙ rw made (reconfigure_rejected p scaled e),
            valid',
            target',
            config' ∙ config,
          );
        },
      )
