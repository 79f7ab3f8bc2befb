-- ===== src/GasTime/Refine.antt =====
-- A block on the gas clock of the execution and on that of the worst case.
use native.Mathlib.Nat.{div-lt_iff_lt-mul}
use strevm.Base.{
  sym, ◌*◌, ◌/◌, u64_mod, ◌<◌, IsU64, ◌+◌, ◌∙◌, inr, arith, inl, dec_le, Bool-cases, max_u64, ap,
  ◌≡◌, ◌≤◌, ℕ, refl, ok, none,
}
use strevm.IntMath.{bounded_multiply}
use strevm.ProxyTime.{units}
use strevm.Hook.{GasPriceConfig, Points, Header, IsLawful}
use strevm.GasTime.{
  reconfigure, equals, Time, Config, after_block, before_block, new_config, price,
  find_excess_for_price, excess_scaling_factor, sub_second, set_target,
}
use strevm.GasTime.Excess.{IsValid, ConfigIsValid}
use strevm.GasTime.Target.{sub_second_lem, new_config_lem}
use strevm.GasTime.Price.{
  PriceLaws, IsFirst, find_excess-eq-zero, find_excess-eq-search, search_excess-IsFirst,
  find_excess-IsU64,
}
use strevm.GasTime.Block.{price_mono, before_block-eq}
use strevm.GasTime.AfterBlock.{
  after_block-eq, equals_iff, reconfigure_same, reconfigure_changed, reconfigured, seconds_to_spare,
}
use strevm.GasTime.Below.{IsBelow, tick-IsBelow, set_target-IsBelow, fast_forward-IsBelow}

module _ (calculate_price : ℕ → ℕ → ℕ → ℕ) (laws : PriceLaws calculate_price) where
  price-IsBelow :
      (low high : Time) → IsBelow low high → price calculate_price low ≤ price calculate_price high
  price-IsBelow low high b = price_mono calculate_price laws high low b.target b.config b.excess

  scaling_factor-eq :
      (a b : Time)
      → a.target ≡ b.target
      → a.config ≡ b.config
      → excess_scaling_factor a ≡ excess_scaling_factor b
  unfolding excess_scaling_factor
  scaling_factor-eq a b et ec =
      ap (λ (c : Config). bounded_multiply 64 c.target_to_excess_scaling a.target max_u64) ec
      ∙ ap (λ (t : ℕ). bounded_multiply 64 b.config.target_to_excess_scaling t max_u64) et

  -- A first point for the lower price is no later than one for the higher price.
  first_mono :
      (m k p p' r r' : ℕ)
      → p ≤ p'
      → IsFirst calculate_price laws m k p 0 max_u64 r
      → IsFirst calculate_price laws m k p' 0 max_u64 r'
      → r ≤ r'
  first_mono m k p p' r r' le f f' = elim (dec_le r r') [
    | yes le' ↦ le'
    | no gt ↦
        absurd (
          omega
            (arith, f.below r' (omega arith) (omega arith), f'.reached (omega (arith, f.upper))))
  ]

  find_excess_mono :
      (tm : Time) (p p' : ℕ)
      → p ≤ p'
      → find_excess_for_price calculate_price tm p ≤ find_excess_for_price calculate_price tm p'
  find_excess_mono tm p p' le = elim (Bool-cases tm.config.static_pricing) [
    | inl static ↦ rw (find_excess-eq-zero calculate_price laws tm p (inl static)) (omega arith)
    | inr dynamic ↦ elim (dec_le p tm.config.min_price) [
      | yes small ↦ rw (find_excess-eq-zero calculate_price laws tm p (inr small)) (omega arith)
      | no large ↦
          let m = tm.config.min_price in
          let k = excess_scaling_factor tm in
          rw
            (
              find_excess-eq-search calculate_price laws tm p dynamic (omega arith),
              find_excess-eq-search calculate_price laws tm p' dynamic (omega arith),
            )
            (first_mono m k p p' _ _ le
              (search_excess-IsFirst calculate_price laws 64 m k p 0 max_u64 (omega arith)
                (omega arith))
              (search_excess-IsFirst calculate_price laws 64 m k p' 0 max_u64 (omega arith)
                (omega arith)))
    ]
  ]

  find_excess-eq :
      (a b : Time) (p : ℕ)
      → a.target ≡ b.target
      → a.config ≡ b.config
      → find_excess_for_price calculate_price a p ≡ find_excess_for_price calculate_price b p
  unfolding find_excess_for_price
  find_excess-eq a b p et ec = rw (scaling_factor-eq a b et ec) (rw ec refl)

  reconfigured-IsValid :
      (tm : Time) (p : ℕ) (cfg : Config)
      → IsValid tm
      → ConfigIsValid cfg
      → IsValid (reconfigured calculate_price laws p tm cfg)
  reconfigured-IsValid tm p cfg v cv = record {
    clock = v.clock;
    rate = v.rate;
    target_pos = v.target_pos;
    excess_in = find_excess-IsU64 calculate_price laws (record tm { config = cfg }) p;
    config_valid = cv;
  }

  reconfigured-IsBelow :
      (low high : Time) (p p' : ℕ) (cfg : Config)
      → IsBelow low high
      → p ≤ p'
      → IsBelow
          (reconfigured calculate_price laws p low cfg)
          (reconfigured calculate_price laws p' high cfg)
  reconfigured-IsBelow low high p p' cfg b le = record {
    target = b.target;
    config = refl;
    hertz = b.hertz;
    instant = b.instant;
    excess = omega (
      arith,
      find_excess_mono (record low { config = cfg }) p p' le,
      find_excess-eq (record low { config = cfg }) (record high { config = cfg }) p' b.target refl,
    );
  }

  -- `BeforeBlock` on both clocks never panics, keeps the lower one below the upper one, and so keeps
  -- the base fee of the execution at most that of the worst case.
  pub before_block-IsBelow :
      (low high : Time) (hooks : Points) (h : Header)
      → IsValid low
      → IsValid high
      → IsLawful hooks
      → h.time + 1 < u64_mod
      → IsBelow low high
      → (low' : Time) × (high' : Time) × (before_block low hooks h ≡ ok low')
        × (before_block high hooks h ≡ ok high')
        × IsValid low'
        × IsValid high'
        × IsBelow low' high'
        × (price calculate_price low' ≤ price calculate_price high')
  before_block-IsBelow low high hooks h v v' lawful room b =
      let (g, run, le, lo, hi) = sub_second_lem hooks h high.time.hertz lawful v'.clock.hertz_in in
      let small : g / high.time.hertz < 2 =
        (div-lt_iff_lt-mul {k = high.time.hertz} {x = g} {y = 2} (omega arith)).1 (omega arith) in
      let run' : sub_second hooks h low.time.hertz ≡ ok g = ap (sub_second hooks h) b.hertz ∙ run in
      let (low', high', moved, moved', valid, valid', below) =
        fast_forward-IsBelow low high h.time g v v' b (omega arith) in
      (
        low',
        high',
        before_block-eq low hooks h g run' ∙ moved,
        before_block-eq high hooks h g run ∙ moved',
        valid,
        valid',
        below,
        price-IsBelow low' high' below,
      )

  reconfigure-IsBelow :
      (low high : Time) (p p' : ℕ) (cfg : Config)
      → IsValid low
      → IsValid high
      → IsBelow low high
      → p ≤ p'
      → ConfigIsValid cfg
      → (low' : Time) × (high' : Time) × (reconfigure calculate_price p low (ok cfg)
          ≡ ok (low', none))
        × (reconfigure calculate_price p' high (ok cfg) ≡ ok (high', none))
        × IsValid low'
        × IsValid high'
        × IsBelow low' high'
  reconfigure-IsBelow low high p p' cfg v v' b le cv = elim (Bool-cases (equals cfg high.config)) [
    | inl same ↦
        let e = (equals_iff cfg high.config).0 same in
        (
          low,
          high,
          reconfigure_same calculate_price laws p low cfg (e ∙ sym b.config),
          reconfigure_same calculate_price laws p' high cfg e,
          v,
          v',
          b,
        )
    | inr differs ↦ (
      reconfigured calculate_price laws p low cfg,
      reconfigured calculate_price laws p' high cfg,
      reconfigure_changed calculate_price laws p low cfg (ap (equals cfg) b.config ∙ differs),
      reconfigure_changed calculate_price laws p' high cfg differs,
      reconfigured-IsValid low p cfg v cv,
      reconfigured-IsValid high p' cfg v' cv,
      reconfigured-IsBelow low high p p' cfg b le,
    )
  ]

  -- `AfterBlock` on both clocks, for headers of which the hooks make the same configuration, and for
  -- no more gas on the lower one: neither panics nor fails with a valid configuration, and the
  -- lower clock stays below the upper one.
  pub after_block-IsBelow :
      (low high : Time) (g g' : ℕ) (hooks : Points) (h h' : Header) (cfg : Config)
      → IsValid low
      → IsValid high
      → IsBelow low high
      → g ≤ g'
      → IsU64 g'
      → units high.time + g' + high.time.hertz < u64_mod * high.time.hertz
      → hooks.gas_config_after h ≡ hooks.gas_config_after h'
      → IsU64 (hooks.gas_config_after h').1.target_to_excess_scaling
      → IsU64 (hooks.gas_config_after h').1.min_price
      → new_config (hooks.gas_config_after h').1 ≡ ok cfg
      → (low' : Time) × (high' : Time) × (after_block calculate_price low g hooks h
          ≡ ok (low', none))
        × (after_block calculate_price high g' hooks h' ≡ ok (high', none))
        × IsValid low'
        × IsValid high'
        × IsBelow low' high'
  after_block-IsBelow low high g g' hooks h h' cfg v v' b le hg room agree hs hm made =
      let same : u64_mod * low.time.hertz ≡ u64_mod * high.time.hertz =
        ap (λ (x : ℕ). u64_mod * x) b.hertz in
      let (ticked, ticked', run, run', tv, tv', moved, hertz, tb) =
        tick-IsBelow low high g g' v v' b le hg (omega arith) in
      let full : u64_mod * ticked'.time.hertz ≡ u64_mod * high.time.hertz =
        ap (λ (x : ℕ). u64_mod * x) hertz in
      let full' : u64_mod * ticked.time.hertz ≡ u64_mod * ticked'.time.hertz =
        ap (λ (x : ℕ). u64_mod * x) tb.hertz in
      let spare' : ticked'.time.seconds + 1 < u64_mod =
        seconds_to_spare calculate_price laws ticked'.time.seconds ticked'.time.hertz
          ticked'.time.fraction (units ticked'.time) (omega (arith, tv'.clock.fraction_in)) refl
          (omega arith) in
      let spare : ticked.time.seconds + 1 < u64_mod =
        seconds_to_spare calculate_price laws ticked.time.seconds ticked.time.hertz
          ticked.time.fraction (units ticked.time) (omega (arith, tv.clock.fraction_in)) refl
          (omega (arith, tb.instant, tb.hertz)) in
      let (scaled, scaled', set, set', sv, sv', sb) =
        set_target-IsBelow ticked ticked' (hooks.gas_config_after h').0 tv tv' tb spare spare' in
      let p = price calculate_price ticked in
      let p' = price calculate_price ticked' in
      let (low', high', end, end', lv, hv, below) =
        reconfigure-IsBelow scaled scaled' p p' cfg sv sv' sb (price-IsBelow ticked ticked' tb)
          ((new_config_lem (hooks.gas_config_after h').1 hs hm).0 cfg made) in
      let aim = ap (λ (c : ℕ × GasPriceConfig). set_target ticked c.0) agree in
      let made' = ap (λ (c : ℕ × GasPriceConfig). new_config c.1) agree ∙ made in
      (
        low',
        high',
        after_block-eq calculate_price laws low ticked scaled g hooks h run (aim ∙ set)
            ∙ rw made' end,
        after_block-eq calculate_price laws high ticked' scaled' g' hooks h' run' set'
            ∙ rw made end',
        lv,
        hv,
        below,
      )
