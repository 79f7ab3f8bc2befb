-- ===== src/GasTime/Block.antt =====
-- gastime/acp176.go: the clock before and after a block.
use strevm.Base.{sym, ◌∙◌, ℕ, ◌+◌, ◌/◌, ◌*◌, ◌≤◌, ◌<◌, ◌≡◌, refl, ok, arith, IsU64, u64_mod}
use native.Mathlib.Nat.{div-lt_iff_lt-mul}
use strevm.ProxyTime.{units}
use strevm.Hook.{Header, Points, IsLawful}
use strevm.GasTime.{
  Time, before_block, fast_forward_to, sub_second, tick, price, excess_scaling_factor,
}
use strevm.GasTime.Excess.{IsValid, fast_forward_lowers_excess, tick_raises_excess}
use strevm.GasTime.Target.{sub_second_lem}
use strevm.GasTime.Price.{PriceLaws}

-- The instant of a header in units of gas, to which `BeforeBlock` moves the clock.
pub before_block-eq :
    (tm : Time) (hooks : Points) (h : Header) (g : ℕ)
    → sub_second hooks h tm.time.hertz ≡ ok g
    → before_block tm hooks h ≡ fast_forward_to tm h.time g
unfolding before_block
before_block-eq tm hooks h g e = rw e refl

module _ (calculate_price : ℕ → ℕ → ℕ → ℕ) (laws : PriceLaws calculate_price) where
  -- With target and configuration unchanged, the price follows the excess.
  pub price_mono :
      (tm tm' : Time)
      → tm'.target ≡ tm.target
      → tm'.config ≡ tm.config
      → tm'.excess ≤ tm.excess
      → price calculate_price tm' ≤ price calculate_price tm
  unfolding price excess_scaling_factor
  price_mono tm tm' et ec le =
      rw (et, ec)
        (ground (
          arith,
          laws.monotone tm.config.min_price (excess_scaling_factor tm) tm'.excess tm.excess le,
        ))

  -- `BeforeBlock` never panics for a header whose time is below the last second of uint64. The
  -- clock stays valid and does not go back, and the price does not rise.
  pub before_block_lowers_price :
      (tm : Time) (hooks : Points) (h : Header)
      → IsValid tm
      → IsLawful hooks
      → h.time + 1 < u64_mod
      → (tm' : Time) × (before_block tm hooks h ≡ ok tm')
        × IsValid tm'
        × (units tm.time ≤ units tm'.time)
        × (tm'.excess ≤ tm.excess)
        × (price calculate_price tm' ≤ price calculate_price tm)
  before_block_lowers_price tm hooks h v lawful room =
      let (g, run, le, lo, hi) = sub_second_lem hooks h tm.time.hertz lawful v.clock.hertz_in in
      let small : g / tm.time.hertz < 2 =
        (div-lt_iff_lt-mul {k = tm.time.hertz} {x = g} {y = 2} (omega arith)).1 (omega arith) in
      let (tm', run', valid, moved, excess, target, config) =
        fast_forward_lowers_excess tm h.time g v (omega arith) in
      (
        tm',
        before_block-eq tm hooks h g run ∙ run',
        valid,
        omega arith,
        omega arith,
        price_mono tm tm' target config (omega arith),
      )

  -- `Tick` never lowers the price.
  tick_raises_price :
      (tm : Time) (g : ℕ)
      → IsValid tm
      → IsU64 g
      → units tm.time + g < u64_mod * tm.time.hertz
      → (tm' : Time) × (tick tm g ≡ ok tm') × (price calculate_price tm ≤ price calculate_price tm')
  tick_raises_price tm g v hg room =
      let (tm', run, valid, moved, excess, target, config) = tick_raises_excess tm g v hg room in
      (tm', run, price_mono tm' tm (sym target) (sym config) (omega (arith, v.excess_in)))
