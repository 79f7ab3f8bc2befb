-- ===== src/GasTime.antt =====
-- gastime/gastime.go, gastime/acp176.go and gastime/config.go: an instant measured in gas, with the
-- excess over a target from which the gas price follows. `gas.CalculatePrice` of avalanchego is a
-- parameter. The encodings of the .canoto.go files are generated, and are not modelled.
pub mod Excess
pub mod Target
pub mod Price
pub mod Block
pub mod AfterBlock
pub mod Below
pub mod Refine
pub mod Tests
use strevm.Base.{
  ℕ, zero, suc, ◌+◌, ◌-◌, ◌/◌, min, max, Bool, true, false, ◌&&◌, ◌||◌, Option, none, some, Outcome,
  ok, err, panic, Error, ◌>>=◌, ◌>>◌, ltb, leb, ◌==◌, if◌then◌else◌, max_u64, sub_u64, mul_u64,
}
use strevm.IntMath.{
  bounded_add, bounded_subtract, bounded_multiply, mul_div, mul_div_ceil, quotient_or_zero,
}
use strevm.ProxyTime
use strevm.ProxyTime.{Instant, nanoseconds_per_second}
use strevm.Hook.{Header, GasPriceConfig, Points, validate}

-- `config`
pub record Config : Type 0 where
  pub target_to_excess_scaling : ℕ
  pub min_price : ℕ
  pub static_pricing : Bool

-- `newConfig`; the error that it wraps is kept.
unfoldable pub new_config : GasPriceConfig → Outcome Config
new_config from = do
  validate from
  ok (record {
    target_to_excess_scaling = from.target_to_excess_scaling;
    min_price = from.min_price;
    static_pricing = from.static_pricing;
  })

abbrev bool_eq : Bool → Bool → Bool
bool_eq true b = b
bool_eq false true = false
bool_eq false false = true

-- `config.equals`
unfoldable pub equals : Config → Config → Bool
equals c other =
    c.target_to_excess_scaling == other.target_to_excess_scaling
    && c.min_price == other.min_price
    && bool_eq c.static_pricing other.static_pricing

-- `Time`
pub record Time : Type 0 where
  pub time : ProxyTime.Time
  pub target : ℕ
  pub excess : ℕ
  pub config : Config

-- `TargetToRate`
abbrev pub target_to_rate : ℕ
target_to_rate = 2

abbrev pub min_target : ℕ
min_target = 1

abbrev pub max_target : ℕ
max_target = max_u64 / target_to_rate

abbrev pub rate_of : ℕ → ℕ
rate_of target = mul_u64 target target_to_rate

abbrev pub clamp_target : ℕ → ℕ
clamp_target t = min (max t min_target) max_target

pub safe_rate_of_target : ℕ → ℕ
safe_rate_of_target target = rate_of (clamp_target target)

-- `New`
pub new : Instant → ℕ → ℕ → GasPriceConfig → Outcome Time
unfolding new_config
new at target starting_excess gas_price_config = do
  config ← new_config gas_price_config
  tm ← ProxyTime.of at
  time ← ProxyTime.set_rate tm (rate_of (clamp_target target))
  ok (record {
    time = time;
    target = clamp_target target;
    excess = starting_excess;
    config = config;
  })

-- `SubSecond`
unfoldable pub sub_second : Points → Header → ℕ → Outcome ℕ
sub_second hooks hdr rate =
    quotient_or_zero (mul_div_ceil (hooks.sub_second_block_time hdr) rate nanoseconds_per_second)

-- `excessScalingFactor`
unfoldable pub excess_scaling_factor : Time → ℕ
excess_scaling_factor tm = bounded_multiply 64 tm.config.target_to_excess_scaling tm.target max_u64

-- An error of `Scale` becomes the cap of the excess.
abbrev or_max : Outcome ℕ → Outcome ℕ
or_max (ok x) = ok x
or_max (err e) = ok max_u64
or_max panic = panic

unfoldable pub set_target : Time → ℕ → Outcome Time
set_target tm t = do
  x ← or_max (ProxyTime.scale tm.time tm.excess (rate_of (clamp_target t)))
  time ← ProxyTime.set_rate tm.time (rate_of (clamp_target t))
  ok (record tm { time = time; target = clamp_target t; excess = x })

-- `SetRate`
pub set_rate : Time → ℕ → Outcome Time
unfolding set_target
set_rate tm r = set_target tm (r / target_to_rate)

unfoldable pub tick : Time → ℕ → Outcome Time
tick tm g = do
  time ← ProxyTime.tick tm.time g
  quo ← quotient_or_zero (mul_div g (sub_u64 time.hertz tm.target) time.hertz)
  ok (record tm { time = time; excess = bounded_add 64 tm.excess quo max_u64 })

-- The excess after `s` seconds of `T` gas each; Go's division panics for a target of zero.
unfoldable pub reduce_by_seconds : ℕ → ℕ → ℕ → Outcome ℕ
reduce_by_seconds excess s target =
    if target == 0
    then panic
    else ok (if leb s (excess / target) then sub_u64 excess (mul_u64 s target) else 0)

unfoldable pub fast_forward_to : Time → ℕ → ℕ → Outcome Time
unfolding reduce_by_seconds
fast_forward_to tm to to_frac = do
  (time, sec, frac) ← ProxyTime.fast_forward_to tm.time to to_frac
  if sec == 0 && frac.numerator == 0 then ok (record tm { time = time }) else (do
    excess ← reduce_by_seconds tm.excess sec tm.target
    quo ← quotient_or_zero (mul_div frac.numerator tm.target time.hertz)
    ok (record tm { time = time; excess = bounded_subtract 64 excess quo 0 }))

-- `BeforeBlock`
unfoldable pub before_block : Time → Points → Header → Outcome Time
unfolding fast_forward_to sub_second
before_block tm hooks h = do
  to_frac ← sub_second hooks h tm.time.hertz
  fast_forward_to tm h.time to_frac

-- The price function of avalanchego, on the minimum price, the excess and its scaling factor.
module _ (calculate_price : ℕ → ℕ → ℕ → ℕ) where
  -- `Price`
  unfoldable pub price : Time → ℕ
  price tm =
      if tm.config.static_pricing
      then tm.config.min_price
      else calculate_price tm.config.min_price tm.excess (excess_scaling_factor tm)

  -- `BaseFee`, as a uint256.
  abbrev pub base_fee : Time → ℕ
  base_fee tm = price tm

  -- The loop of `findExcessForPrice`, on fuel; `lo + (hi-lo)/2` cannot wrap, as it is at most `hi`.
  unfoldable pub search_excess : ℕ → ℕ → ℕ → ℕ → ℕ → ℕ → ℕ
  search_excess zero min_price k target_price lo hi = lo
  search_excess (suc fuel) min_price k target_price lo hi =
      let mid = lo + (hi - lo) / 2 in
      let lower = search_excess fuel min_price k target_price lo mid in
      let upper = search_excess fuel min_price k target_price (mid + 1) hi in
      if ltb lo hi
      then (if leb target_price (calculate_price min_price mid k) then lower else upper)
      else lo

  -- The interval of 2^64 values halves with each round, so that 64 rounds end the loop.
  abbrev search_rounds : ℕ
  search_rounds = 64

  unfoldable pub find_excess_for_price : Time → ℕ → ℕ
  find_excess_for_price tm target_price =
      if leb target_price tm.config.min_price || tm.config.static_pricing
      then 0
      else search_excess search_rounds tm.config.min_price (excess_scaling_factor tm) target_price 0
          max_u64

  -- The end of `AfterBlock`, from `newConfig` on.
  unfoldable pub reconfigure : ℕ → Time → Outcome Config → Outcome (Time × Option Error)
  unfolding find_excess_for_price
  reconfigure p tm (ok cfg) =
      if equals cfg tm.config
      then ok (tm, none)
      else (let tm' : Time = record tm { config = cfg } in
          ok (record tm' { excess = find_excess_for_price tm' p }, none))
  reconfigure p tm (err e) = ok (tm, some e)
  reconfigure p tm panic = panic

  -- `AfterBlock`, with the error that it returns, if any: the receiver has changed by then.
  unfoldable pub after_block : Time → ℕ → Points → Header → Outcome (Time × Option Error)
  unfolding reconfigure
  after_block tm used hooks h = do
    ticked ← tick tm used
    scaled ← set_target ticked (hooks.gas_config_after h).0
    let p = price ticked
    reconfigure p scaled (new_config (hooks.gas_config_after h).1)
