-- ===== src/GasTime/Tests.antt =====
-- Runs of gastime on a concrete clock, and its theorems at it.
use strevm.GasTime.Target.{safe_rate_of_target_lem, sub_second_lem, set_target_lem}
use strevm.GasTime.AfterBlock.{after_block_lem, Finished}
use strevm.GasTime.Below.{IsBelow}
use strevm.GasTime.Price.{find_excess_for_price_lem, PriceLaws}
use strevm.GasTime.Excess.{IsValid}
use strevm.GasTime.{
  set_target, sub_second, safe_rate_of_target, fast_forward_to, tick, after_block, before_block,
  Time, reconfigure, find_excess_for_price, search_excess, price, new_config, equals,
  excess_scaling_factor, reduce_by_seconds,
}
use strevm.ProxyTime.{units, is_future, forward, scale, scale_fraction}
use strevm.ProxyTime
use strevm.IntMath.{
  mul_div, mul_div_ceil, mul_div_round, bounded_add, bounded_subtract, bounded_multiply,
}
use strevm.Hook.{IsLawful, Points, Header, GasPriceConfig, validate}
use strevm.Base.{
  IsU64, ◌<◌, ◌-◌, ◌/◌, ◌≤◌, max_u64, ◌*◌, true, max, ok, arith, ◌+◌, min, ◌≡◌, ℕ, false, refl,
  none,
}
use strevm.ProxyTime.{Instant, nanoseconds_per_second}

abbrev pub settings : GasPriceConfig
settings = record { target_to_excess_scaling = 87; min_price = 1; static_pricing = false }

abbrev pub clock : Time
clock = record {
  time = record { seconds = 10; fraction = 3; hertz = 8 };
  target = 4;
  excess = 20;
  config = record { target_to_excess_scaling = 87; min_price = 1; static_pricing = false };
}

abbrev pub header : Header
header = record { parent_hash = 1; number = 7; time = 12; root = 0; gas_limit = 0; base_fee = 0 }

-- A target of 6 and a higher minimum price from every block on, and blocks on the half second.
abbrev pub hooks : Points
hooks = record {
  gas_config_after = λ h. (6, record settings { min_price = 2 });
  sub_second_block_time = λ h. 500_000_000;
  settled_height = λ h. 0;
}

abbrev half_past : Instant
half_past = record { unix = 12; nanosecond = 500_000_000 }

-- A price that meets the laws: it grows by one for each unit of excess, up to the cap.
abbrev pub linear_price : ℕ → ℕ → ℕ → ℕ
linear_price m x k = min (m + x) (max m max_u64)

pub clock-IsValid : IsValid clock
clock-IsValid = omega arith

pub hooks-IsLawful : IsLawful hooks
hooks-IsLawful = record { sub_second = λ h. omega arith; target_range = λ h. omega arith }

pub linear_price-laws : PriceLaws linear_price
linear_price-laws = record { monotone = λ m k x y le. omega arith; starts = λ m k. omega arith }

pub clock-IsBelow : IsBelow clock clock
clock-IsBelow = record {
  target = refl;
  config = refl;
  hertz = refl;
  instant = omega arith;
  excess = omega arith;
}

-- The clock after the hooks move it to the block, and after 40 gas in the block.
abbrev pub moved : Time
moved = record clock { time = record { seconds = 12; fraction = 4; hertz = 8 }; excess = 12 }

abbrev pub finished : Time
finished = record {
  time = record { seconds = 17; fraction = 6; hertz = 12 };
  target = 6;
  excess = 31;
  config = record { target_to_excess_scaling = 87; min_price = 2; static_pricing = false };
}

pub moved_run : before_block clock hooks header ≡ ok moved
unfolding before_block sub_second fast_forward_to reduce_by_seconds ProxyTime.fast_forward_to
    is_future forward mul_div mul_div_ceil mul_div_round bounded_subtract
moved_run = refl

pub finished_run : after_block linear_price moved 40 hooks header ≡ ok (finished, none)
unfolding after_block tick set_target reconfigure find_excess_for_price search_excess price
    new_config validate equals excess_scaling_factor ProxyTime.tick scale scale_fraction
    ProxyTime.set_rate mul_div mul_div_ceil mul_div_round bounded_add bounded_multiply
finished_run = refl

pub settings_run :
    new_config (record settings { min_price = 2 })
    ≡ ok (record { target_to_excess_scaling = 87; min_price = 2; static_pricing = false })
unfolding new_config validate
settings_run = refl

pub moved_price : price linear_price moved ≡ 13
unfolding price excess_scaling_factor
moved_price = refl

set_target_lem_example :
    let target = min (max 6 1) (max_u64 / 2) in
    (tm' : Time) × (set_target clock 6 ≡ ok tm')
    × IsValid tm'
    × (tm'.target ≡ target)
    × (tm'.excess
        ≡ min ((clock.excess * (target * 2) + (clock.time.hertz - 1)) / clock.time.hertz) max_u64)
    × (tm'.config ≡ clock.config)
    × (units clock.time * (target * 2) ≤ units tm'.time * clock.time.hertz)
    × (units tm'.time * clock.time.hertz < units clock.time * (target * 2) + clock.time.hertz)
set_target_lem_example = set_target_lem clock 6 (clock-IsValid) (omega arith)

sub_second_lem_example :
    (g : ℕ) × (sub_second hooks header 7 ≡ ok g)
    × (g ≤ 7)
    × (hooks.sub_second_block_time header * 7 ≤ g * nanoseconds_per_second)
    × (g * nanoseconds_per_second < hooks.sub_second_block_time header * 7 + nanoseconds_per_second)
sub_second_lem_example = sub_second_lem hooks header 7 (hooks-IsLawful) (omega arith)

find_excess_for_price_lem_example :
    let x = find_excess_for_price linear_price clock 30 in
    (clock.config.static_pricing ≡ true → x ≡ 0)
    × (30 ≤ clock.config.min_price → x ≡ 0)
    × (clock.config.static_pricing ≡ false
        → clock.config.min_price < 30
        → 30 ≤ linear_price clock.config.min_price max_u64 (excess_scaling_factor clock)
        → IsU64 x
          × (30 ≤ price linear_price (record clock { excess = x }))
          × ((y : ℕ) → y < x → price linear_price (record clock { excess = y }) < 30))
    × (clock.config.static_pricing ≡ false
        → clock.config.min_price < 30
        → linear_price clock.config.min_price max_u64 (excess_scaling_factor clock) < 30
        → x ≡ max_u64)
find_excess_for_price_lem_example =
    find_excess_for_price_lem linear_price (linear_price-laws) clock 30

after_block_lem_example :
    (ticked : Time) × (tick clock 9 ≡ ok ticked)
    × Finished linear_price linear_price-laws clock ticked
        (hooks.gas_config_after header).0
        (new_config (hooks.gas_config_after header).1)
        (after_block linear_price clock 9 hooks header)
after_block_lem_example =
    after_block_lem linear_price (linear_price-laws) clock 9 hooks header (clock-IsValid)
      (omega arith) (omega arith) (omega arith) (omega arith)

safe_rate_of_target_lem_example :
    (safe_rate_of_target 0 ≡ 2 * min (max 0 1) (max_u64 / 2))
    × (0 < safe_rate_of_target 0)
    × IsU64 (safe_rate_of_target 0)
safe_rate_of_target_lem_example = safe_rate_of_target_lem 0
