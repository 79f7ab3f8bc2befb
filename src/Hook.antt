-- ===== src/Hook.antt =====
-- hook/hook.go: what the user of the library injects, and the configuration of the gas price.
-- `PointsG`, `BlockBuilder` and `Transaction` are interfaces of Sae.Builder, which calls them.
pub mod Ops
use strevm.Base.{
  ℕ, Bool, Outcome, ok, ◌>>◌, fail_if, ◌==◌, target_to_excess_scaling_zero, min_price_zero, ◌<◌,
  IsU64,
}
use strevm.IntMath.{ceil_div}
use strevm.Params.{lambda}

-- The fields of libevm's `types.Header` that the source reads or sets. Hashes are numbers.
pub record Header : Type 0 where
  pub parent_hash : ℕ
  pub number : ℕ
  pub time : ℕ
  pub root : ℕ
  pub gas_limit : ℕ
  pub base_fee : ℕ

pub record GasPriceConfig : Type 0 where
  pub target_to_excess_scaling : ℕ
  pub min_price : ℕ
  pub static_pricing : Bool

-- `GasPriceConfig.Validate`
unfoldable pub validate : GasPriceConfig → Outcome (Unit {0})
validate c = do
  fail_if (c.target_to_excess_scaling == 0) target_to_excess_scaling_zero
  fail_if (c.min_price == 0) min_price_zero
  ok tt

-- The methods of `Points` that read a header.
pub record Points : Type 0 where
  pub gas_config_after : Header → ℕ × GasPriceConfig
  pub sub_second_block_time : Header → ℕ
  pub settled_height : Header → ℕ

-- What the interface requires of an implementation, and the ranges of its results.
pub record IsLawful (hooks : Points) : Type 0 where
  pub sub_second : (h : Header) → hooks.sub_second_block_time h < 1_000_000_000
  pub target_range : (h : Header) → IsU64 (hooks.gas_config_after h).0

-- `MinimumGasConsumption`
pub minimum_gas_consumption : ℕ → Outcome ℕ
minimum_gas_consumption tx_limit = ceil_div tx_limit lambda
