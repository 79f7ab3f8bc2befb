-- ===== src/Sae/Rpc/Prices.antt =====
-- The order of the prices of sae/rpc/custom.go.
use strevm.Base.{arith, ℕ, ◌≡◌, ◌+◌, ◌⊎◌, pos, negsuc, pos_part, ◌≤ℤ◌, ℤ}
use strevm.Sae.Rpc.{new_price_options, new_price, scale, negated, PriceOptions}

-- Tips that are ordered, each positive, with fees that are the tips and the base fee together.
pub record IsOrdered (tip : ℤ) (base_fee : ℕ) (o : PriceOptions) : Type 0 where
  pub slow_positive : pos 1 ≤ℤ o.slow.gas_tip
  pub slow_normal : o.slow.gas_tip ≤ℤ o.normal.gas_tip
  pub normal_fast : o.normal.gas_tip ≤ℤ o.fast.gas_tip
  pub slow_fee : o.slow.gas_fee ≡ pos (pos_part o.slow.gas_tip + base_fee)
  pub normal_fee : o.normal.gas_fee ≡ pos (pos_part o.normal.gas_tip + base_fee)
  pub fast_fee : o.fast.gas_fee ≡ pos (pos_part o.fast.gas_tip + base_fee)
  pub not_below_tip : tip ≤ℤ o.normal.gas_tip
  pub normal_tip : (tip ≤ℤ pos 0) ⊎ (o.normal.gas_tip ≡ tip)

-- For every tip and base fee the suggested tips are positive and go up from slow to normal to fast; each fee
-- is its tip with the base fee, and the normal tip is the given one, if that is positive.
pub new_price_options-IsOrdered :
    (tip : ℤ) (base_fee : ℕ) → IsOrdered tip base_fee (new_price_options tip base_fee)
unfolding new_price_options new_price scale negated
new_price_options-IsOrdered (pos v) base_fee = ground arith
new_price_options-IsOrdered (negsuc v) base_fee = ground arith
