-- ===== src/WorstCase/Cost.antt =====
-- `txToOp` of worstcase/state.go: the cost of a transaction in the worst case.
use native.Mathlib.Nat.{mul-le-mul_left}
use strevm.Base.{
  dec_lt, inr, inl, leb, Bool-cases, refl, err, Error, ◌%◌, leb-eq-false, [], ◌⊎◌, ◌∷◌, false,
  arith, ok, ◌+◌, min, ◌≡◌, ◌≤◌, ◌<◌, ◌*◌, ℕ,
}
use strevm.Hook.Ops.{AccountDebit, Op}
use strevm.WorstCase.{Transaction, tx_to_op, mul_add, effective_gas_price, u256_mod}

-- What the execution of a transaction costs at a base fee: the transferred value, and its gas at
-- the price of min(gasFeeCap, baseFee + gasTipCap).
abbrev pub cost : Transaction → ℕ → ℕ
cost tx base_fee = tx.gas * min tx.gas_fee_cap (base_fee + tx.gas_tip_cap) + tx.value

effective_gas_price_lem :
    (cap tip fee : ℕ) → cap < u256_mod → effective_gas_price cap tip fee ≡ min cap (fee + tip)
unfolding effective_gas_price
effective_gas_price_lem cap tip fee h = ground arith

mul_add-fits : (a b c : ℕ) → a * b + c < u256_mod → mul_add a b c ≡ (a * b + c, false)
unfolding mul_add
mul_add-fits a b c h = ground arith

mul_add-no_overflow : (a b c : ℕ) → (mul_add a b c).1 ≡ false → a * b + c < u256_mod
unfolding mul_add
mul_add-no_overflow a b c e = ground arith

-- The bounds under which no conversion and no product overflows.
pub record IsPayable (tx : Transaction) : Type 0 where
  pub fee_cap : tx.gas_fee_cap < u256_mod
  pub tip_cap : tx.gas_tip_cap < u256_mod
  pub all_gas : tx.gas * tx.gas_fee_cap + tx.value < u256_mod

IsPayable_dec : (tx : Transaction) → Dec (IsPayable tx)
IsPayable_dec tx = elim (dec_lt tx.gas_fee_cap u256_mod) [
  | no over ↦ no (λ p. over p.fee_cap)
  | yes fee_cap ↦ elim (dec_lt tx.gas_tip_cap u256_mod) [
    | no over ↦ no (λ p. over p.tip_cap)
    | yes tip_cap ↦ elim (dec_lt (tx.gas * tx.gas_fee_cap + tx.value) u256_mod) [
      | no over ↦ no (λ p. over p.all_gas)
      | yes all_gas ↦ yes (record { fee_cap = fee_cap; tip_cap = tip_cap; all_gas = all_gas })
    ]
  ]
]

cost_mono : (tx : Transaction) (low high : ℕ) → low ≤ high → cost tx low ≤ cost tx high
cost_mono tx low high le =
    let prices : min tx.gas_fee_cap (low + tx.gas_tip_cap)
        ≤ min tx.gas_fee_cap (high + tx.gas_tip_cap) =
      omega arith in
    omega (arith, mul-le-mul_left tx.gas prices)

cost-le-all_gas : (tx : Transaction) (fee : ℕ) → cost tx fee ≤ tx.gas * tx.gas_fee_cap + tx.value
cost-le-all_gas tx fee =
    let price : min tx.gas_fee_cap (fee + tx.gas_tip_cap) ≤ tx.gas_fee_cap = omega arith in
    omega (arith, mul-le-mul_left tx.gas price)

-- The debit that `txToOp` makes of a transaction.
abbrev pub debit : Transaction → ℕ → AccountDebit
debit tx fee = record {
  nonce = tx.nonce;
  amount = cost tx fee;
  min_balance = tx.gas * tx.gas_fee_cap + tx.value;
}

tx_to_op-ok :
    (from : ℕ) (tx : Transaction) (fee : ℕ)
    → IsPayable tx
    → tx_to_op from tx fee
      ≡ ok (record {
        id = 0;
        gas = tx.gas;
        gas_fee_cap = tx.gas_fee_cap;
        burn = (from, debit tx fee) ∷ [];
        mint = [];
      })
unfolding tx_to_op
tx_to_op-ok from tx fee p =
    let value_fits : tx.value < u256_mod = omega (arith, p.all_gas) in
    let cost_fits : cost tx fee < u256_mod = omega (arith, cost-le-all_gas tx fee, p.all_gas) in
    let cap_kept : tx.gas_fee_cap % u256_mod ≡ tx.gas_fee_cap = omega (arith, p.fee_cap) in
    let tip_kept : tx.gas_tip_cap % u256_mod ≡ tx.gas_tip_cap = omega (arith, p.tip_cap) in
    let value_kept : tx.value % u256_mod ≡ tx.value = omega arith in
    rw
      (
        leb-eq-false u256_mod tx.gas_fee_cap (omega (arith, p.fee_cap)),
        leb-eq-false u256_mod tx.gas_tip_cap (omega (arith, p.tip_cap)),
        leb-eq-false u256_mod tx.value (omega arith),
        cap_kept,
        tip_kept,
        value_kept,
        effective_gas_price_lem tx.gas_fee_cap tx.gas_tip_cap fee p.fee_cap,
        mul_add-fits tx.gas tx.gas_fee_cap tx.value p.all_gas,
        mul_add-fits tx.gas (min tx.gas_fee_cap (fee + tx.gas_tip_cap)) tx.value cost_fits,
      )
      refl

tx_to_op-err :
    (from : ℕ) (tx : Transaction) (fee : ℕ)
    → ¬ IsPayable tx
    → (e : Error) × (tx_to_op from tx fee ≡ err e)
unfolding tx_to_op
tx_to_op-err from tx fee unpayable = elim (Bool-cases (leb u256_mod tx.gas_fee_cap)) [
  | inl over ↦ rw over (_, refl)
  | inr cap_fits ↦ rw cap_fits (elim (Bool-cases (leb u256_mod tx.value)) [
    | inl over ↦ rw over (_, refl)
    | inr value_fits ↦
        let cap_in : tx.gas_fee_cap < u256_mod = ground (arith, cap_fits) in
        let cap_kept : tx.gas_fee_cap % u256_mod ≡ tx.gas_fee_cap = omega (arith, cap_in) in
        let value_in : tx.value < u256_mod = ground (arith, value_fits) in
        let value_kept : tx.value % u256_mod ≡ tx.value = omega (arith, value_in) in
        rw (value_fits, cap_kept, value_kept)
          (elim (Bool-cases (mul_add tx.gas tx.gas_fee_cap tx.value).1) [
            | inl over ↦ rw over (_, refl)
            | inr all_fits ↦ rw all_fits (elim (Bool-cases (leb u256_mod tx.gas_tip_cap)) [
              | inl over ↦ rw over (_, refl)
              | inr tip_fits ↦
                  elim (unpayable (record {
                    fee_cap = cap_in;
                    tip_cap = ground (arith, tip_fits);
                    all_gas = mul_add-no_overflow tx.gas tx.gas_fee_cap tx.value all_fits;
                  })) [ ]
            ])
          ])
  ])
]

-- `txToOp` makes an operation of a transaction exactly when no bound overflows, and returns an
-- error otherwise. The operation debits the sender, with the nonce of the transaction, by the cost
-- at the given base fee, which bounds the cost at any lower base fee, and requires a balance for
-- all the gas at the fee cap, which is no less.
pub tx_to_op_lem :
    (from : ℕ) (tx : Transaction) (fee : ℕ)
    → (IsPayable tx
        × ((o : Op) × (tx_to_op from tx fee ≡ ok o)
            × (o.burn ≡ (from, debit tx fee) ∷ [])
            × (o.mint ≡ [])
            × (o.gas ≡ tx.gas)
            × ((actual : ℕ) → actual ≤ fee → cost tx actual ≤ (debit tx fee).amount)
            × ((debit tx fee).amount ≤ (debit tx fee).min_balance)))
      ⊎ ((¬ IsPayable tx) × ((e : Error) × (tx_to_op from tx fee ≡ err e)))
tx_to_op_lem from tx fee = elim (IsPayable_dec tx) [
  | yes p ↦ inl (
    p,
    (
      _,
      tx_to_op-ok from tx fee p,
      refl,
      refl,
      refl,
      λ actual le. cost_mono tx actual fee le,
      cost-le-all_gas tx fee,
    ),
  )
  | no np ↦ inr (np, tx_to_op-err from tx fee np)
]
