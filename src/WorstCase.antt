-- ===== src/WorstCase.antt =====
-- worstcase/state.go: the worst case of gas price, balances and nonces that the block builder
-- tracks. The state database is the interface of Hook.Ops; what the source calls of libevm on
-- transactions and headers is the interface Chain. A method that returns an error after it has
-- changed its receiver returns both.
pub mod Cost
pub mod Apply
pub mod Queue
pub mod Finish
pub mod Bounds
pub mod Transactions
pub mod Returned
pub mod Tests
use strevm.Params.{
  max_full_blocks_in_open_queue, lambda, max_full_blocks_in_closed_queue, tau_seconds,
}
use strevm.GasTime
use strevm.Blocks.{Block, WorstCaseBounds}
use strevm.Base.{
  queue_full, insufficient_funds_for_transfer, cost_overflow, tip_very_high, nonce_max,
  sender_no_eoa, nonce_too_high, nonce_too_low, ◌∷◌, ◌++◌, fee_cap_too_low, gas_limit_reached, ◌&&◌,
  sub_u64, min, fee_cap_very_high, [], add_u64, mul_u64, fail_if, ◌>>◌, ◌>>=◌, ok, err, panic,
  settled_block_not_executed, err, non_consecutive_blocks, ◌==◌, none, ltb, not, some, ◌||◌, true,
  Error, ok, panic, ◌/◌, leb, ◌%◌, List, max_u64, Outcome, if◌then◌else◌, Bool, ◌^◌, Option, ℕ, ◌+◌,
  ◌*◌,
}
use strevm.Hook.{Header, Points}
use strevm.Hook.Ops.{StateDb, AccountDebit, Op, apply_to}

-- The fields of libevm's `types.Transaction` that the source reads. The numbers are big integers
-- that are not negative, as libevm's decoder gives them; `payload` is what else a transaction holds.
pub record Transaction : Type 0 where
  pub gas : ℕ
  pub gas_fee_cap : ℕ
  pub gas_tip_cap : ℕ
  pub value : ℕ
  pub nonce : ℕ
  pub to : Option ℕ
  pub payload : ℕ

-- Calls of libevm and of the hooks. An account without code has the hash zero or `empty_code_hash`.
pub record Chain (db : StateDb) : Type 1 where
  pub Signer : Type 0
  pub make_signer : ℕ → ℕ → Signer
  pub validate_transaction : Transaction → Option Header → Option Signer → Outcome (Unit {0})
  pub sender : Option Signer → Transaction → Outcome ℕ
  pub header_hash : Header → ℕ
  pub can_execute_transaction : ℕ → Option ℕ → db.Accounts → Outcome (Unit {0})
  pub empty_code_hash : ℕ
  pub open_state : ℕ → Outcome db.Accounts

-- The arithmetic of uint256, with the flag of overflow.
abbrev pub u256_mod : ℕ
u256_mod = 2 ^ 256

-- `bigToUint256`
abbrev pub big_to_uint256 : ℕ → ℕ × Bool
big_to_uint256 v = (v % u256_mod, leb u256_mod v)

-- `mulAdd`
unfoldable pub mul_add : ℕ → ℕ → ℕ → ℕ × Bool
mul_add a b c =
    if leb u256_mod (a * b) then (0, true) else ((a * b + c) % u256_mod, leb u256_mod (a * b + c))

-- The choice of the effective gas price in `txToOp`: min(gasFeeCap, baseFee + gasTipCap).
unfoldable pub effective_gas_price : ℕ → ℕ → ℕ → ℕ
effective_gas_price gas_fee_cap gas_tip_cap base_fee =
    if leb u256_mod (base_fee + gas_tip_cap)
      || ltb gas_fee_cap ((base_fee + gas_tip_cap) % u256_mod)
    then gas_fee_cap
    else (base_fee + gas_tip_cap) % u256_mod

-- `txToOp`
unfoldable pub tx_to_op : ℕ → Transaction → ℕ → Outcome Op
unfolding mul_add effective_gas_price
tx_to_op from tx base_fee = do
  let gas_fee_cap = (big_to_uint256 tx.gas_fee_cap).0
  fail_if (big_to_uint256 tx.gas_fee_cap).1 fee_cap_very_high
  let value = (big_to_uint256 tx.value).0
  fail_if (big_to_uint256 tx.value).1 insufficient_funds_for_transfer
  let min_balance = (mul_add tx.gas gas_fee_cap value).0
  fail_if (mul_add tx.gas gas_fee_cap value).1 cost_overflow
  let gas_tip_cap = (big_to_uint256 tx.gas_tip_cap).0
  fail_if (big_to_uint256 tx.gas_tip_cap).1 tip_very_high
  let price = effective_gas_price gas_fee_cap gas_tip_cap base_fee
  fail_if (mul_add tx.gas price value).1 cost_overflow
  ok (record {
    id = 0;
    gas = tx.gas;
    gas_fee_cap = gas_fee_cap;
    burn =
        (
          from,
          record {
            nonce = tx.nonce;
            amount = (mul_add tx.gas price value).0;
            min_balance = min_balance;
          },
        )
        ∷ [];
    mint = [];
  })

-- `maxGasSecondsPerBlock`
abbrev pub max_gas_seconds_per_block : ℕ
max_gas_seconds_per_block = tau_seconds * lambda

abbrev pub max_gas_seconds_in_closed_queue : ℕ
max_gas_seconds_in_closed_queue = max_full_blocks_in_closed_queue * max_gas_seconds_per_block

abbrev pub max_safe_rate : ℕ
max_safe_rate = max_u64 / max_gas_seconds_in_closed_queue

unfoldable pub safe_max_block_size : GasTime.Time → ℕ
safe_max_block_size clock = mul_u64 (min clock.time.hertz max_safe_rate) max_gas_seconds_per_block

-- `State`, without the hooks and the configuration, which do not change. What is nil before the
-- first block is `none`.
pub record State (db : StateDb) (chain : Chain db) : Type 0 where
  pub accounts : db.Accounts
  pub clock : GasTime.Time
  pub expected_parent_hash : ℕ
  pub q_size : ℕ
  pub block_size : ℕ
  pub max_block_size : ℕ
  pub base_fee : Option ℕ
  pub curr : Option Header
  pub signer : Option chain.Signer
  pub min_op_burner_balances : List (List (ℕ × ℕ))

-- A nil pointer that is dereferenced.
abbrev pub deref {ℓ} : {A : Type ℓ} → Option A → Outcome A
deref none = panic
deref (some a) = ok a

module _ (db : StateDb) (chain : Chain db) where
  -- The loop of `Apply` over the debits: it checks the nonces and notes the balances.
  unfoldable pub burner_balances : db.Accounts → List (ℕ × AccountDebit) → Outcome (List (ℕ × ℕ))
  burner_balances s [] = ok []
  burner_balances s ((from, ad) ∷ rest) = do
    fail_if (ltb ad.nonce (db.get_nonce s from)) nonce_too_low
    fail_if (ltb (db.get_nonce s from) ad.nonce) nonce_too_high
    fail_if (db.get_nonce s from == max_u64) nonce_max
    later ← burner_balances s rest
    ok ((from, db.get_balance s from) ∷ later)

  -- `Apply`
  unfoldable pub apply : State db chain → Op → Outcome (State db chain)
  apply s o = do
    fail_if (ltb (sub_u64 s.max_block_size s.block_size) o.gas) gas_limit_reached
    fee ← deref s.base_fee
    fail_if (ltb o.gas_fee_cap fee) fee_cap_too_low
    balances ← burner_balances s.accounts o.burn
    accounts ← apply_to db o s.accounts
    ok (record s {
      accounts = accounts;
      min_op_burner_balances = s.min_op_burner_balances ++ (balances ∷ []);
      block_size = add_u64 s.block_size o.gas;
    })

  -- `ApplyTx`
  unfoldable pub apply_tx : State db chain → Transaction → Outcome (State db chain)
  unfolding apply tx_to_op
  apply_tx s tx = do
    chain.validate_transaction tx s.curr s.signer
    from ← chain.sender s.signer tx
    let code_hash = db.get_code_hash s.accounts from
    fail_if (not (code_hash == 0) && not (code_hash == chain.empty_code_hash)) sender_no_eoa
    chain.can_execute_transaction from tx.to s.accounts
    fee ← deref s.base_fee
    o ← tx_to_op from tx fee
    apply s o

  module _ (calculate_price : ℕ → ℕ → ℕ → ℕ) (hooks : Points) where
    -- `StartBlock` from the call of safeMaxBlockSize on.
    abbrev pub admitted : State db chain → Header → State db chain
    admitted s h =
        let fee = GasTime.base_fee calculate_price s.clock in
        record s {
          base_fee = some fee;
          min_op_burner_balances = [];
          expected_parent_hash = chain.header_hash h;
          curr = some (record h { gas_limit = s.max_block_size; base_fee = fee });
          signer = some (chain.make_signer h.number h.time);
        }

    abbrev pub resized : State db chain → GasTime.Time → State db chain
    resized s clock = record s {
      clock = clock;
      block_size = 0;
      max_block_size = safe_max_block_size clock;
    }

    unfoldable pub admit : State db chain → Header → State db chain × Option Error
    admit s h =
        if ltb (mul_u64 max_full_blocks_in_open_queue s.max_block_size) s.q_size
        then (s, some queue_full)
        else (admitted s h, none)

    -- `StartBlock`
    unfoldable pub start_block : State db chain → Header → Outcome (State db chain × Option Error)
    unfolding admit
    start_block s h =
        if not (h.parent_hash == s.expected_parent_hash)
        then ok (s, some non_consecutive_blocks)
        else (do clock ← GasTime.before_block s.clock hooks h; ok (admit (resized s clock) h))

    -- `FinishBlock`; `bounds` is what the state holds by then.
    unfoldable pub finish :
        State db chain → ℕ → GasTime.Time × Option Error → State db chain × Outcome WorstCaseBounds
    finish s fee (clock, some e) = (record s { clock = clock }, err e)
    finish s fee (clock, none) = (
      record s { clock = clock; q_size = add_u64 s.q_size s.block_size },
      ok (record {
        max_base_fee = fee;
        latest_end_time = clock;
        min_op_burner_balances = s.min_op_burner_balances;
      }),
    )

    unfoldable pub finish_block :
        State db chain → Outcome (State db chain × Outcome WorstCaseBounds)
    unfolding finish
    finish_block s = do
      h ← deref s.curr
      fee ← deref s.base_fee
      run ← GasTime.after_block calculate_price s.clock s.block_size hooks h
      ok (finish s fee run)

-- `NewState`, of a block in memory; the clock of a block that is executed is at hand.
unfoldable pub new_state : (db : StateDb) (chain : Chain db) → Block → Outcome (State db chain)
new_state db chain settled = elim settled.execution [
  | none ↦ err settled_block_not_executed
  | some e ↦ do
    accounts ← chain.open_state e.state_root_post
    ok (record {
      accounts = accounts;
      clock = e.by_gas;
      expected_parent_hash = settled.hash;
      q_size = 0;
      block_size = 0;
      max_block_size = 0;
      base_fee = none;
      curr = none;
      signer = none;
      min_op_burner_balances = [];
    })
]
