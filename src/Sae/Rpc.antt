-- ===== src/Sae/Rpc.antt =====
-- sae/rpc/: the prices of custom.go, the readers of readers.go, the receipts of receipts.go and the states
-- of stateful.go that the JSON-RPC returns. Nil is `none`, and a big integer is an ℤ.
pub mod Prices
pub mod Evicted
pub mod Backend
mod Tests
use strevm.Hook.{Header}
use strevm.Base.{
  Bool, List, Option, Outcome, ℕ, ◌+◌, ◌*◌, ◌/◌, ◌-◌, ◌>>=◌, ltb, if◌then◌else◌, some, none, ok,
  err, panic,
}
use strevm.GasTime
use strevm.Blocks
use strevm.Blocks.{ExecutionResults, Memory, Block, new}
use strevm.Blocks.Execution.{Database, restore_execution_artefacts, load_execution_results}
use strevm.Sae.Access.{EthBlock, is_not_found}
use strevm.WorstCase.{deref}
use strevm.Base.{zero, suc, pos, negsuc, ℤ, big_max, add_nat, not_found, external, true, false}
use strevm.Blocks.Access.{
  Chain, BlockNumber, pending, resolve_rpc_number_or_hash, from_number, from_hash,
  from_number_or_hash, from_number_and_hash,
}

-- `Price` and `PriceOptions`
pub record Price : Type 0 where
  pub gas_tip : ℤ
  pub gas_fee : ℤ

pub record PriceOptions : Type 0 where
  pub slow : Price
  pub normal : Price
  pub fast : Price

-- `newPrice`; a base fee is not negative.
new_price : ℤ → ℕ → Price
new_price tip base_fee = record { gas_tip = tip; gas_fee = add_nat tip base_fee }

-- `minGasTip`, `slowTipPercent` and `fastTipPercent`.
abbrev pub min_gas_tip : ℤ
min_gas_tip = pos 1

abbrev pub slow_tip_percent : ℕ
slow_tip_percent = 95

abbrev pub fast_tip_percent : ℕ
fast_tip_percent = 105

-- A number that is not positive, as an integer.
negated : ℕ → ℤ
negated zero = pos 0
negated (suc n) = negsuc n

-- `scale`; `Div` of math/big rounds down for a divisor that is positive.
scale : ℤ → ℕ → ℤ
unfolding negated
scale (pos v) percent = pos (percent * v / 100)
scale (negsuc v) percent = negated ((percent * (v + 1) + 99) / 100)

-- `NewPriceOptions`
pub new_price_options : ℤ → ℕ → PriceOptions
unfolding scale new_price
new_price_options tip base_fee =
    let slow_tip = big_max (scale tip slow_tip_percent) min_gas_tip in
    let normal_tip = big_max tip slow_tip in
    let fast_tip = big_max (scale tip fast_tip_percent) normal_tip in
    record {
      slow = new_price slow_tip base_fee;
      normal = new_price normal_tip base_fee;
      fast = new_price fast_tip base_fee;
    }

-- `estimateNextBaseFee` on the last accepted block.
pub estimate_next_base_fee : (ℕ → ℕ → ℕ → ℕ) → Block → ℕ
estimate_next_base_fee calculate_price last_accepted = elim last_accepted.bounds [
  | none ↦ last_accepted.header.base_fee
  | some bounds ↦ GasTime.base_fee calculate_price bounds.latest_end_time
]

-- `SuggestPriceOptions` on the result of `SuggestGasTipCap`.
pub suggest_price_options : (ℕ → ℕ → ℕ → ℕ) → Outcome ℤ → Block → Outcome PriceOptions
unfolding estimate_next_base_fee new_price_options
suggest_price_options calculate_price suggested last_accepted = suggested >>= λ tip.
    ok (new_price_options tip (estimate_next_base_fee calculate_price last_accepted * 2))

-- `notFoundIsNil`
pub not_found_is_nil {ℓ} : {A : Type ℓ} → Outcome (Option A) → Outcome (Option A)
not_found_is_nil (ok x) = ok x
not_found_is_nil panic = panic
not_found_is_nil (err why) = if is_not_found why then ok none else err why

module _ {ℓ} {A : Type ℓ} (c : Chain) where
  -- `readByNumber`
  pub read_by_number : (ℕ → ℕ → Option A) → BlockNumber → Outcome (Option A)
  unfolding not_found_is_nil
  read_by_number read n = not_found_is_nil (from_number c (λ h k. ok (read h k)) n)

  -- `readByHash`
  pub read_by_hash : (Block → Option A) → (ℕ → ℕ → Option A) → ℕ → Outcome (Option A)
  unfolding not_found_is_nil
  read_by_hash from_mem from_db hash =
      not_found_is_nil (from_hash c (λ h k. ok (from_db h k)) from_mem hash true)

  -- `readByNumberOrHash`
  pub read_by_number_or_hash :
      (Block → Option A)
      → (ℕ → ℕ → Outcome (Option A))
      → Option BlockNumber
      → Option ℕ
      → Outcome (Option A)
  unfolding not_found_is_nil
  read_by_number_or_hash from_mem from_db n hash =
      not_found_is_nil (from_number_or_hash c from_db from_mem n hash true)

  -- `readByNumberAndHash`
  pub read_by_number_and_hash :
      (Block → Option A) → (ℕ → ℕ → Option A) → ℕ → BlockNumber → Outcome (Option A)
  unfolding not_found_is_nil
  read_by_number_and_hash from_mem from_db hash n =
      not_found_is_nil (from_number_and_hash c (λ h k. ok (from_db h k)) from_mem hash n)

module _ (db : Database) (c : Chain) (d : db.Disk) where
  -- The reader of `getReceipts`, at a fresh pointer; a nil block panics in `New`.
  receipts_from_db : (ℕ → ℕ → Option EthBlock) → Memory → ℕ → ℕ → ℕ → Outcome (Option Block)
  receipts_from_db read_block m fresh hash num =
      if ltb c.last_executed num then err not_found else (do
        b ← deref (read_block hash num)
        m1 ← new m fresh b.header b.hash none none
        m2 ← restore_execution_artefacts db d m1 fresh
        ok (some (m2.block fresh)))

  -- The receipts of a block that is executed.
  receipts_of_block : Option Block → Option (List ℕ × Block)
  receipts_of_block none = none
  receipts_of_block (some b) = elim b.execution [ none ↦ none | some e ↦ some (e.receipts, b) ]

  -- `getReceipts`
  pub get_receipts :
      (ℕ → ℕ → Option EthBlock)
      → Memory
      → ℕ
      → Option BlockNumber
      → Option ℕ
      → Outcome (Option (List ℕ × Block))
  unfolding receipts_from_db receipts_of_block read_by_number_or_hash
  get_receipts read_block m fresh n hash =
      read_by_number_or_hash c (λ b. some b) (receipts_from_db read_block m fresh) n hash >>= λ b.
      ok (receipts_of_block b)

  -- `postExecutionStateRoot`
  pub post_execution_state_root : ℕ → ℕ → Outcome ℕ
  post_execution_state_root hash num = elim (c.consensus_critical_block hash) [
    | none ↦ load_execution_results db d num >>= λ e. ok e.state_root_post
    | some b ↦ elim b.execution [ some e ↦ ok e.state_root_post | none ↦ err (external 0) ]
  ]

  -- `StateAtBlock` for a hash and a number; `open_state` is `StateDB`.
  pub state_at_block {ℓ} : {S : Type ℓ} → (ℕ → Outcome S) → ℕ → ℕ → Outcome S
  unfolding post_execution_state_root
  state_at_block open_state hash num =
      post_execution_state_root hash num >>= λ root. open_state root

  -- A header with the results of the execution of its block.
  with_results : Header → ExecutionResults → Header
  with_results header e = record header { root = e.state_root_post; base_fee = e.base_fee }

  -- The header of `StateAndHeaderByNumberOrHash`. The source waits for an execution that is not there; a nil
  -- header panics.
  faked_header : (ℕ → ℕ → Option Header) → ℕ → ℕ → Outcome Header
  unfolding with_results
  faked_header read_header num hash = elim (c.consensus_critical_block hash) [
    | some b ↦ deref b.execution >>= λ e. ok (with_results b.header e)
    | none ↦ do
      header ← deref (read_header hash num)
      e ← load_execution_results db d num
      ok (with_results header e)
  ]

  abbrev pub is_pending : Option BlockNumber → Bool
  is_pending (some pending) = true
  is_pending other = false

  -- `StateAndHeaderByNumberOrHash`; `open_state` is `StateDB`.
  pub state_and_header {ℓ} :
      {S : Type ℓ}
      → (ℕ → Outcome S)
      → (ℕ → ℕ → Option Header)
      → Option BlockNumber
      → Option ℕ
      → Outcome (S × Header)
  unfolding faked_header
  state_and_header open_state read_header n hash = if is_pending n then err (external 0) else (do
    (num, h) ← resolve_rpc_number_or_hash c n hash true
    header ← faked_header read_header num h
    sdb ← open_state header.root
    ok (sdb, header))
