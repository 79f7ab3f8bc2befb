-- ===== src/Sae/Builder.antt =====
-- sae/block_builder.go: a block is built, or rebuilt for its verification, on a worst case that replays
-- the blocks from the last settled one on. The block builder of the hooks is an interface; the
-- body of a block in memory is read with that of SaeExec.
pub mod Replay
pub mod Predicted
pub mod Included
pub mod Settled
mod Tests
use strevm.Base.{
  true, false, ◌-◌, true, execution_lagging, block_time_under_minimum, block_time_before_parent,
  block_time_after_maximum, external, leb, sub_u64, ◌++◌, ltb, fail_if, ◌>>◌, if◌then◌else◌, ◌>>=◌,
  ◌+◌, Bool, Error, ℕ, ok, err, panic, some, none, Outcome, Option, List, ◌∷◌, [],
}
use strevm.Params.{tau_seconds}
use strevm.ProxyTime.{Instant}
use mathlib.Core.List.{map}
use strevm.Hook.{Header, Points}
use strevm.Hook.Ops.{StateDb, Op}
use strevm.Blocks.{Memory, Block, store, height}
use strevm.Blocks
use strevm.Blocks.Settlement.{
  precise_time, instant_after, signed, last_to_settle_at, range, last_settled_of,
}
use strevm.WorstCase.{
  State, Chain, Transaction, u256_mod, deref, new_state, start_block, apply_tx, apply, finish_block,
}
use strevm.SaeExec.{Evm}

-- `maxFutureBlockSeconds` of sae/blocks.go
abbrev pub max_future_block_seconds : ℕ
max_future_block_seconds = 10

-- params.TxGas of libevm.
abbrev pub tx_gas : ℕ
tx_gas = 21_000

-- What `lastToSettle` makes of the results of `LastToSettleAt`; with the fuel given there, it ends on
-- each chain of blocks.
chosen : Option (Outcome (Option ℕ × Bool)) → Outcome ℕ
chosen none = panic
chosen (some panic) = panic
chosen (some (err why)) = err why
chosen (some (ok (b, true))) = deref b
chosen (some (ok (b, false))) = err execution_lagging

-- `lastToSettle`
pub last_to_settle : Points → Memory → Header → ℕ → Instant → Outcome ℕ
unfolding chosen
last_to_settle hooks m hdr parent now = do
  let b_time = precise_time hooks hdr
  let p_time = precise_time hooks (m.block parent).header
  let max_time : Instant = record now { unix = now.unix + max_future_block_seconds }
  fail_if (ltb (signed b_time.unix) (signed tau_seconds)) block_time_under_minimum
  fail_if (instant_after p_time b_time) block_time_before_parent
  fail_if (instant_after b_time max_time) block_time_after_maximum
  chosen (last_to_settle_at hooks m (record b_time { unix = b_time.unix - tau_seconds }) parent)

-- `hook.BlockBuilder` and the type of its custom transactions. A block that it builds is the header
-- and the hash of one; the gas used is not among the fields of `Header`.
pub record BlockBuilder : Type 1 where
  pub Custom : Type 0
  pub as_op : Custom → Op
  pub build_header : Header → Outcome Header
  pub potential_end_of_block_ops : Header → ℕ → List Custom
  pub build_block : Header → ℕ → List Transaction → List ℕ → List Custom → ℕ → Outcome (Header × ℕ)

-- A state that a method leaves with an error, if any.
abbrev pub returned {ℓ} : {A : Type ℓ} → A × Option Error → Outcome A
returned (a, some why) = err why
returned (a, none) = ok a

module _ (db : StateDb) (chain : Chain db) (evm : Evm db) (calculate_price : ℕ → ℕ → ℕ → ℕ)
    (hooks : Points) where
  pub apply_txs : State db chain → List Transaction → Outcome (State db chain)
  apply_txs s [] = ok s
  apply_txs s (tx ∷ rest) = apply_tx db chain s tx >>= λ t. apply_txs t rest

  pub apply_ops : State db chain → List Op → Outcome (State db chain)
  apply_ops s [] = ok s
  apply_ops s (o ∷ rest) = apply db chain s o >>= λ t. apply_ops t rest

  -- The end of a replayed block.
  finish_replay : State db chain → Outcome (State db chain)
  finish_replay s = do
    (t, made) ← finish_block db chain calculate_price hooks s
    made >>= λ bounds. ok t

  -- The body of the loop over the blocks that are not settled.
  pub replay_block : State db chain → Block → Outcome (State db chain)
  unfolding apply_txs apply_ops finish_replay
  replay_block s b = do
    run ← start_block db chain calculate_price hooks s b.header
    started ← returned run
    filled ← apply_txs started (evm.transactions b)
    ops ← evm.end_of_block_ops b
    full ← apply_ops filled ops
    finish_replay full

  pub replay : State db chain → List Block → Outcome (State db chain)
  replay s [] = ok s
  replay s (b ∷ rest) = replay_block s b >>= λ t. replay t rest

  -- The loop over the candidates, of which some do not resolve. An error leaves out the transaction.
  pub include_txs :
      State db chain → List (Option Transaction) → Outcome (State db chain × List Transaction)
  include_txs s [] = ok (s, [])
  include_txs s (none ∷ rest) =
      if ltb (sub_u64 s.max_block_size s.block_size) tx_gas then ok (s, []) else include_txs s rest
  include_txs s (some tx ∷ rest) =
      if ltb (sub_u64 s.max_block_size s.block_size) tx_gas
      then ok (s, [])
      else elim (apply_tx db chain s tx) [
        | err _ ↦ include_txs s rest
        | panic ↦ panic
        | ok t ↦ include_txs t rest >>= λ (u, included). ok (u, tx ∷ included)
      ]

  module _ (builder : BlockBuilder) where
    -- The loop over the custom transactions.
    pub include_ops :
        State db chain → List builder.Custom → Outcome (State db chain × List builder.Custom)
    include_ops s [] = ok (s, [])
    include_ops s (tx ∷ rest) = elim (apply db chain s (builder.as_op tx)) [
      | err _ ↦ include_ops s rest
      | panic ↦ panic
      | ok t ↦ include_ops t rest >>= λ (u, included). ok (u, tx ∷ included)
    ]

    -- The receipts of the blocks that are settled.
    receipts_of : Memory → List ℕ → Outcome (List ℕ)
    receipts_of m [] = ok []
    receipts_of m (p ∷ rest) = do
      e ← deref (m.block p).execution
      later ← receipts_of m rest
      ok (e.receipts ++ later)

    -- The state of the worst case at the new block, and its header.
    pub start_new : Memory → ℕ → ℕ → Header → Outcome (State db chain × Header)
    unfolding replay replay_block
    start_new m last_settled parent hdr = do
      settled ← new_state db chain (m.block last_settled)
      unsettled ← range m last_settled parent
      state ← replay settled (map m.block unsettled)
      e ← deref (m.block last_settled).execution
      let rooted : Header = record hdr { root = e.state_root_post }
      run ← start_block db chain calculate_price hooks state rooted
      started ← returned run
      fee ← deref started.base_fee
      ok (started, record rooted { gas_limit = started.max_block_size; base_fee = fee })

    -- `buildWithTxs`, which leaves the block at a pointer that is fresh.
    pub build_with_txs : Memory → ℕ → ℕ → (ℕ → List (Option Transaction)) → Instant → Outcome Memory
    unfolding start_new include_txs include_ops receipts_of last_to_settle
    build_with_txs m p parent pending_txs now = do
      hdr ← builder.build_header (m.block parent).header
      last_settled ← last_to_settle hooks m hdr parent now
      (started, header) ← start_new m last_settled parent hdr
      (filled, included) ← include_txs started (pending_txs header.base_fee)
      (full, ops) ←
          include_ops filled (builder.potential_end_of_block_ops header (m.block last_settled).hash)
      (finished, made) ← finish_block db chain calculate_price hooks full
      bounds ← made
      start ← deref (last_settled_of m parent)
      settling ← range m start last_settled
      receipts ← receipts_of m settling
      (built, hash) ←
          builder.build_block header full.block_size included receipts ops (height m last_settled)
      m' ← Blocks.new m p built hash (some parent) (some last_settled)
      ok (store m' p (record (m'.block p) { bounds = some bounds }))

  -- The loop of `rebuild` over the transactions of the block; big integers have to fit.
  check_txs : Option chain.Signer → List Transaction → Outcome (Unit {0})
  check_txs signer [] = ok tt
  check_txs signer (tx ∷ rest) = do
    from ← chain.sender signer tx
    fail_if (leb u256_mod tx.gas_fee_cap) (external 0)
    fail_if (leb u256_mod tx.gas_tip_cap) (external 0)
    check_txs signer rest

  -- `rebuild`, with `BlockRebuilderFrom` of the hooks.
  pub rebuild : (Block → Outcome BlockBuilder) → Memory → ℕ → ℕ → ℕ → Instant → Outcome Memory
  unfolding check_txs build_with_txs
  rebuild block_rebuilder_from m p parent block now =
      let b = m.block block in
      let signer = some (chain.make_signer b.header.number b.header.time) in
      check_txs signer (evm.transactions b)
      >> (block_rebuilder_from b >>= λ builder.
          build_with_txs builder m p parent (λ base_fee. map some (evm.transactions b)) now)
