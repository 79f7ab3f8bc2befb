-- ===== src/TxGossip.antt =====
-- txgossip/priority.go: the order in which pending transactions are offered to the block builder. The
-- pool of libevm gives the pending transactions of each sender in nonce order, the senders in any
-- order; slices.SortStableFunc of the Go library is a parameter.
pub mod Priority
mod Tests
use strevm.Base.{
  [], ◌∷◌, none, if◌then◌else◌, some, Ordering, List, Option, ℕ, ◌-◌, compare, ◌==◌, ◌++◌, ltb, leb,
}
use mathlib.Core.List.{map}

-- `txpool.LazyTransaction`, by what is read of it; `time` is when it was first seen.
pub record PoolTransaction : Type 0 where
  pub hash : ℕ
  pub time : ℕ
  pub gas_fee_cap : ℕ
  pub gas_tip_cap : ℕ

-- `LazyTransaction`
pub record LazyTransaction : Type 0 where
  pub tx : PoolTransaction
  pub sender : ℕ

-- `effectiveGasTip`; a nil base fee is `none`.
pub effective_gas_tip : LazyTransaction → Option ℕ → ℕ
effective_gas_tip ltx none = ltx.tx.gas_tip_cap
effective_gas_tip ltx (some base_fee) =
    let fee = ltx.tx.gas_fee_cap in
    let tip = ltx.tx.gas_tip_cap in
    let diff = fee - base_fee in if leb fee base_fee then 0 else if ltb diff tip then diff else tip

-- The comparison of `TransactionsByPriority`, for the results -1, 0 and 1.
pub compare_txs : Option ℕ → LazyTransaction → LazyTransaction → Ordering
unfolding effective_gas_tip
compare_txs base_fee a b =
    if a.sender == b.sender
    then Ordering.eq
    else elim (compare (effective_gas_tip a base_fee) (effective_gas_tip b base_fee)) [
      | Ordering.lt ↦ Ordering.gt
      | Ordering.gt ↦ Ordering.lt
      | Ordering.eq ↦ compare a.tx.time b.tx.time
    ]

of_sender : ℕ → PoolTransaction → LazyTransaction
of_sender from tx = record { tx = tx; sender = from }

-- The loops that collapse the pending transactions.
pub all_pending : List (ℕ × List PoolTransaction) → List LazyTransaction
unfolding of_sender
all_pending [] = []
all_pending ((from, txs) ∷ rest) = map (of_sender from) txs ++ all_pending rest

module _
    (sort_stable_func : (LazyTransaction → LazyTransaction → Ordering)
      → List LazyTransaction
      → List LazyTransaction) where
  -- `TransactionsByPriority` on what `Pending` returns for the filter.
  pub transactions_by_priority : List (ℕ × List PoolTransaction) → Option ℕ → List LazyTransaction
  unfolding all_pending
  transactions_by_priority pending base_fee =
      sort_stable_func (compare_txs base_fee) (all_pending pending)
