-- ===== src/Sae/Rpc/Backend.antt =====
-- The methods of the backend in blocks.go, receipts.go, transactions.go and mempool.go of sae/rpc/, over the
-- readers of Sae.Rpc. What libevm reads and marshals is a parameter, and nil is `none`.
use strevm.Base.{Outcome, Option, List, [], ◌∷◌, ◌++◌, ok, err, panic, some, none, ℕ, ◌>>=◌}
use strevm.Hook.{Header}
use strevm.Blocks.{Memory, Block}
use strevm.Blocks.Access.{Chain, BlockNumber}
use strevm.Blocks.Execution.{Database}
use strevm.Sae.Access.{EthBlock}
use strevm.Sae.Rpc.{
  read_by_number, read_by_hash, read_by_number_or_hash, read_by_number_and_hash, get_receipts,
}

module _ (c : Chain) where
  module _ (read_header : ℕ → ℕ → Option Header) where
    -- `HeaderByNumber`, `HeaderByHash` and `HeaderByNumberOrHash`
    pub header_by_number : BlockNumber → Outcome (Option Header)
    header_by_number n = read_by_number c read_header n

    pub header_by_hash : ℕ → Outcome (Option Header)
    header_by_hash hash = read_by_hash c (λ b. some b.header) read_header hash

    pub header_by_number_or_hash : Option BlockNumber → Option ℕ → Outcome (Option Header)
    header_by_number_or_hash n hash =
        read_by_number_or_hash c (λ b. some b.header) (λ h k. ok (read_header h k)) n hash

  module _ (eth_block : Block → EthBlock) (read_block : ℕ → ℕ → Option EthBlock) where
    -- `BlockByNumber`, `BlockByHash` and `BlockByNumberOrHash`
    pub block_by_number : BlockNumber → Outcome (Option EthBlock)
    block_by_number n = read_by_number c read_block n

    pub block_by_hash : ℕ → Outcome (Option EthBlock)
    block_by_hash hash = read_by_hash c (λ b. some (eth_block b)) read_block hash

    pub block_by_number_or_hash : Option BlockNumber → Option ℕ → Outcome (Option EthBlock)
    block_by_number_or_hash n hash =
        read_by_number_or_hash c (λ b. some (eth_block b)) (λ h k. ok (read_block h k)) n hash

  -- `GetBody`
  pub get_body {ℓ} :
      {A : Type ℓ} → (Block → A) → (ℕ → ℕ → Option A) → ℕ → BlockNumber → Outcome (Option A)
  get_body body read_body hash n = read_by_number_and_hash c (λ b. some (body b)) read_body hash n

  -- `GetReceipts`, which reports no error.
  pub receipts_by_hash :
      (db : Database)
      → db.Disk
      → (ℕ → ℕ → Option EthBlock)
      → Memory
      → ℕ
      → ℕ
      → Outcome (Option (List ℕ))
  receipts_by_hash db d read_block m fresh hash =
      elim (get_receipts db c d read_block m fresh none (some hash)) [
        | ok none ↦ ok none
        | ok (some (receipts, b)) ↦ ok (some receipts)
        | err why ↦ ok none
        | panic ↦ panic
      ]

-- `GetTransactionReceipt`; the fallback is the method of libevm.
pub get_transaction_receipt {ℓ κ} :
    {R : Type ℓ} {A : Type κ} → (ℕ → Outcome (Option R)) → (R → A) → (ℕ → Outcome A) → ℕ → Outcome A
get_transaction_receipt recent marshal fallback h =
    recent h >>= λ r. elim r [ none ↦ fallback h | some receipt ↦ ok (marshal receipt) ]

-- `GetTransaction`: the transaction, the hash and the number of its block, and its index.
pub get_transaction {ℓ} : {T : Type ℓ} → (ℕ → Option T × ℕ × ℕ × ℕ) → ℕ → Option (T × ℕ × ℕ × ℕ)
get_transaction read_transaction hash =
    let (tx, block_hash, number, index) = read_transaction hash in
    elim tx [ none ↦ none | some t ↦ some (t, block_hash, number, index) ]

-- The inner and the outer loop of `GetPoolTransactions`; a transaction that is not resolved is left out.
pub resolve_batch {ℓ κ} : {L : Type ℓ} {T : Type κ} → (L → Option T) → List L → List T
resolve_batch resolve [] = []
resolve_batch resolve (lazy ∷ rest) =
    let later = resolve_batch resolve rest in
    elim (resolve lazy) [ none ↦ later | some tx ↦ tx ∷ later ]

pub get_pool_transactions {ℓ κ} :
    {L : Type ℓ} {T : Type κ} → (L → Option T) → List (List L) → List T
unfolding resolve_batch
get_pool_transactions resolve [] = []
get_pool_transactions resolve (batch ∷ rest) =
    resolve_batch resolve batch ++ get_pool_transactions resolve rest
