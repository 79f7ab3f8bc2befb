-- ===== src/SaeExec.antt =====
-- saexec/execution.go: the execution of a block, from the results of its parent to its own. libevm's
-- EVM and the hooks around a block are an interface; the state database, the databases and the
-- rest of libevm are those of Hook.Ops, Blocks.Execution and WorstCase. Receipts are sent to
-- subscribers as events, which are left out.
pub mod Progressed
pub mod Loops
pub mod Receipts
pub mod Context
pub mod Refine
pub mod Queue
pub mod Rounds
pub mod Tests
use strevm.Base.{
  ◌&&◌, zero, suc, unexpected_parent, ◌==◌, executor_closed, not, length, false, ◌-◌, if◌then◌else◌,
  true, take, Error, Bool, ◌^◌, ◌+◌, fatal_execution_error, add_u64, ◌>>=◌, and_then, some, none,
  ◌++◌, [], Run, ◌∷◌, Outcome, Option, List, ℕ, ok, err, panic,
}
use mathlib.Core.List.{map}
use strevm.ProxyTime
use strevm.GasTime
use strevm.Hook.{Header, Points}
use strevm.Hook.Ops.{StateDb, AccountDebit, Op, apply_to}
use strevm.Blocks.{Memory, Block, ExecutionResults}
use strevm.Blocks.Settlement.{parent_block}
use strevm.Blocks.Execution.{Database, World, set_interim_execution_time, mark_executed}
use strevm.Blocks.LifeCycle.{Logged, check_base_fee_bound, check_op_burner_balance_bounds}
use strevm.WorstCase.{Transaction, Chain, deref}

-- math.MaxInt
abbrev pub max_int : ℕ
max_int = 2 ^ 63 - 1

abbrev is_some {ℓ} : {A : Type ℓ} → Option A → Bool
is_some none = false
is_some (some a) = true

-- The fields of a receipt that the source reads or sets, of the receipt itself and of its logs.
pub record Receipt : Type 0 where
  pub gas_used : ℕ
  pub block_hash : ℕ
  pub log_block_hashes : List ℕ
  pub effective_gas_price : ℕ
  pub payload : ℕ

-- The body of a libevm block, the EVM, and the hooks of `Points` that run around a block.
-- `core.ApplyTransaction` also adds the gas that it uses to a counter, which is written out below.
pub record Evm (db : StateDb) : Type 1 where
  pub transactions : Block → List Transaction
  pub apply_transaction : Header → db.Accounts → Transaction → Outcome (db.Accounts × Receipt)
  pub effective_gas_tip : Transaction → ℕ → ℕ
  pub before_executing_block : db.Accounts → Block → Outcome db.Accounts
  pub end_of_block_ops : Block → Outcome (List Op)
  pub after_executing_block : db.Accounts → Block → List Receipt → Outcome db.Accounts
  pub commit : db.Accounts → ℕ → Outcome ℕ
  pub maybe_commit : ℕ → ℕ → ℕ → Outcome (Unit {0})
  pub encode : Receipt → ℕ

-- What `Execute` has done by some point: the state database, the gas of the block, the clock that
-- ticks with each transaction, the blocks in memory, the receipts, and what has been logged.
pub record Progress (db : StateDb) : Type 0 where
  pub accounts : db.Accounts
  pub gas : ℕ
  pub per_tx_clock : ProxyTime.Time
  pub memory : Memory
  pub receipts : List Receipt
  pub logged : List Logged

-- `ExecutionResults` of the package; the wall-clock time is for metrics.
pub record Executed (db : StateDb) : Type 0 where
  pub base_fee : ℕ
  pub state_db : db.Accounts
  pub receipts : List Receipt
  pub finish_by : GasTime.Time

module _ (db : StateDb) (chain : Chain db) (evm : Evm db) where
  -- The gas of a transaction or an operation, on the counter, the clock and the block.
  unfoldable pub consume : Progress db → ℕ → ℕ → Outcome (Progress db)
  consume r p gas = do
    clock ← ProxyTime.tick r.per_tx_clock gas
    ok (record r {
      gas = add_u64 r.gas gas;
      per_tx_clock = clock;
      memory = set_interim_execution_time r.memory p clock;
    })

  -- What `CheckSenderBalanceBound` logs; a sender that is not recovered is only warned about.
  unfoldable pub sender_bound :
      Block → Option chain.Signer → db.Accounts → ℕ → Transaction → List Logged
  sender_bound b signer accounts ti tx = elim (chain.sender signer tx) [
    | ok from ↦ check_op_burner_balance_bounds b (db.get_balance accounts) ti (from ∷ [])
    | err _ ↦ []
    | panic ↦ []
  ]

  -- The receipt as `Execute` completes it.
  abbrev complete : Block → ℕ → Transaction → Receipt → Receipt
  complete b base_fee tx receipt = record receipt {
    block_hash = b.hash;
    log_block_hashes = map (λ l. b.hash) receipt.log_block_hashes;
    effective_gas_price = base_fee + evm.effective_gas_tip tx base_fee;
  }

  -- The body of the loop over the transactions; any error of the EVM is fatal.
  unfoldable pub execute_tx :
      Block → ℕ → Option chain.Signer → Header → Progress db → ℕ → Transaction → Run (Progress db)
  unfolding consume sender_bound
  execute_tx b p signer header r ti tx =
      let checked : Progress db = record r {
        logged = r.logged ++ sender_bound b signer r.accounts ti tx;
      } in
      elim (evm.apply_transaction header r.accounts tx) [
        | err _ ↦ ok (checked, some fatal_execution_error)
        | panic ↦ panic
        | ok (accounts, receipt) ↦
            consume
              (record checked {
                accounts = accounts;
                receipts = r.receipts ++ complete b header.base_fee tx receipt ∷ [];
              })
              p receipt.gas_used
            >>= λ r'. ok (r', none)
      ]

  unfoldable pub execute_txs :
      Block
      → ℕ
      → Option chain.Signer
      → Header
      → Progress db
      → ℕ
      → List Transaction
      → Run (Progress db)
  execute_txs b p signer header r ti [] = ok (r, none)
  execute_txs b p signer header r ti (tx ∷ rest) =
      and_then (execute_tx b p signer header r ti tx)
        λ r'. execute_txs b p signer header r' (ti + 1) rest

  abbrev burners : List (ℕ × AccountDebit) → List ℕ
  burners [] = []
  burners ((from, ad) ∷ rest) = from ∷ burners rest

  -- `ApplyTo` in the loop over the operations; any error is fatal.
  unfoldable pub apply_op : Op → Progress db → Run (Progress db)
  apply_op o r = elim (apply_to db o r.accounts) [
    | ok accounts ↦ ok (record r { accounts = accounts }, none)
    | err _ ↦ ok (r, some fatal_execution_error)
    | panic ↦ panic
  ]

  -- The body of the loop over the operations at the end of the block.
  unfoldable pub execute_op : Block → ℕ → Progress db → ℕ → Op → Run (Progress db)
  unfolding consume apply_op
  execute_op b p r index o =
      let checked : Progress db = record r {
        logged =
            r.logged
            ++ check_op_burner_balance_bounds b (db.get_balance r.accounts) index (burners o.burn);
      } in
      consume checked p o.gas >>= λ r'. apply_op o r'

  unfoldable pub execute_ops : Block → ℕ → Progress db → ℕ → List Op → Run (Progress db)
  execute_ops b p r index [] = ok (r, none)
  execute_ops b p r index (o ∷ rest) =
      and_then (execute_op b p r index o) λ r'. execute_ops b p r' (index + 1) rest

  -- The blocks as `Execute` leaves them, what it logs, and its results or its error.
  pub record Attempt : Type 0 where
    pub memory : Memory
    pub logged : List Logged
    pub result : Outcome (Executed db)

  abbrev failed : Progress db → Error → Outcome Attempt
  failed r why = ok (record { memory = r.memory; logged = r.logged; result = err why })

  abbrev goes_on : {A : Type 0} → Progress db → Outcome A → (A → Outcome Attempt) → Outcome Attempt
  goes_on r (ok a) next = next a
  goes_on r (err why) next = failed r why
  goes_on r panic next = panic

  abbrev goes_on_from : Run (Progress db) → (Progress db → Outcome Attempt) → Outcome Attempt
  goes_on_from panic next = panic
  goes_on_from (err why) next = err why
  goes_on_from (ok (r, some why)) next = failed r why
  goes_on_from (ok (r, none)) next = next r

  module _ (calculate_price : ℕ → ℕ → ℕ → ℕ) (hooks : Points) where
    -- The end of `Execute`, from AfterBlock on.
    unfoldable pub finish_by : ℕ → Progress db → GasTime.Time × Option Error → Outcome Attempt
    finish_by base_fee r (clock, some why) = failed r why
    finish_by base_fee r (clock, none) = ok (record {
      memory = r.memory;
      logged = r.logged;
      result = ok (record {
        base_fee = base_fee;
        state_db = r.accounts;
        receipts = r.receipts;
        finish_by = clock;
      });
    })

    -- What `Execute` does after the hook before the block: `clock` is that after BeforeBlock.
    unfoldable pub run_block : Block → ℕ → ℕ → GasTime.Time → Progress db → Outcome Attempt
    unfolding finish_by execute_txs execute_ops
    run_block b p max_num_txs clock r =
        let base_fee = GasTime.base_fee calculate_price clock in
        let header : Header = record b.header { base_fee = base_fee } in
        let signer = some (chain.make_signer b.header.number b.header.time) in
        let txs = take max_num_txs (evm.transactions b) in
        goes_on_from (execute_txs b p signer header r 0 txs) λ r1.
          goes_on r1 (evm.end_of_block_ops b) λ ops.
            goes_on_from (execute_ops b p r1 (length (evm.transactions b)) ops) λ r2.
              goes_on r2 (evm.after_executing_block r2.accounts b r2.receipts) λ accounts.
                let r3 : Progress db = record r2 { accounts = accounts } in
                GasTime.after_block calculate_price clock r3.gas hooks b.header >>= λ run.
                finish_by base_fee r3 run

    -- `Execute`, on the results of the parent, for which it waits. A block without a parent panics.
    unfoldable pub execute : Memory → ℕ → ℕ → ExecutionResults → Outcome Attempt
    unfolding run_block
    execute m p max_num_txs parent =
        let b = m.block p in
        GasTime.before_block parent.by_gas hooks b.header >>= λ clock.
        let start : db.Accounts → Progress db = λ accounts. record {
          accounts = accounts;
          gas = 0;
          per_tx_clock = clock.time;
          memory = m;
          receipts = [];
          logged = check_base_fee_bound b (GasTime.base_fee calculate_price clock);
        } in
        elim (chain.open_state parent.state_root_post) [
          | err why ↦ ok (record { memory = m; logged = []; result = err why })
          | panic ↦ panic
          | ok opened ↦ elim (evm.before_executing_block opened b) [
            | err why ↦ ok (record { memory = m; logged = []; result = err why })
            | panic ↦ panic
            | ok accounts ↦ run_block b p max_num_txs clock (start accounts)
          ]
        ]

    module _ (store_db : Database) where
      -- The executor: what is on disk, the blocks, the queue, and whether `done` is closed.
      pub record Executor : Type 0 where
        pub disk : store_db.Disk
        pub memory : Memory
        pub queue : List ℕ
        pub done : Bool

      -- `afterExecution`; the cache of recent headers and the tracker are left out.
      after_execution : store_db.Disk → Memory → ℕ → Executed db → Outcome (World store_db)
      after_execution d m p r =
          let b = m.block p in
          elim (evm.commit r.state_db b.header.number) [
            | err why ↦ ok (d, m, some why)
            | panic ↦ panic
            | ok root ↦ elim (evm.maybe_commit b.header.root root b.header.number) [
              | err why ↦ ok (d, m, some why)
              | panic ↦ panic
              | ok _ ↦
                  mark_executed store_db d m p r.finish_by (some r.base_fee)
                    (map evm.encode r.receipts) root true
            ]
          ]

      -- The results of a parent; the source waits until there are some, so that none never returns.
      parent_results : Memory → ℕ → Outcome ExecutionResults
      parent_results m p = do q ← deref (parent_block m p); deref (m.block q).execution

      -- The end of `Executor.execute`.
      settle_attempt : store_db.Disk → ℕ → Attempt → Outcome (World store_db)
      unfolding after_execution
      settle_attempt d p a = elim a.result [
        | err why ↦ ok (d, a.memory, some why)
        | panic ↦ panic
        | ok r ↦ after_execution d a.memory p r
      ]

      -- `Executor.execute` when `last` is the last executed block, with math.MaxInt transactions at most.
      execute_after : store_db.Disk → Memory → ℕ → ℕ → Outcome (World store_db)
      unfolding parent_results settle_attempt execute
      execute_after d m p last =
          if not ((m.block last).hash == (m.block p).header.parent_hash)
          then ok (d, m, some unexpected_parent)
          else (do
            parent ← parent_results m p
            a ← execute m p max_int parent
            settle_attempt d p a)

      -- `Executor.execute`
      pub execute_next : store_db.Disk → Memory → ℕ → Outcome (World store_db)
      unfolding execute_after
      execute_next d m p = deref m.last_executed >>= λ last. execute_after d m p last

      -- `Enqueue`, where the queue has room. Where `done` is closed as well, the select takes either case.
      unfoldable pub enqueue : Bool → Executor → ℕ → Executor × Option Error
      enqueue takes_done e p =
          if e.done && takes_done
          then (e, some executor_closed)
          else (record e { queue = e.queue ++ p ∷ [] }, none)

      -- One round of `processQueue`: after an error the goroutine ends, which closes `done`.
      pub process_one : Executor → Outcome Executor
      unfolding execute_next
      process_one e = elim e.queue [
        | [] ↦ ok e
        | p ∷ rest ↦ if e.done then ok e else (do
          (d, m, why) ← execute_next e.disk e.memory p
          ok (record { disk = d; memory = m; queue = rest; done = is_some why }))
      ]

      -- The loop of `processQueue`, for so many rounds.
      pub process_queue : ℕ → Executor → Outcome Executor
      process_queue zero e = ok e
      process_queue (suc rounds) e = process_one e >>= λ e'. process_queue rounds e'
