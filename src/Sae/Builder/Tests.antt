-- ===== src/Sae/Builder/Tests.antt =====
-- A block that is replayed and executed, and one that is filled.
use strevm.Base.{
  ◌∙◌, sym, ok-injective, ap, u64_mod, Option, ◌+◌, ◌<◌, List, ◌∷◌, ◌≡◌, [], Outcome, refl, ok, err,
  some, none, arith, panic,
}
use strevm.ProxyTime
use strevm.ProxyTime.{Instant, is_future, forward, scale, scale_fraction}
use strevm.IntMath.{
  mul_div, mul_div_ceil, mul_div_round, bounded_add, bounded_subtract, bounded_multiply,
}
use strevm.GasTime
use strevm.GasTime.{
  before_block, after_block, price, sub_second, fast_forward_to, reduce_by_seconds, tick,
  set_target, reconfigure, find_excess_for_price, search_excess, new_config, equals,
  excess_scaling_factor,
}
use strevm.GasTime.Excess.{IsValid}
use strevm.GasTime.Below.{IsBelow}
use strevm.GasTime.Tests.{
  clock, header, hooks, linear_price, linear_price-laws, hooks-IsLawful, clock-IsValid, moved_run,
}
use strevm.Hook.{Header, validate}
use strevm.Hook.Ops.{apply_to, check_burns, burn_one, burn_all, mint_all}
use strevm.Blocks.{ExecutionResults}
use strevm.ProxyTime.{nanoseconds_per_second}
use strevm.Blocks.Execution.{set_interim_execution_time}
use strevm.Blocks.LifeCycle.{
  check_base_fee_bound, check_op_burner_balance_bounds, check_balance_bounds, check_balances,
  check_balance,
}
use strevm.WorstCase.{
  State, Transaction, mul_add, effective_gas_price, tx_to_op, safe_max_block_size, burner_balances,
  apply, apply_tx, admit, start_block, finish, finish_block, new_state,
}
use strevm.WorstCase.Tests.{db, db-laws, chain, accounts, state, transfer}
use strevm.SaeExec.{
  Attempt, Executed, Receipt, execute, run_block, execute_txs, execute_tx, sender_bound, consume,
  execute_ops, execute_op, apply_op, max_int,
}
use strevm.SaeExec
use strevm.SaeExec.Tests.{evm, evm-laws, memory, child, parent, parent_execution}
use strevm.Sae.Builder.{include_txs, apply_txs, apply_ops, finish_replay, replay_block, replay}
use strevm.Sae.Builder.Predicted.{HasWords, IsRun, idle, next, predicted-IsBelow}
use strevm.Sae.Builder.Included.{include_txs-Again, Again}

abbrev value {ℓ} : {A : Type ℓ} → A → Outcome A → A
value default (ok a) = a
value default (err why) = default
value default panic = default

hooks-HasWords : HasWords hooks
hooks-HasWords = record { scaling_in = λ h. omega arith; min_price_in = λ h. omega arith }

-- The state at the parent.
abbrev settled_state : State db chain
settled_state = record {
  accounts = accounts;
  clock = clock;
  expected_parent_hash = 1;
  q_size = 0;
  block_size = 0;
  max_block_size = 0;
  base_fee = none;
  curr = none;
  signer = none;
  min_op_burner_balances = [];
}

settled_run : new_state db chain parent ≡ ok settled_state
unfolding new_state
settled_run = refl

-- The state after the child is replayed.
abbrev predicted : State db chain
predicted = value settled_state (replay db chain evm linear_price hooks settled_state (child ∷ []))

predicted_run : replay db chain evm linear_price hooks settled_state (child ∷ []) ≡ ok predicted
unfolding replay replay_block apply_txs apply_ops finish_replay start_block admit
    safe_max_block_size apply_tx apply burner_balances tx_to_op mul_add effective_gas_price apply_to
    check_burns burn_one burn_all mint_all finish finish_block before_block sub_second
    fast_forward_to reduce_by_seconds ProxyTime.fast_forward_to is_future forward mul_div
    mul_div_ceil mul_div_round bounded_subtract after_block tick set_target reconfigure
    find_excess_for_price search_excess price new_config validate equals excess_scaling_factor
    ProxyTime.tick scale scale_fraction ProxyTime.set_rate bounded_add bounded_multiply
predicted_run = refl

-- The execution of the child.
abbrev attempt : Attempt db chain evm
attempt =
    value (record { memory = memory; logged = []; result = panic })
      (execute db chain evm linear_price hooks memory 1 max_int parent_execution)

abbrev executed : Executed db
executed =
    value (record { base_fee = 0; state_db = accounts; receipts = []; finish_by = clock })
      attempt.result

attempt_run : execute db chain evm linear_price hooks memory 1 max_int parent_execution ≡ ok attempt
unfolding execute run_block SaeExec.finish_by execute_txs execute_tx sender_bound consume
    execute_ops execute_op apply_op set_interim_execution_time check_base_fee_bound
    check_op_burner_balance_bounds check_balance_bounds check_balances check_balance apply_to
    check_burns burn_all mint_all burn_one before_block sub_second fast_forward_to reduce_by_seconds
    ProxyTime.fast_forward_to is_future forward mul_div mul_div_ceil mul_div_round bounded_subtract
    after_block tick set_target reconfigure find_excess_for_price search_excess price new_config
    validate equals excess_scaling_factor ProxyTime.tick scale scale_fraction ProxyTime.set_rate
    bounded_add bounded_multiply
attempt_run = refl

executed_run : attempt.result ≡ ok executed
unfolding execute run_block SaeExec.finish_by execute_txs execute_tx sender_bound consume
    execute_ops execute_op apply_op set_interim_execution_time check_base_fee_bound
    check_op_burner_balance_bounds check_balance_bounds check_balances check_balance apply_to
    check_burns burn_all mint_all burn_one before_block sub_second fast_forward_to reduce_by_seconds
    ProxyTime.fast_forward_to is_future forward mul_div mul_div_ceil mul_div_round bounded_subtract
    after_block tick set_target reconfigure find_excess_for_price search_excess price new_config
    validate equals excess_scaling_factor ProxyTime.tick scale scale_fraction ProxyTime.set_rate
    bounded_add bounded_multiply
executed_run = refl

abbrev child_execution : ExecutionResults
child_execution = record {
  by_gas = executed.finish_by;
  base_fee = executed.base_fee;
  receipt_root = 0;
  state_root_post = 77;
  receipts = [];
}

child_run :
    IsRun db chain evm db-laws evm-laws linear_price linear_price-laws hooks hooks-IsLawful
      hooks-HasWords parent_execution
      (child ∷ [])
      child_execution
child_run = next memory 1 attempt executed refl attempt_run executed_run refl idle

moved_in_time :
    (c : GasTime.Time) → before_block clock hooks header ≡ ok c → c.time.seconds + 12 < u64_mod
moved_in_time c run =
    let e = ap (λ (x : GasTime.Time). x.time.seconds) (ok-injective (sym run ∙ moved_run)) in
    omega (arith, e)

predicted-IsBelow_example :
    IsValid child_execution.by_gas
    × IsValid predicted.clock
    × IsBelow child_execution.by_gas predicted.clock
predicted-IsBelow_example =
    predicted-IsBelow db chain evm (db-laws) (evm-laws) linear_price (linear_price-laws) hooks
      (hooks-IsLawful) (hooks-HasWords) parent (child ∷ []) settled_state predicted parent_execution
      child_execution refl (clock-IsValid) settled_run
      (omega arith, (λ c run. (moved_in_time c run, refl)), (λ t run. tt)) predicted_run child_run

-- One that does not resolve, one that is applied, and one whose nonce is too low then.
abbrev candidates : List (Option Transaction)
candidates = none ∷ some transfer ∷ some transfer ∷ []

abbrev filled : State db chain
filled = (value (state, []) (include_txs db chain evm linear_price hooks state candidates)).0

filled_run :
    include_txs db chain evm linear_price hooks state candidates ≡ ok (filled, transfer ∷ [])
unfolding include_txs apply_tx apply burner_balances tx_to_op mul_add effective_gas_price apply_to
    check_burns burn_one burn_all mint_all
filled_run = refl

include_txs-Again_example : Again db chain evm linear_price hooks state (transfer ∷ []) filled
include_txs-Again_example =
    include_txs-Again db chain evm linear_price hooks candidates state filled (transfer ∷ [])
      filled_run

abbrev now : Instant
now = record { unix = 16; nanosecond = 0 }

abbrev header_17 : Header
header_17 = record header { time = 17 }
