-- ===== src/SaeExec/Tests.antt =====
-- A block with a transaction and an operation, which the executor runs.
use strevm.Base.{
  ◌++◌, ◌⊎◌, ℕ, unexpected_parent, sym, ◌==◌, true, ok-injective, ◌-◌, ◌≢◌, List, ◌≡◌,
  if◌then◌else◌, false, ap, ◌∷◌, [], refl, ok, some, none, arith,
}
use strevm.GasTime.Tests.{
  settings_run, clock, moved, finished, header, hooks, linear_price, linear_price-laws,
  hooks-IsLawful, clock-IsValid, clock-IsBelow, moved_run, finished_run, moved_price,
}
use strevm.Blocks.{Memory, Block, ExecutionResults, WorstCaseBounds}
use strevm.Blocks.Settlement.{parent_block, ancestor_of}
use strevm.Blocks.Execution.Tests.{tables, tables-laws, disk}
use strevm.WorstCase.{Transaction}
use strevm.WorstCase.Tests.{db, db-laws, chain}
use strevm.Hook.Ops.{Op}
use strevm.SaeExec.{execute_after, Evm, Receipt, Attempt, execute, execute_next, process_queue}
use strevm.SaeExec.Loops.{EvmLaws}
use strevm.SaeExec.Refine.{IsForeseen, IsBounded, execute-IsBounded}
use strevm.SaeExec.Queue.{execute_next-Advances, Advances}
use strevm.SaeExec.Rounds.{
  at, Drains, Event, round, arrive, play, kept, process_one-stops, process_queue-Drains,
}

abbrev transfer : Transaction
transfer = record {
  gas = 30;
  gas_fee_cap = 40;
  gas_tip_cap = 2;
  value = 10;
  nonce = 7;
  to = some 6;
  payload = 0;
}

abbrev mint : Op
mint = record { id = 1; gas = 5; gas_fee_cap = 40; burn = []; mint = (6, 200) ∷ [] }

-- Each transaction uses all of its gas but ten, and mints its value for the recipient.
abbrev pub evm : Evm db
evm = record {
  transactions = λ b. transfer ∷ [];
  apply_transaction = λ h s tx. ok (
    db.add_balance s 6 tx.value,
    record {
      gas_used = tx.gas - 10;
      block_hash = 0;
      log_block_hashes = 0 ∷ [];
      effective_gas_price = 0;
      payload = 3;
    },
  );
  effective_gas_tip = λ tx fee. tx.gas_tip_cap;
  before_executing_block = λ s b. ok s;
  end_of_block_ops = λ b. ok (mint ∷ []);
  after_executing_block = λ s b rs. ok s;
  commit = λ s n. ok 77;
  maybe_commit = λ settled root n. ok tt;
  encode = λ r. r.payload;
}

pub evm-laws : EvmLaws db chain evm
evm-laws = record {
  gas_used = λ h s s' tx r e.
      omega (arith, ap (λ (x : db.Accounts × Receipt). x.1.gas_used) (ok-injective e));
  applies = λ h s tx e. ground arith;
  opens = λ root e. ground arith;
  begins = λ s b e. ground arith;
  has_ops = λ b e. ground arith;
  commits = λ s n e. ground arith;
  may_commit = λ settled root n e. ground arith;
  ends = λ s b rs e. ground arith;
}

abbrev bounds : WorstCaseBounds
bounds = record { max_base_fee = 13; latest_end_time = finished; min_op_burner_balances = [] }

abbrev pub parent_execution : ExecutionResults
parent_execution = record {
  by_gas = clock;
  base_fee = 3;
  receipt_root = 0;
  state_root_post = 5;
  receipts = [];
}

abbrev pub parent : Block
parent = record {
  header = record header { number = 6; time = 10 };
  hash = 1;
  ancestry = none;
  synchronous = false;
  bounds = none;
  execution = some parent_execution;
  interim_execution_time = none;
  executed = true;
  settled = false;
}

abbrev pub child : Block
child = record {
  header = header;
  hash = 2;
  ancestry = some (record { parent = some 0; last_settled = some 0 });
  synchronous = false;
  bounds = some bounds;
  execution = none;
  interim_execution_time = none;
  executed = false;
  settled = false;
}

-- The parent at 0, and the child elsewhere.
abbrev pub memory : Memory
memory = record {
  block = λ p. if p == 0 then parent else child;
  last_settled = some 0;
  last_executed = some 0;
}

child-IsForeseen :
    IsForeseen db chain evm db-laws evm-laws linear_price linear_price-laws hooks child bounds moved
      40
child-IsForeseen = record {
  curr = header;
  cfg = record { target_to_excess_scaling = 87; min_price = 2; static_pricing = false };
  fee = sym moved_price;
  end = finished_run;
  covers = omega arith;
  fits = omega arith;
  room = omega arith;
  agree = refl;
  scaling_in = omega arith;
  min_price_in = omega arith;
  made = settings_run;
}

-- The parent of a block of another chain is not the last executed block.
abbrev orphans : Memory
orphans = record memory { block = λ p. if p == 0 then record parent { hash = 9 } else child }

refused :
    execute_next db chain evm linear_price hooks tables disk orphans 1
    ≡ ok (disk, orphans, some unexpected_parent)
unfolding execute_next execute_after
refused = refl

abbrev two_blocks : List ℕ
two_blocks = 1 ∷ 2 ∷ []

child_parent : parent_block memory 1 ≡ some 0
unfolding parent_block ancestor_of
child_parent = refl

execute-IsBounded_example :
    (a : Attempt db chain evm) × (execute db chain evm linear_price hooks memory 1 1
        parent_execution
      ≡ ok a)
    × IsBounded db chain evm memory 1 bounds a
execute-IsBounded_example =
    execute-IsBounded db chain evm (db-laws) (evm-laws) linear_price (linear_price-laws) hooks
      memory 1 1 parent_execution bounds clock moved 40 (hooks-IsLawful) (clock-IsValid)
      (clock-IsValid) (clock-IsBelow) (omega arith) moved_run (child-IsForeseen)

execute_next-Advances_example :
    (((memory.block 0).hash ≢ (memory.block 1).header.parent_hash)
      × (execute_next db chain evm linear_price hooks tables disk memory 1
          ≡ ok (disk, memory, some unexpected_parent)))
    ⊎ (((memory.block 0).hash ≡ (memory.block 1).header.parent_hash)
        × Advances db chain evm db-laws evm-laws linear_price linear_price-laws hooks tables
            tables-laws memory 1 bounds
            (execute_next db chain evm linear_price hooks tables disk memory 1))
execute_next-Advances_example =
    execute_next-Advances db chain evm (db-laws) (evm-laws) linear_price (linear_price-laws) hooks
      tables (tables-laws) disk memory 1 0 0 parent_execution bounds clock moved 40 (hooks-IsLawful)
      refl child_parent refl (λ e. refl) (clock-IsValid) (clock-IsValid) (clock-IsBelow)
      (omega arith) moved_run (child-IsForeseen) (omega arith)

-- Two rounds and two calls of `Enqueue`, one of which is refused.
abbrev events : List (Event db chain evm linear_price hooks tables)
events = round ∷ arrive true 3 ∷ arrive false 4 ∷ round ∷ []

process_one-stops_example :
    play db chain evm linear_price hooks tables
      (round ∷ events)
      (at db chain evm linear_price hooks tables disk orphans (1 ∷ (2 ∷ [])) false)
    ≡ ok (
        at db chain evm linear_price hooks tables disk orphans
          ((2 ∷ []) ++ kept db chain evm linear_price hooks tables events)
          true)
process_one-stops_example =
    process_one-stops db chain evm linear_price hooks tables disk disk orphans orphans 1 (2 ∷ [])
      unexpected_parent events refused

process_queue-Drains_example :
    Drains db chain evm linear_price hooks tables two_blocks disk memory (
      process_queue db chain evm linear_price hooks tables 4
        (at db chain evm linear_price hooks tables disk memory two_blocks false))
process_queue-Drains_example =
    process_queue-Drains db chain evm linear_price hooks tables two_blocks 4 disk memory
      (omega arith)
