-- ===== src/Sae/Rpc/Tests.antt =====
-- A tip with its base fee, and a block in memory that the database has too.
use strevm.Sae.Rpc.Prices.{IsOrdered, new_price_options-IsOrdered}
use strevm.Base.{pos, Outcome, Option, ℕ, ◌+◌, ◌≡◌, refl, some, none, ok}
use strevm.Hook.{Header}
use strevm.Blocks.{Block, ExecutionResults}
use strevm.Blocks.Access.{Chain, latest}
use strevm.Blocks.Execution.Tests.{tables, disk_after, results_after, executed_block}
use strevm.Sae.Rpc.{new_price_options, state_and_header, state_at_block}
use strevm.Sae.Rpc.Evicted.{evicted, state_and_header-evicted, IsStored}

abbrev chain : Chain
chain = record {
  last_accepted = 2;
  last_executed = 1;
  last_settled = 0;
  consensus_critical_block = λ h. some executed_block;
  read_canonical_hash = λ n. n + 1;
  read_header_number = λ h. some 1;
}

abbrev read_header : ℕ → ℕ → Option Header
read_header hash num = some executed_block.header

abbrev open_state : ℕ → Outcome ℕ
open_state root = ok (root + 7)

stored : IsStored tables chain disk_after read_header 1 2 executed_block results_after
unfolding strevm.Blocks.Execution.load_execution_results
stored = record { critical = refl; executed = refl; header = refl; results = refl }

new_price_options-IsOrdered_example : IsOrdered (pos 40) 25 (new_price_options (pos 40) 25)
new_price_options-IsOrdered_example = new_price_options-IsOrdered (pos 40) 25

state_and_header-evicted_example :
    (state_and_header tables chain disk_after open_state read_header (some latest) none
      ≡ state_and_header tables
          (evicted chain)
          disk_after
          open_state
          read_header
          (some latest)
          none)
    × (state_at_block tables chain disk_after open_state 2 1
        ≡ state_at_block tables (evicted chain) disk_after open_state 2 1)
unfolding strevm.Blocks.Access.resolve_rpc_number
state_and_header-evicted_example =
    state_and_header-evicted tables chain disk_after read_header 1 2 executed_block results_after
      stored open_state latest refl refl
