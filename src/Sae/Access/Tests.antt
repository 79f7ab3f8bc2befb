-- ===== src/Sae/Access/Tests.antt =====
-- A block that the database knows, above the last settled one.
use strevm.Base.{arith, database_not_found, err, ok, Option, ◌≡◌, ℕ, ◌+◌, refl, some, none}
use strevm.GasTime.Tests.{hooks}
use strevm.Blocks.Access.{Chain}
use strevm.Blocks.Settlement.Tests.{three_blocks}
use strevm.Blocks.Execution.Tests.{tables, disk, Tables}
use strevm.Sae.Access.{EthBlock}
use strevm.Sae.Access.Found.{get_block-drops_error, got, from_db}

abbrev chain : Chain
chain = record {
  last_accepted = 2;
  last_executed = 1;
  last_settled = 0;
  consensus_critical_block = λ h. none;
  read_canonical_hash = λ n. n + 1;
  read_header_number = λ h. some 2;
}

abbrev read_block : Tables → ℕ → ℕ → Option EthBlock
read_block d hash num = none

get_block-drops_error_example :
    (from_db tables hooks read_block 0 0 chain disk three_blocks 7 3 2 ≡ err database_not_found)
    × (got tables hooks read_block 0 0 chain disk three_blocks 7 3 ≡ ok none)
get_block-drops_error_example =
    get_block-drops_error tables hooks read_block 0 0 chain disk three_blocks 7 3 2 0 refl refl refl
      (omega arith)
