-- ===== src/Blocks/Execution/Tests.antt =====
-- A database of functions, and a block that is executed and read back.
use strevm.Base.{
  arith, ◌⊎◌, true, none, ◌==◌, Outcome, ◌≡◌, Error, ◌∷◌, if◌then◌else◌, false, external, some,
  ==_iff, [], List, ℕ, ok, err, refl,
}
use strevm.GasTime
use strevm.Hook.{Header}
use strevm.Blocks.{Memory, Block, ExecutionResults}
use strevm.Blocks.Execution.{
  Database, DatabaseLaws, Write, in_memory, mark_executed_with, mark_executed_on_disk,
  mark_executed_after_disk, set_base_fee, write_receipts, write_head_block_hash,
  write_head_header_hash, set_as_head_block, mark_executed, restore_execution_artefacts,
}
use strevm.Blocks.Execution.Marked.{mark_executed_lem, IsStored, executed_at, results}
use strevm.Blocks.Execution.Restored.{restore-mark_executed, IsReread}

-- Results by height, and receipts by hash.
abbrev pub Tables : Type 0
Tables = (ℕ → Outcome ExecutionResults) × (ℕ → List ℕ)

abbrev write_all : Tables → List Write → Tables
write_all d [] = d
write_all d (write_receipts hash n rs ∷ ws) =
    let later = write_all d ws in (later.0, λ h. if h == hash then rs else later.1 h)
write_all d (write_head_block_hash h ∷ ws) = write_all d ws
write_all d (write_head_header_hash h ∷ ws) = write_all d ws

abbrev pub tables : Database
tables = record {
  Disk = Tables;
  Bytes = ExecutionResults;
  marshal = λ e. record e { receipts = [] };
  unmarshal = λ b. ok b;
  put = λ d n b. ((λ k. if k == n then ok b else d.0 k, d.1), none);
  sync = λ d a b. (d, none);
  write = λ d ws. (write_all d ws, none);
  get = λ d n. d.0 n;
  read_raw_receipts = λ d hash n. d.1 hash;
  derive_fields = λ b e rs. ok rs;
  derive_sha = λ rs. 0;
}

write_all-results : (d : Tables) (ws : List Write) (n : ℕ) → (write_all d ws).0 n ≡ d.0 n
write_all-results d [] n = refl
write_all-results d (write_receipts hash k rs ∷ ws) n = write_all-results d ws n
write_all-results d (write_head_block_hash h ∷ ws) n = write_all-results d ws n
write_all-results d (write_head_header_hash h ∷ ws) n = write_all-results d ws n

pub tables-laws : DatabaseLaws tables
tables-laws = record {
  unmarshal-marshal = λ e. refl;
  get-put = λ d n b done. rw ((==_iff n n).1 refl) refl;
  get-sync = λ d a b n. refl;
  get-write = λ d ws n. write_all-results d ws n;
  receipts-write = λ d hash n rs b done. rw ((==_iff hash hash).1 refl) refl;
}

abbrev header : Header
header = record { parent_hash = 1; number = 1; time = 9; root = 0; gas_limit = 0; base_fee = 3 }

abbrev fresh : Block
fresh = record {
  header = header;
  hash = 2;
  ancestry = some (record { parent = some 0; last_settled = some 0 });
  synchronous = false;
  bounds = none;
  execution = none;
  interim_execution_time = none;
  executed = false;
  settled = false;
}

abbrev memory : Memory
memory = record { block = λ p. fresh; last_settled = some 0; last_executed = some 0 }

abbrev pub disk : Tables
disk = (λ n. err (external 0), λ hash. [])

abbrev by_gas : GasTime.Time
by_gas = record {
  time = record { seconds = 9; fraction = 3; hertz = 8 };
  target = 4;
  excess = 20;
  config = record { target_to_excess_scaling = 87; min_price = 1; static_pricing = false };
}

abbrev pub results_after : ExecutionResults
results_after = record {
  by_gas = by_gas;
  base_fee = 3;
  receipt_root = 0;
  state_root_post = 5;
  receipts = 7 ∷ 8 ∷ [];
}

abbrev pub executed_block : Block
executed_block = record fresh { execution = some results_after; executed = true }

-- The disk and the memory after the block at 1 is executed.
abbrev pub disk_after : Tables
disk_after = (
  λ n.
      (if n == 1
        then ok (record {
          by_gas = by_gas;
          base_fee = 3;
          receipt_root = 0;
          state_root_post = 5;
          receipts = [];
        })
        else err (external 0)),
  λ h. (if h == 2 then 7 ∷ 8 ∷ [] else []),
)

fresh-IsReread :
    IsReread tables tables-laws fresh fresh (results tables tables-laws by_gas 3 (7 ∷ 8 ∷ []) 5)
fresh-IsReread = record {
  header = refl;
  hash = refl;
  execution = refl;
  executed = refl;
  derived = refl;
}

mark_executed_lem_example :
    ((d' : tables.Disk) × (x : Error) × (mark_executed tables disk memory 1 by_gas
          (some 3)
          (7 ∷ 8 ∷ [])
          5
          true
        ≡ ok (d', memory, some x)))
    ⊎ ((d' : tables.Disk) × (mark_executed tables disk memory 1 by_gas (some 3) (7 ∷ 8 ∷ []) 5 true
          ≡ ok (
            d',
            executed_at memory 1 (results tables tables-laws by_gas 3 (7 ∷ 8 ∷ []) 5) true,
            none,
          ))
        × ((memory.block 1).execution ≡ none)
        × IsStored tables tables-laws d'
            (memory.block 1)
            (results tables tables-laws by_gas 3 (7 ∷ 8 ∷ []) 5))
mark_executed_lem_example =
    mark_executed_lem tables (tables-laws) disk memory 1 by_gas 3 (7 ∷ 8 ∷ []) 5 true (λ e. refl)
      (omega arith)

marked :
    mark_executed tables disk memory 1 by_gas (some 3) (7 ∷ 8 ∷ []) 5 true
    ≡ ok (
      disk_after,
      executed_at memory 1 (results tables tables-laws by_gas 3 (7 ∷ 8 ∷ []) 5) true,
      none,
    )
unfolding mark_executed mark_executed_with mark_executed_on_disk mark_executed_after_disk
    set_base_fee set_as_head_block in_memory
marked = refl

restore-mark_executed_example :
    (m2' : Memory) × (restore_execution_artefacts tables disk_after memory 1 ≡ ok m2')
    × ((m2'.block 1).execution
        ≡ ((executed_at memory 1 (results tables tables-laws by_gas 3 (7 ∷ 8 ∷ []) 5) true).block
            1).execution)
    × ((m2'.block 1).executed ≡ true)
restore-mark_executed_example =
    restore-mark_executed tables (tables-laws) disk disk_after memory
      (executed_at memory 1 (results tables tables-laws by_gas 3 (7 ∷ 8 ∷ []) 5) true) memory 1 1
      by_gas 3 (7 ∷ 8 ∷ []) 5 true (λ e. refl) (omega arith) marked (fresh-IsReread)
