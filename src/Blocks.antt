-- ===== src/Blocks.antt =====
-- blocks/block.go: a block of streaming asynchronous execution. Blocks are shared by pointers, so
-- they stand in a memory: a pointer is a number, nil is `none`. Atomic pointers and channels are
-- fields that the operations read and write in one step each.
pub mod Settlement
pub mod Chain
pub mod Execution
pub mod LifeCycle
pub mod Access
use strevm.Base.{
  ℕ, ◌+◌, Bool, true, false, not, Option, none, some, Outcome, ok, err, panic, ◌>>=◌, ◌>>◌, ◌==◌,
  if◌then◌else◌, fail_if, List, parent_hash_mismatch, block_height_not_incrementing, hash_mismatch,
}
use strevm.ProxyTime
use strevm.GasTime
use strevm.Hook.{Header}

-- `ancestry`
pub record Ancestry : Type 0 where
  pub parent : Option ℕ
  pub last_settled : Option ℕ

-- `executionResults`, without the wall-clock time, which is for metrics only. Receipts are opaque.
pub record ExecutionResults : Type 0 where
  pub by_gas : GasTime.Time
  pub base_fee : ℕ
  pub receipt_root : ℕ
  pub state_root_post : ℕ
  pub receipts : List ℕ

-- `WorstCaseBounds` of blocks/invariants.go; the maps are association lists from addresses.
pub record WorstCaseBounds : Type 0 where
  pub max_base_fee : ℕ
  pub latest_end_time : GasTime.Time
  pub min_op_burner_balances : List (List (ℕ × ℕ))

-- `Block`; `executed` and `settled` say that the channels are closed.
pub record Block : Type 0 where
  pub header : Header
  pub hash : ℕ
  pub ancestry : Option Ancestry
  pub synchronous : Bool
  pub bounds : Option WorstCaseBounds
  pub execution : Option ExecutionResults
  pub interim_execution_time : Option ProxyTime.Time
  pub executed : Bool
  pub settled : Bool

-- The blocks, and the internal pointers of the VM and the executor to the last settled and the
-- last executed of them.
pub record Memory : Type 0 where
  pub block : ℕ → Block
  pub last_settled : Option ℕ
  pub last_executed : Option ℕ

abbrev pub height : Memory → ℕ → ℕ
height m p = (m.block p).header.number

-- A write through a pointer.
abbrev pub store : Memory → ℕ → Block → Memory
store m p b = record m { block = λ q. if q == p then b else m.block q }

-- The checks of `SetAncestors` on a parent that is not nil. Numbers are big integers there, so that
-- a block of number zero has no parent.
unfoldable pub check_parent : Memory → ℕ → Option ℕ → Outcome (Unit {0})
check_parent m p none = ok tt
check_parent m p (some q) = do
  fail_if (not ((m.block q).hash == (m.block p).header.parent_hash)) parent_hash_mismatch
  fail_if (not (height m q + 1 == height m p)) block_height_not_incrementing
  ok tt

unfoldable pub set_ancestors : Memory → ℕ → Option ℕ → Option ℕ → Outcome Memory
unfolding check_parent
set_ancestors m p parent last_settled = do
  check_parent m p parent
  ok (
      store m p (record (m.block p) {
        ancestry = some (record { parent = parent; last_settled = last_settled });
      }))

-- `New` at a pointer that is fresh, for the header and the hash of a libevm block.
unfoldable pub new : Memory → ℕ → Header → ℕ → Option ℕ → Option ℕ → Outcome Memory
unfolding set_ancestors
new m p header hash parent last_settled =
    let fresh : Block = record {
      header = header;
      hash = hash;
      ancestry = none;
      synchronous = false;
      bounds = none;
      execution = none;
      interim_execution_time = none;
      executed = false;
      settled = false;
    } in
    set_ancestors (store m p fresh) p parent last_settled

-- The nil dereference of a source without ancestry panics.
pub copy_ancestors_from : Memory → ℕ → ℕ → Outcome Memory
unfolding set_ancestors
copy_ancestors_from m p source =
    if not ((m.block source).hash == (m.block p).hash)
    then err hash_mismatch
    else elim (m.block source).ancestry [
      | none ↦ panic
      | some a ↦ set_ancestors m p a.parent a.last_settled
    ]
