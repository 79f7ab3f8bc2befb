-- ===== src/Blocks/Execution.antt =====
-- blocks/execution.go, blocks/invariants.go, and what blocks/settlement.go and blocks/block.go build
-- on them: a block that is marked as executed, on disk and then in memory. The databases are an
-- interface; each of their writes returns what it leaves on disk and its error, if any.
pub mod Marked
pub mod Restored
pub mod Tests
use strevm.Base.{
  base_fee_overflows, ◌^◌, ◌++◌, leb, false, true, mark_block_executed_again, if◌then◌else◌, ◌>>=◌,
  none, Bool, ◌∷◌, some, [], Error, List, Option, ◌≡◌, Outcome, ℕ, ok, err, panic,
}
use strevm.GasTime
use strevm.ProxyTime
use strevm.Blocks.{Memory, Block, ExecutionResults, store}

-- The writes that the source puts into a batch.
pub data Write : Type 0 where
  write_receipts : ℕ → ℕ → List ℕ → Write
  write_head_block_hash : ℕ → Write
  write_head_header_hash : ℕ → Write

-- `SetAsHeadBlock`
pub set_as_head_block : Block → List Write
set_as_head_block b = write_head_block_hash b.hash ∷ write_head_header_hash b.hash ∷ []

-- `ethdb.Database`, the database of execution results and the hash of receipts. `marshal` and
-- `unmarshal` are the generated encodings of results.
pub record Database : Type 1 where
  pub Disk : Type 0
  pub Bytes : Type 0
  pub marshal : ExecutionResults → Bytes
  pub unmarshal : Bytes → Outcome ExecutionResults
  pub put : Disk → ℕ → Bytes → Disk × Option Error
  pub sync : Disk → ℕ → ℕ → Disk × Option Error
  pub write : Disk → List Write → Disk × Option Error
  pub get : Disk → ℕ → Outcome Bytes
  pub read_raw_receipts : Disk → ℕ → ℕ → List ℕ
  pub derive_fields : Block → ExecutionResults → List ℕ → Outcome (List ℕ)
  pub derive_sha : List ℕ → ℕ

-- What the databases document: the results that are put are got back, whatever is written besides;
-- the encoding leaves out the receipts; receipts that a batch writes, with
-- the block as the head, are read back.
pub record DatabaseLaws (db : Database) : Type 0 where
  pub unmarshal-marshal :
      (e : ExecutionResults) → db.unmarshal (db.marshal e) ≡ ok (record e { receipts = [] })
  pub get-put :
      (d : db.Disk) (n : ℕ) (b : db.Bytes)
      → (db.put d n b).1 ≡ none
      → db.get (db.put d n b).0 n ≡ ok b
  pub get-sync : (d : db.Disk) (a b n : ℕ) → db.get (db.sync d a b).0 n ≡ db.get d n
  pub get-write : (d : db.Disk) (ws : List Write) (n : ℕ) → db.get (db.write d ws).0 n ≡ db.get d n
  pub receipts-write :
      (d : db.Disk) (hash n : ℕ) (rs : List ℕ) (b : Block)
      → (db.write d (write_receipts hash n rs ∷ set_as_head_block b)).1 ≡ none
      → db.read_raw_receipts (db.write d (write_receipts hash n rs ∷ set_as_head_block b)).0 hash n
        ≡ rs

-- `SetInterimExecutionTime`
unfoldable pub set_interim_execution_time : Memory → ℕ → ProxyTime.Time → Memory
set_interim_execution_time m p t =
    store m p (record (m.block p) { interim_execution_time = some t })

-- `setBaseFee`; nil for a genesis block.
pub set_base_fee : ExecutionResults → Option ℕ → Outcome ExecutionResults
set_base_fee e none = ok e
set_base_fee e (some bf) =
    if leb (2 ^ 256) bf then err base_fee_overflows else ok (record e { base_fee = bf })

-- `markExecutedAfterDiskArtefacts`; closing a channel twice panics.
unfoldable pub mark_executed_after_disk : Memory → ℕ → ExecutionResults → Bool → Outcome Memory
mark_executed_after_disk m p e to_pointer =
    let b = m.block p in
    elim b.execution [
      | some old ↦ err mark_block_executed_again
      | none ↦
          if b.executed
          then panic
          else ok (record (store m p (record b { execution = some e; executed = true })) {
            last_executed = if to_pointer then some p else m.last_executed;
          })
    ]

module _ (db : Database) where
  -- What is left on disk and in memory, with the error that is returned, if any.
  abbrev pub World : Type 0
  World = db.Disk × Memory × Option Error

  -- `markExecutedOnDisk`, which returns at the first error.
  pub mark_executed_on_disk :
      db.Disk → Block → List Write → ExecutionResults → Bool → db.Disk × Option Error
  mark_executed_on_disk d b batch e set_as_head =
      let n = b.header.number in
      let stored = db.put d n (db.marshal e) in
      let synced = db.sync stored.0 n n in
      let all = if set_as_head then batch ++ set_as_head_block b else batch in
      elim stored.1 [
        | some x ↦ (stored.0, some x)
        | none ↦ elim synced.1 [ some x ↦ (synced.0, some x) | none ↦ db.write synced.0 all ]
      ]

  -- The memory stays on an error.
  in_memory : db.Disk → Memory → Outcome Memory → Outcome World
  in_memory d m (ok m') = ok (d, m', none)
  in_memory d m (err x) = ok (d, m, some x)
  in_memory d m panic = panic

  -- `markExecuted`
  pub mark_executed_with :
      db.Disk → Memory → ℕ → List Write → ExecutionResults → Bool → Bool → Outcome World
  unfolding in_memory mark_executed_on_disk mark_executed_after_disk
  mark_executed_with d m p batch e set_as_head to_pointer =
      let left = mark_executed_on_disk d (m.block p) batch e set_as_head in
      elim left.1 [
        | some x ↦ ok (left.0, m, some x)
        | none ↦ in_memory left.0 m (mark_executed_after_disk m p e to_pointer)
      ]

  -- `MarkExecuted`; the comparison with the interim time is only logged.
  pub mark_executed :
      db.Disk → Memory → ℕ → GasTime.Time → Option ℕ → List ℕ → ℕ → Bool → Outcome World
  unfolding set_base_fee mark_executed_with
  mark_executed d m p by_gas base_fee receipts state_root_post to_pointer =
      let e : ExecutionResults = record {
        by_gas = by_gas;
        base_fee = 0;
        receipt_root = db.derive_sha receipts;
        state_root_post = state_root_post;
        receipts = receipts;
      } in
      let b = m.block p in
      elim (set_base_fee e base_fee) [
        | err x ↦ ok (d, m, some x)
        | panic ↦ panic
        | ok e' ↦
            mark_executed_with d m p (write_receipts b.hash b.header.number receipts ∷ []) e' true
              to_pointer
      ]

  -- `loadExecutionResults`
  unfoldable pub load_execution_results : db.Disk → ℕ → Outcome ExecutionResults
  load_execution_results d n = db.get d n >>= λ buf. db.unmarshal buf

  -- `RestoreExecutionArtefacts`
  unfoldable pub restore_execution_artefacts : db.Disk → Memory → ℕ → Outcome Memory
  unfolding load_execution_results
  restore_execution_artefacts d m p = do
    let b = m.block p
    e ← load_execution_results d b.header.number
    receipts ← db.derive_fields b e (db.read_raw_receipts d b.hash b.header.number)
    mark_executed_after_disk m p (record e { receipts = receipts }) false
