-- ===== src/Sae/Consensus.antt =====
-- sae/consensus.go and the verification of blocks in sae/blocks.go. The maps of the machine are lists of
-- keys and pointers. What `AcceptBlock` writes in its batch is one call of an interface; the events,
-- and the wait for the execution while bootstrapping, are left out.
pub mod Settling
pub mod Accepted
mod Tests
use strevm.Base.{
  leb, not, fail_if, ◌>>◌, [], true, ◌==◌, Error, ◌>>=◌, or_return, if◌then◌else◌, Bool, Outcome,
  Option, ◌∷◌, Run, List, ℕ, unknown_parent, block_height_too_low, hash_mismatch,
  settled_root_mismatch, settled_height_mismatch, ok, err, panic, some, none,
}
use strevm.ProxyTime.{Instant}
use strevm.Hook.{Points}
use strevm.Hook.Ops.{StateDb}
use strevm.Blocks.{Memory, Block, store, height, set_ancestors, copy_ancestors_from}
use strevm.Blocks.Settlement.{settles, parent_block, last_settled_of, mark_settled_at}
use strevm.Blocks.Execution.{Database}
use strevm.WorstCase.{Chain, deref}
use strevm.SaeExec.{Evm, Executor, enqueue}
use strevm.Sae.Builder.{BlockBuilder, rebuild, last_to_settle}

-- `Store` and `Delete` of a `syncMap`, the last entry of a key being the first of the list.
abbrev pub delete : ℕ → List (ℕ × ℕ) → List (ℕ × ℕ)
delete k [] = []
delete k ((j, p) ∷ rest) = if j == k then delete k rest else (j, p) ∷ delete k rest

-- The loop of `AcceptBlock` that settles the blocks.
pub mark_all : Memory → List ℕ → Run Memory
mark_all m [] = ok (m, none)
mark_all m (s ∷ rest) = or_return m (mark_settled_at m s true) λ m'. mark_all m' rest

-- The loop that forgets them, but for the one with the hash `keep`.
pub forget : Memory → ℕ → List ℕ → List (ℕ × ℕ) → List (ℕ × ℕ)
forget m keep [] critical = critical
forget m keep (s ∷ rest) critical =
    let h = (m.block s).hash in
    forget m keep rest (if h == keep then critical else delete h critical)

module _ (db : StateDb) (chain : Chain db) (evm : Evm db) (calculate_price : ℕ → ℕ → ℕ → ℕ)
    (hooks : Points) (store_db : Database) where
  -- The fields of `VM` that change: the executor, which holds the blocks and the disk, the last accepted
  -- block, the preference, the blocks that are critical for consensus by their hashes, and whether
  -- the chain is bootstrapping.
  pub record Vm : Type 0 where
    pub executor : Executor db chain evm calculate_price hooks store_db
    pub last_accepted : Option ℕ
    pub preference : Option ℕ
    pub consensus_critical : List (ℕ × ℕ)
    pub bootstrapping : Bool

  abbrev pub with_memory : Vm → Memory → Vm
  with_memory v m = record v { executor = record v.executor { memory = m } }

  -- The result of `GetBlock` is stored.
  pub set_preference : Vm → Outcome ℕ → Outcome Vm
  set_preference v found = found >>= λ p. ok (record v { preference = some p })

  -- The end of `AcceptBlock`, by what `Enqueue` returns.
  accept_queued :
      Vm
      → ℕ
      → List ℕ
      → ℕ
      → Executor db chain evm calculate_price hooks store_db × Option Error
      → Run Vm
  accept_queued v p settled parent_last_settled (executor, some x) =
      ok (record v { executor = executor; last_accepted = some p }, some x)
  accept_queued v p settled parent_last_settled (executor, none) = do
    let m = v.executor.memory
    last ← deref (last_settled_of m p)
    let keep = (m.block last).hash
    let h = (m.block parent_last_settled).hash
    let critical = forget m keep settled v.consensus_critical
    ok (
      record v {
        executor = executor;
        last_accepted = some p;
        consensus_critical = if h == keep then critical else delete h critical;
      },
      none,
    )

  -- `AcceptBlock` from the last accepted block on.
  accept_settled : Bool → Vm → ℕ → List ℕ → ℕ → Run Vm
  unfolding accept_queued
  accept_settled takes_done v p settled parent_last_settled =
      accept_queued v p settled parent_last_settled
        (enqueue db chain evm calculate_price hooks store_db takes_done v.executor p)

  -- `AcceptBlock` after its batch.
  accept_written : Bool → Vm → ℕ → List ℕ → Run Vm
  unfolding accept_settled mark_all
  accept_written takes_done v p settled = do
    let m = v.executor.memory
    parent ← deref (parent_block m p)
    parent_last_settled ← deref (last_settled_of m parent)
    (m', why) ← mark_all m settled
    elim why [
      | some x ↦ ok (with_memory v m', some x)
      | none ↦ accept_settled takes_done (with_memory v m') p settled parent_last_settled
    ]

  -- The hash that is written as that of the finalized block, if any.
  finalized_hash : Memory → ℕ → List ℕ → Outcome (Option ℕ)
  finalized_hash m p [] = ok none
  finalized_hash m p (s ∷ rest) =
      deref (last_settled_of m p) >>= λ last. ok (some (m.block last).hash)

  -- `AcceptBlock` with the error of its batch, if any.
  accept_after : Bool → Vm → ℕ → List ℕ → Option Error → Run Vm
  unfolding accept_written
  accept_after takes_done v p settled (some x) = ok (v, some x)
  accept_after takes_done v p settled none = accept_written takes_done v p settled

  abbrev pub with_disk : Vm → store_db.Disk → Vm
  with_disk v d = record v { executor = record v.executor { disk = d } }

  -- `AcceptBlock`; `write_accepted` is its batch, for the hash of the finalized block, if any.
  pub accept_block :
      (store_db.Disk → Option ℕ → Block → store_db.Disk × Option Error) → Bool → Vm → ℕ → Run Vm
  unfolding accept_after finalized_hash
  accept_block write_accepted takes_done v p = do
    let m = v.executor.memory
    settled ← settles m p
    finalized ← finalized_hash m p settled
    let left = write_accepted v.executor.disk finalized (m.block p)
    accept_after takes_done (with_disk v left.0) p settled left.1

  -- `RejectBlock`
  pub reject_block : Vm → ℕ → Vm
  reject_block v p = record v {
    consensus_critical = delete (v.executor.memory.block p).hash v.consensus_critical;
  }

  -- The block is critical for consensus from now on.
  abbrev pub verified : Vm → ℕ → Memory → Vm
  verified v p m = record (with_memory v m) {
    consensus_critical = ((m.block p).hash, p) ∷ v.consensus_critical;
  }

  -- `verifyWhenBootstrapping`
  pub verify_when_bootstrapping : Vm → ℕ → ℕ → Instant → Outcome Vm
  verify_when_bootstrapping v p parent now = do
    let m = v.executor.memory
    let header = (m.block p).header
    last_settled ← last_to_settle hooks m header parent now
    e ← deref (m.block last_settled).execution
    fail_if (not (e.state_root_post == header.root)) settled_root_mismatch
    fail_if (not (height m last_settled == hooks.settled_height header)) settled_height_mismatch
    m' ← set_ancestors m p (some parent) (some last_settled)
    ok (verified v p m')

  -- The verification of a block that is rebuilt at a fresh pointer.
  verify_rebuilt : (Block → Outcome BlockBuilder) → Vm → ℕ → ℕ → ℕ → Instant → Outcome Vm
  verify_rebuilt block_rebuilder_from v fresh p parent now = do
    m ←
        rebuild db chain evm calculate_price hooks block_rebuilder_from v.executor.memory fresh
          parent p now
    fail_if (not ((m.block fresh).hash == (m.block p).hash)) hash_mismatch
    m' ← copy_ancestors_from m p fresh
    ok (verified v p (store m' p (record (m'.block p) { bounds = (m.block fresh).bounds })))

  -- `VerifyBlock`; `found` is the result of `GetBlock` for the hash of the parent.
  pub verify_block : (Block → Outcome BlockBuilder) → Vm → ℕ → Outcome ℕ → ℕ → Instant → Outcome Vm
  unfolding verify_when_bootstrapping verify_rebuilt
  verify_block block_rebuilder_from v fresh found p now = elim found [
    | panic ↦ panic
    | err why ↦ err unknown_parent
    | ok parent ↦ do
      let m = v.executor.memory
      accepted ← deref v.last_accepted
      fail_if (leb (height m p) (height m accepted)) block_height_too_low
      if v.bootstrapping
          then verify_when_bootstrapping v p parent now
          else verify_rebuilt block_rebuilder_from v fresh p parent now
  ]
