-- ===== src/Sae/Recovery.antt =====
-- sae/recovery.go: after a restart the machine executes the accepted blocks again, and reads the blocks
-- that are critical for consensus from the database. Each block that is read is left at a fresh pointer.
pub mod Kept
pub mod Extended
pub mod Ended
mod Tests
use strevm.Blocks.LifeCycle.{check_invariants}
use strevm.WorstCase.{deref}
use strevm.ProxyTime.{compare_time}
use strevm.Params.{tau_seconds}
use strevm.SaeDb.{last_height_with_execution_root_committed}
use strevm.Hook.{Header, Points}
use strevm.Base.{
  add_u64, no_canonical_block, some, true, err, ok, panic, Bool, none, sub_u64, Option, false,
  Outcome, List, not, ℕ, zero, suc, ◌+◌, ◌>>=◌, ◌>>◌, ◌==◌, ltb, leb, if◌then◌else◌, ◌∷◌, [],
}
use mathlib.Core.List.{map, reverse}
use strevm.SaeDb
use strevm.ProxyTime
use strevm.GasTime
use strevm.Sae.Access.{EthBlock}
use strevm.Blocks.Settlement.{mark_settled, is_settled, is_gt, precise_time}
use strevm.Blocks.Execution.{Database, restore_execution_artefacts}
use strevm.Blocks.LifeCycle.{executed, settled}
use strevm.Blocks.{set_ancestors, ExecutionResults, Memory, Block, new, height}

-- The blocks of `consensusCriticalBlocks` from the last executed one down: `last` is the last of the
-- slice, `before` those in front of it, the nearest one first. `next` is the next fresh pointer.
pub record Critical : Type 0 where
  pub memory : Memory
  pub next : ℕ
  pub last : ℕ
  pub before : List ℕ

-- The time at which the block `settler` settles, in gas.
settle_time : Points → Header → Outcome ProxyTime.Time
settle_time hooks header =
    let at = precise_time hooks header in
    ProxyTime.of (record at { unix = sub_u64 at.unix tau_seconds })

-- `MarkSettled` with a pointer that nothing reads.
pub mark_blackhole : Memory → ℕ → Outcome Memory
mark_blackhole m p = mark_settled m p false

module _ (db : Database) (hooks : Points) (read_block : db.Disk → ℕ → ℕ → Option EthBlock)
    (read_canonical_hash : db.Disk → ℕ → ℕ) (last_synchronous : ℕ) where
  -- `canonicalBlock` of sae/blocks.go
  pub canonical_block : db.Disk → ℕ → Outcome EthBlock
  canonical_block d num = elim (read_block d (read_canonical_hash d num) num) [
    | none ↦ err no_canonical_block
    | some b ↦ ok b
  ]

  -- `newCanonicalBlock`
  pub new_canonical_block : db.Disk → Memory → ℕ → ℕ → Option ℕ → Outcome Memory
  unfolding canonical_block
  new_canonical_block d m fresh num parent = do
    b ← canonical_block d num
    new m fresh b.header b.hash parent none

  -- A canonical block with what it was executed to.
  pub restored_block : db.Disk → Memory → ℕ → ℕ → Outcome Memory
  unfolding new_canonical_block
  restored_block d m fresh num = do
    m' ← new_canonical_block d m fresh num none
    restore_execution_artefacts db d m' fresh

  -- `lastCommittedBlock`
  pub last_committed_block :
      db.Disk → Memory → ℕ → SaeDb.Config → (ℕ → ℕ) → ℕ → Outcome (Memory × ℕ)
  unfolding restored_block
  last_committed_block d m fresh config settled_height head =
      let num =
        last_height_with_execution_root_committed config settled_height head
          (height m last_synchronous) in
      if num == height m last_synchronous
      then ok (m, last_synchronous)
      else (restored_block d m fresh num >>= λ m'. ok (m', fresh))

  -- The last of the blocks is the one that is settled; it is marked once.
  pub settle_last : Critical → Outcome (Critical × Bool)
  unfolding mark_blackhole
  settle_last s =
      if is_settled s.memory s.last
      then ok (s, true)
      else (mark_blackhole s.memory s.last >>= λ m. ok (record s { memory = m }, true))

  -- The parent that was read is marked if the block below which it is put is settled.
  pub settle_parent : Bool → Critical → Outcome (Critical × Bool)
  unfolding mark_blackhole
  settle_parent child_settled s =
      if not child_settled
      then ok (s, false)
      else (mark_blackhole s.memory s.last >>= λ m. ok (record s { memory = m }, false))

  -- The default case of `extend`.
  pub read_parent : db.Disk → Critical → Outcome (Critical × Bool)
  unfolding restored_block settle_parent
  read_parent d s = do
    m ← restored_block d s.memory s.next (sub_u64 (height s.memory s.last) 1)
    settle_parent (is_settled m s.last)
        (record { memory = m; next = s.next + 1; last = s.next; before = s.last ∷ s.before })

  -- A round of the loop of `extend` for a block that is executed at a time; true ends it.
  pub extend_once :
      db.Disk → ProxyTime.Time → Critical → ExecutionResults → Outcome (Critical × Bool)
  unfolding settle_last read_parent
  extend_once d at s e =
      if not (is_gt (compare_time e.by_gas.time at))
      then settle_last s
      else if height s.memory s.last == add_u64 (height s.memory last_synchronous) 1
      then ok (record s { last = last_synchronous; before = s.last ∷ s.before }, false)
      else read_parent d s

  pub extend_step : db.Disk → ProxyTime.Time → Critical → Outcome (Critical × Bool)
  unfolding extend_once
  extend_step d at s =
      if (s.memory.block s.last).synchronous
      then ok (s, true)
      else deref (s.memory.block s.last).execution >>= extend_once d at s

  -- The rounds of `extend`, on fuel.
  pub extend : ℕ → db.Disk → ProxyTime.Time → Critical → Option (Outcome Critical)
  unfolding extend_step
  extend zero d at s = none
  extend (suc rounds) d at s = elim (extend_step d at s) [
    | panic ↦ some panic
    | err why ↦ some (err why)
    | ok (t, done) ↦ elim done [ true ↦ some (ok t) | false ↦ extend rounds d at t ]
  ]

  -- With the fuel that is given it does not run out.
  ended : Option (Outcome Critical) → Outcome Critical
  ended none = panic
  ended (some run) = run

  -- `extend`
  pub extend_for : db.Disk → ℕ → Critical → Outcome Critical
  unfolding settle_time extend ended
  extend_for d settler s = do
    at ← settle_time hooks (s.memory.block settler).header
    ended (extend (height s.memory s.last + 2) d at s)

  -- The loop that sets the ancestors of the blocks, but for those of the last one.
  link : db.Disk → List ℕ → Critical → Outcome Critical
  unfolding extend_for
  link d [] s = ok s
  link d (b ∷ []) s = ok s
  link d (b ∷ (parent ∷ rest)) s = do
    t ← extend_for d b s
    m ← set_ancestors t.memory b (some parent) (some t.last)
    link d (parent ∷ rest) (record t { memory = m })

  -- The loop over the map that checks the invariants.
  check_all : Memory → ℕ → List ℕ → Outcome (Unit {0})
  check_all m last_settled [] = ok tt
  check_all m last_settled (b ∷ rest) = do
    let stage = if (m.block b).hash == (m.block last_settled).hash then settled else executed
    check_invariants db m b stage
    check_all m last_settled rest

  -- `consensusCriticalBlocks`: the memory, the map as a list of hashes and pointers, and the last
  -- settled block. The references that the tracker counts are left out.
  pub consensus_critical_blocks : db.Disk → Memory → ℕ → ℕ → Outcome (Memory × List (ℕ × ℕ) × ℕ)
  unfolding extend_for link check_all
  consensus_critical_blocks d m fresh last_executed = do
    s ←
        extend_for d last_executed
          (record { memory = m; next = fresh; last = last_executed; before = [] })
    let chain = reverse (s.last ∷ s.before)
    t ← link d chain s
    check_all t.memory s.last chain
    ok (t.memory, map (λ b. ((t.memory.block b).hash, b)) chain, s.last)
