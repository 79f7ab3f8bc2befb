-- ===== src/Sae/Restart.antt =====
-- executeAllAccepted of sae/recovery.go. The executor runs once all blocks are in its queue: what is put
-- there does not depend on what it does. The hashes that canonicalAfter reads are a list of heights, and
-- the blocks that it makes are left at fresh pointers.
use strevm.Base.{
  refl, ltb-eq-false, inr, inl, Option-cases, arith, ◌≤◌, ◌≡◌, Bool, Outcome, Option, List, [], ◌∷◌,
  ok, err, some, none, ℕ, zero, suc, ◌+◌, ◌-◌, ltb, if◌then◌else◌, ◌>>=◌, external, length,
}
use strevm.Hook.{Points}
use strevm.Hook.Ops.{StateDb}
use strevm.Blocks.{Memory, height}
use strevm.Blocks.Settlement.{parent_block}
use strevm.Blocks.Execution.{Database}
use strevm.WorstCase.{Chain, deref}
use strevm.SaeExec.{Evm, Executor, enqueue, process_queue}
use strevm.Sae.Access.{EthBlock}
use strevm.Sae.Recovery.{new_canonical_block}

-- The loop that ends `executeAllAccepted`: the roots that are untracked, from the block `p` down, for so many
-- rounds.
untracked : ℕ → Memory → ℕ → ℕ → ℕ → Outcome (List ℕ)
untracked zero m after keep_from p = ok []
untracked (suc rounds) m after keep_from p =
    if ltb after (height m p)
    then (do
      parent ← deref (parent_block m p)
      roots ← untracked rounds m after keep_from parent
      if ltb (height m p) keep_from
          then (deref (m.block p).execution >>= λ e. ok (e.state_root_post ∷ roots))
          else ok roots)
    else ok []

module _ (m : Memory) (after keep_from : ℕ)
    (parent_below : (p q : ℕ) → parent_block m p ≡ some q → height m q + 1 ≡ height m p) where
  untracked-low : (rounds p : ℕ) → height m p ≤ after → untracked rounds m after keep_from p ≡ ok []
  unfolding untracked
  untracked-low zero p low = refl
  untracked-low (suc rounds) p low = rw (ltb-eq-false after (height m p) (omega arith)) refl

  -- The heights between two blocks are enough rounds: more of them do not change the roots.
  untracked-enough :
      (rounds more p : ℕ)
      → height m p ≤ after + rounds
      → rounds ≤ more
      → untracked more m after keep_from p ≡ untracked rounds m after keep_from p
  unfolding untracked
  untracked-enough zero more p low le = untracked-low more p (omega arith)
  untracked-enough (suc rounds) zero p low le = ground arith
  untracked-enough (suc rounds) (suc more) p low le = elim (Option-cases (parent_block m p)) [
    | inl missing ↦ rw (missing, untracked) refl
    | inr (q, found) ↦
        rw (found, untracked)
          (rw (untracked-enough rounds more q (omega (arith, parent_below p q found)) (omega arith))
            refl)
  ]

module _ (db : StateDb) (chain : Chain db) (evm : Evm db) (calculate_price : ℕ → ℕ → ℕ → ℕ)
    (hooks : Points) (store_db : Database) (read_block : store_db.Disk → ℕ → ℕ → Option EthBlock)
    (read_canonical_hash : store_db.Disk → ℕ → ℕ) (last_synchronous : ℕ) (takes_done : Bool) where
  abbrev State : Type 0
  State = Executor db chain evm calculate_price hooks store_db

  -- The loop over `canonicalAfter`, whose blocks are enqueued, from the block `last` and the next fresh pointer on.
  enqueue_canonical : List ℕ → State → ℕ → ℕ → Outcome (State × ℕ)
  enqueue_canonical [] e next last = ok (e, last)
  enqueue_canonical (num ∷ rest) e next last = do
    m ←
        new_canonical_block store_db hooks read_block read_canonical_hash last_synchronous e.disk
          e.memory next num (some last)
    let (e', why) =
        enqueue db chain evm calculate_price hooks store_db takes_done (record e { memory = m })
          next
    elim why [ some x ↦ err x | none ↦ enqueue_canonical rest e' (next + 1) next ]

  -- What follows the executions; the wait for one that has failed ends with the context.
  untrack_executed : Memory → ℕ → ℕ → Outcome (List ℕ)
  unfolding untracked
  untrack_executed m after last =
      let b = m.block last in
      if b.executed
      then untracked (height m last - height m after) m (height m after)
          (hooks.settled_height b.header) last
      else err (external 0)

  -- `executeAllAccepted`, with the roots that it untracks.
  pub execute_all_accepted : List ℕ → State → ℕ → Outcome (State × List ℕ)
  unfolding enqueue_canonical untrack_executed
  execute_all_accepted nums e next = do
    after ← deref e.memory.last_executed
    (queued, last) ← enqueue_canonical nums e next after
    ran ← process_queue db chain evm calculate_price hooks store_db (length queued.queue) queued
    untrack_executed ran.memory after last >>= λ roots. ok (ran, roots)
