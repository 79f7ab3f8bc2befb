-- ===== src/Sae/Rpc/Evicted.antt =====
-- sae/rpc/stateful.go for a block in memory, and for the same block when only the database has it.
use strevm.Hook.{Header}
use strevm.Base.{Outcome, [], Option, ℕ, ◌≡◌, refl, ok, some, none, true}
use strevm.Blocks.{Block, ExecutionResults}
use strevm.Blocks.Access.{
  Chain, BlockNumber, pending, latest, safe, finalized, negative, explicit, resolve_rpc_number,
  resolve_rpc_number_or_hash,
}
use strevm.Blocks.Execution.{Database, load_execution_results}
use strevm.Sae.Rpc.{
  state_and_header, faked_header, with_results, post_execution_state_root, state_at_block,
}

-- A chain that keeps no blocks in memory.
abbrev pub evicted : Chain → Chain
evicted c = record c { consensus_critical_block = λ h. none }

-- A block in memory with its execution, and what the database has of it.
pub record IsStored (db : Database) (c : Chain) (d : db.Disk) (read_header : ℕ → ℕ → Option Header)
    (num hash : ℕ) (b : Block) (e : ExecutionResults) : Type 0 where
  pub critical : c.consensus_critical_block hash ≡ some b
  pub executed : b.execution ≡ some e
  pub header : read_header hash num ≡ some b.header
  pub results : load_execution_results db d num ≡ ok (record e { receipts = [] })

module _ (db : Database) (c : Chain) (d : db.Disk) (read_header : ℕ → ℕ → Option Header)
    (num hash : ℕ) (b : Block) (e : ExecutionResults)
    (stored : IsStored db c d read_header num hash b e) where
  same_header :
      faked_header db c d read_header num hash ≡ faked_header db (evicted c) d read_header num hash
  unfolding faked_header with_results
  same_header =
      rw (stored.critical, faked_header)
        (rw stored.executed (rw stored.header (rw stored.results refl)))

  same_root :
      post_execution_state_root db c d hash num
      ≡ post_execution_state_root db (evicted c) d hash num
  unfolding post_execution_state_root
  same_root =
      rw (stored.critical, post_execution_state_root) (rw stored.executed (rw stored.results refl))

  same_number : (n : BlockNumber) → resolve_rpc_number (evicted c) n ≡ resolve_rpc_number c n
  unfolding resolve_rpc_number
  same_number pending = refl
  same_number latest = refl
  same_number safe = refl
  same_number finalized = refl
  same_number negative = refl
  same_number (explicit k) = refl

  found_by_number :
      (n : BlockNumber)
      → resolve_rpc_number c n ≡ ok num
      → c.read_canonical_hash num ≡ hash
      → (resolve_rpc_number_or_hash c (some n) none true ≡ ok (num, hash))
        × (resolve_rpc_number_or_hash (evicted c) (some n) none true ≡ ok (num, hash))
  unfolding resolve_rpc_number_or_hash
  found_by_number n resolves canonical =
      (rw resolves (rw canonical refl), rw (same_number n) (rw resolves (rw canonical refl)))

  -- For a block that is executed and stored, found by its number, the state and the header are the same when
  -- the block has left the memory; so is the state at the block.
  pub state_and_header-evicted {ℓ} :
      {S : Type ℓ} (open_state : ℕ → Outcome S) (n : BlockNumber)
      → resolve_rpc_number c n ≡ ok num
      → c.read_canonical_hash num ≡ hash
      → (state_and_header db c d open_state read_header (some n) none
          ≡ state_and_header db (evicted c) d open_state read_header (some n) none)
        × (state_at_block db c d open_state hash num
            ≡ state_at_block db (evicted c) d open_state hash num)
  unfolding state_and_header state_at_block
  state_and_header-evicted open_state n resolves canonical =
      let found = found_by_number n resolves canonical in
      (rw found.0 (rw found.1 (rw same_header refl)), rw same_root refl)
