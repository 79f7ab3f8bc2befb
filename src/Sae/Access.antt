-- ===== src/Sae/Access.antt =====
-- sae/blocks.go: how the machine parses a block and finds one, by its hash or its height. Reading a block
-- of the database, and decoding one, are parameters; each leaves the header and the hash of a libevm
-- block. A block that is found is a value.
pub mod Found
mod Tests
use strevm.Sae.Builder.{max_future_block_seconds}
use strevm.Blocks.LifeCycle.{mark_synchronous, restore_settled_block}
use strevm.WorstCase.{deref}
use strevm.ProxyTime.{Instant}
use strevm.Blocks.Execution.{Database}
use strevm.Hook.{Points, Header}
use strevm.Base.{
  block_too_far_in_future, add_u64, block_height_not_uint64, non_canonical_block,
  future_block_not_resolved, not_found, u64_mod, none, false, fail_if, database_not_found, ok,
  panic, some, true, external, err, Bool, Option, Error, Outcome, ℕ, ◌>>=◌, ◌>>◌, ◌==◌, ltb, leb,
  if◌then◌else◌,
}
use strevm.Blocks.Access.{Chain, from_hash}
use strevm.Blocks.{Memory, Block, new, height}

-- A block as it is encoded; `number` and the base fee of the header are big integers.
pub record EthBlock : Type 0 where
  pub header : Header
  pub hash : ℕ
  pub receipt_hash : ℕ
  pub base_fee : Option ℕ

-- `ParseBlock`, at a pointer that is fresh and at a time. The text of a decoding error is all that is
-- kept of it.
pub parse_block {ℓ} :
    {Bytes : Type ℓ} → (Bytes → Outcome EthBlock) → Memory → ℕ → Instant → Bytes → Outcome Memory
parse_block decode m fresh now buf = elim (decode buf) [
  | err why ↦ err (external 0)
  | panic ↦ panic
  | ok b ↦ do
    fail_if (leb u64_mod b.header.number) block_height_not_uint64
    fail_if (ltb (add_u64 now.unix max_future_block_seconds) b.header.time) block_too_far_in_future
    new m fresh b.header b.hash none none
]

-- `errors.Is(err, blocks.ErrNotFound)`
abbrev pub is_not_found : Error → Bool
is_not_found not_found = true
is_not_found future_block_not_resolved = true
is_not_found non_canonical_block = true
is_not_found other = false

module _ (db : Database) (hooks : Points) (read_block : db.Disk → ℕ → ℕ → Option EthBlock)
    (last_synchronous excess_after : ℕ) where
  -- A block of the database with what is left on disk and in memory.
  abbrev pub Loaded : Type 0
  Loaded = db.Disk × Memory × Block

  -- A synchronous block, from the result of `MarkSynchronous`.
  synchronous_block : ℕ → db.Disk × Memory × Option Error → Outcome Loaded
  synchronous_block fresh (d, m, some why) = err why
  synchronous_block fresh (d, m, none) = ok (d, m, m.block fresh)

  -- The end of `settledBlockFromDB`; a nil block panics in `New`.
  restored : db.Disk → Memory → ℕ → ℕ → Option EthBlock → Outcome Loaded
  unfolding synchronous_block
  restored d m fresh num none = panic
  restored d m fresh num (some b) =
      if ltb last_synchronous num
      then (restore_settled_block db d m fresh b.header b.hash >>= λ m'. ok (d, m', m'.block fresh))
      else (do
        m' ← new m fresh b.header b.hash none none
        left ← mark_synchronous db hooks d m' fresh b.receipt_hash b.base_fee excess_after
        synchronous_block fresh left)

  -- `settledBlockFromDB`, at a pointer that is fresh.
  pub settled_block_from_db : db.Disk → Memory → ℕ → ℕ → ℕ → Outcome Loaded
  unfolding restored
  settled_block_from_db d m fresh hash num = do
    settled ← deref m.last_settled
    fail_if (ltb (height m settled) num) database_not_found
    restored d m fresh num (read_block d hash num)

  -- What `GetBlock` makes of the results of `FromHash`; nil is `none`.
  found_or_nil : Outcome (Option Loaded) → Outcome (Option Loaded)
  found_or_nil (ok b) = ok b
  found_or_nil panic = panic
  found_or_nil (err why) = if is_not_found why then err database_not_found else ok none

  -- `GetBlock` on the chain of the machine.
  pub get_block : Chain → db.Disk → Memory → ℕ → ℕ → Outcome (Option Loaded)
  unfolding found_or_nil settled_block_from_db
  get_block c d m fresh id = found_or_nil (
      from_hash c
        (λ hash num. settled_block_from_db d m fresh hash num >>= λ loaded. ok (some loaded))
        (λ b. some (d, m, b)) id false)

-- `GetBlockIDAtHeight`; the empty hash is zero.
pub get_block_id_at_height : (ℕ → ℕ) → ℕ → Outcome ℕ
get_block_id_at_height read_canonical_hash height =
    let id = read_canonical_hash height in if id == 0 then err database_not_found else ok id

module _ {ℓ} {A : Type ℓ} (c : Chain) (from_mem : Block → A) (from_db : ℕ → ℕ → Option A) where
  -- `source`
  pub source : ℕ → ℕ → Option A
  source hash num = elim (c.consensus_critical_block hash) [
    | some b ↦ if b.header.number == num then some (from_mem b) else none
    | none ↦ from_db hash num
  ]
