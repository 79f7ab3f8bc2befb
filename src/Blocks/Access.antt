-- ===== src/Blocks/Access.antt =====
-- blocks/access.go: how a number or a hash of the JSON-RPC resolves to a block. The chain is an interface
-- to the frontier, the blocks in consensus and the database.
pub mod Resolved
mod Tests
use strevm.Base.{
  ◌>>=◌, not, ◌==◌, ◌&&◌, ltb, Bool, if◌then◌else◌, Option, Outcome, ℕ, future_block_not_resolved,
  block_unsupported, both_number_and_hash, neither_number_nor_hash, non_canonical_block, not_found,
  empty_block_hash, named_blocks_not_supported, ok, err, some, none,
}
use strevm.Blocks.{Block}

-- `rpc.BlockNumber`, by the constants of libevm; `negative` is any other negative number.
pub data BlockNumber : Type 0 where
  pending latest safe finalized negative : BlockNumber
  explicit : ℕ → BlockNumber

-- `Chain`: the heights of its frontier, and what it reads.
pub record Chain : Type 0 where
  pub last_accepted : ℕ
  pub last_executed : ℕ
  pub last_settled : ℕ
  pub consensus_critical_block : ℕ → Option Block
  pub read_canonical_hash : ℕ → ℕ
  pub read_header_number : ℕ → Option ℕ

-- `ResolveRPCNumber`
unfoldable pub resolve_rpc_number : Chain → BlockNumber → Outcome ℕ
resolve_rpc_number c pending = ok c.last_accepted
resolve_rpc_number c latest = ok c.last_executed
resolve_rpc_number c safe = ok c.last_settled
resolve_rpc_number c finalized = ok c.last_settled
resolve_rpc_number c negative = err block_unsupported
resolve_rpc_number c (explicit n) =
    if ltb c.last_accepted n then err future_block_not_resolved else ok n

-- The branch of `ResolveRPCNumberOrHash` for a hash.
resolve_hash : Chain → ℕ → Bool → Outcome (ℕ × ℕ)
resolve_hash c hash require_canonical = elim (c.consensus_critical_block hash) [
  | some b ↦
      let n = b.header.number in
      if require_canonical && not (hash == c.read_canonical_hash n)
      then err non_canonical_block
      else ok (n, hash)
  | none ↦ elim (c.read_header_number hash) [ none ↦ err not_found | some n ↦ ok (n, hash) ]
]

-- `ResolveRPCNumberOrHash`
unfoldable pub resolve_rpc_number_or_hash :
    Chain → Option BlockNumber → Option ℕ → Bool → Outcome (ℕ × ℕ)
unfolding resolve_hash resolve_rpc_number
resolve_rpc_number_or_hash c (some bn) (some hash) require_canonical = err both_number_and_hash
resolve_rpc_number_or_hash c (some bn) none require_canonical = do
  n ← resolve_rpc_number c bn
  ok (n, c.read_canonical_hash n)
resolve_rpc_number_or_hash c none (some hash) require_canonical =
    resolve_hash c hash require_canonical
resolve_rpc_number_or_hash c none none require_canonical = err neither_number_nor_hash

module _ {ℓ} {A : Type ℓ} (c : Chain) (from_db : ℕ → ℕ → Outcome (Option A)) where
  -- `FromNumber`; a nil pointer that is returned is `none`.
  pub from_number : BlockNumber → Outcome (Option A)
  unfolding resolve_rpc_number
  from_number bn = do n ← resolve_rpc_number c bn; from_db (c.read_canonical_hash n) n

  module _ (from_consensus : Block → Option A) where
    -- `FromHash`
    unfoldable pub from_hash : ℕ → Bool → Outcome (Option A)
    from_hash hash require_canonical = elim (c.consensus_critical_block hash) [
      | some b ↦
          if require_canonical && not (hash == c.read_canonical_hash b.header.number)
          then err non_canonical_block
          else ok (from_consensus b)
      | none ↦ elim (c.read_header_number hash) [ none ↦ err not_found | some n ↦ from_db hash n ]
    ]

    -- `FromNumberOrHash`
    pub from_number_or_hash : Option BlockNumber → Option ℕ → Bool → Outcome (Option A)
    unfolding resolve_rpc_number_or_hash
    from_number_or_hash bn hash require_canonical = do
      (n, h) ← resolve_rpc_number_or_hash c bn hash require_canonical
      elim (c.consensus_critical_block h) [ some b ↦ ok (from_consensus b) | none ↦ from_db h n ]

    -- `FromNumberAndHash`; the hash that is empty is zero.
    pub from_number_and_hash : ℕ → BlockNumber → Outcome (Option A)
    from_number_and_hash hash (explicit n) =
        if hash == 0 then err empty_block_hash else elim (c.consensus_critical_block hash) [
          | some b ↦ if not (b.header.number == n) then err not_found else ok (from_consensus b)
          | none ↦ from_db hash n
        ]
    from_number_and_hash hash named =
        if hash == 0 then err empty_block_hash else err named_blocks_not_supported
