-- ===== src/Blocks/Access/Tests.antt =====
-- A chain of ten blocks, of which seven are executed and four are settled.
use strevm.Base.{
  inr, ==_iff, inl, ◌==◌, Outcome, ◌≤◌, Bool-cases, if◌then◌else◌, ℕ, ◌≡◌, Option, arith, ◌+◌, refl,
  ok, some, none, true,
}
use mathlib.Core.Option.{some-injective}
use strevm.Blocks.{Block}
use strevm.Blocks.Access.{Chain, resolve_hash, resolve_rpc_number_or_hash}
use strevm.Blocks.Access.Resolved.{ChainLaws, resolve_rpc_number_or_hash-canonical}

-- The hash of a canonical block is its height and a hundred.
abbrev chain : Chain
chain = record {
  last_accepted = 9;
  last_executed = 6;
  last_settled = 3;
  consensus_critical_block = λ h. none;
  read_canonical_hash = λ n. n + 100;
  read_header_number = λ h. (if h == 104 then some 4 else none);
}

chain-ChainLaws : ChainLaws chain
chain-ChainLaws = record {
  settled_executed = omega arith;
  executed_accepted = omega arith;
  written = λ h n. elim (Bool-cases (h == 104)) [
    | inl same ↦ rw same (λ found. (
      omega (arith, some-injective _ _ found),
      omega (arith, some-injective _ _ found, (==_iff h 104).0 same),
    ))
    | inr other ↦ rw other (λ found. absurd (ground arith))
  ];
}

abbrev hash : Option ℕ
hash = some 104

fourth : resolve_rpc_number_or_hash chain none hash true ≡ ok (4, 104)
unfolding resolve_rpc_number_or_hash resolve_hash
fourth = refl

resolve_rpc_number_or_hash-canonical_example :
    ((hash ≡ none → (4 ≤ chain.last_accepted) × (chain.read_canonical_hash 4 ≡ 104))
      × (true ≡ true → chain.read_canonical_hash 4 ≡ 104))
resolve_rpc_number_or_hash-canonical_example =
    resolve_rpc_number_or_hash-canonical chain (chain-ChainLaws) none hash true 4 104 fourth

abbrev read : ℕ → ℕ → Outcome (Option ℕ)
read h n = ok (some n)

abbrev height_of : Block → Option ℕ
height_of b = some b.header.number
