-- ===== src/Sae/Consensus/Tests.antt =====
-- The acceptance of a block that settles its parent.
use strevm.Base.{
  Error, ℕ, ◌∷◌, ◌==◌, List, ◌≡◌, false, Option, [], if◌then◌else◌, refl, ok, err, panic, some,
  none,
}
use strevm.GasTime.Tests.{hooks, linear_price}
use strevm.Blocks.{Memory, Block}
use strevm.Blocks.Settlement.{
  settles, range, collect, parent_block, last_settled_of, ancestor_of, mark_settled_at,
  mark_settled,
}
use strevm.Blocks.Settlement.Tests.{three_blocks}
use strevm.Blocks.Execution.Tests.{tables, disk}
use strevm.WorstCase.Tests.{db, chain}
use strevm.SaeExec.{enqueue}
use strevm.SaeExec.Tests.{evm}
use strevm.Sae.Consensus.{
  Vm, mark_all, forget, accept_block, accept_after, accept_written, accept_settled, accept_queued,
  finalized_hash,
}
use strevm.Sae.Consensus.Accepted.{accept_block-IsAccepted, IsAccepted}

-- The third block settles the second.
abbrev memory : Memory
memory = record three_blocks {
  block = λ p.
      if p == 2
      then record (three_blocks.block 2) {
        ancestry = some (record { parent = some 1; last_settled = some 1 });
      }
      else three_blocks.block p;
}

abbrev vm : Vm db chain evm linear_price hooks tables
vm = record {
  executor = record { disk = disk; memory = memory; queue = []; done = false };
  last_accepted = some 1;
  preference = some 2;
  consensus_critical = (1, 0) ∷ (2, 1) ∷ (3, 2) ∷ [];
  bootstrapping = false;
}

abbrev write_accepted : tables.Disk → Option ℕ → Block → tables.Disk × Option Error
write_accepted d finalized b = (d, none)

abbrev accepted : Vm db chain evm linear_price hooks tables
accepted = elim (accept_block db chain evm linear_price hooks tables write_accepted false vm 2) [
  | ok (v, why) ↦ v
  | err why ↦ vm
  | panic ↦ vm
]

accepted_run :
    accept_block db chain evm linear_price hooks tables write_accepted false vm 2
    ≡ ok (accepted, none)
unfolding accept_block accept_after accept_written accept_settled accept_queued finalized_hash
    mark_all forget settles range collect parent_block last_settled_of ancestor_of mark_settled_at
    mark_settled enqueue
accepted_run = refl

-- The first block is forgotten, and the second stays.
accepted_critical : accepted.consensus_critical ≡ (2, 1) ∷ (3, 2) ∷ []
unfolding accept_block accept_after accept_written accept_settled accept_queued finalized_hash
    mark_all forget settles range collect parent_block last_settled_of ancestor_of mark_settled_at
    mark_settled enqueue
accepted_critical = refl

accept_block-IsAccepted_example :
    (settled : List ℕ) × (last : ℕ) × (settles vm.executor.memory 2 ≡ ok settled)
    × IsAccepted db chain evm linear_price hooks tables vm accepted 2 settled last
accept_block-IsAccepted_example =
    accept_block-IsAccepted db chain evm linear_price hooks tables write_accepted false vm accepted
      2 accepted_run
