-- ===== src/Sae/Recovery/Tests.antt =====
-- Two blocks, of which the lower one is synchronous, and a time before the execution of the upper one.
use strevm.Sae.Recovery.Extended.{IsReady}
use strevm.Base.{
  panic, err, Error, ◌⊎◌, sym, ok, ap, ◌≡◌, arith, ◌+◌, Option, ℕ, refl, some, none, [], inr,
}
use strevm.GasTime.Tests.{hooks}
use strevm.Blocks.Settlement.Tests.{three_blocks}
use strevm.Blocks.Execution.Tests.{tables, disk, Tables}
use strevm.ProxyTime
use strevm.Sae.Access.{EthBlock}
use mathlib.Core.Option.{some-injective}
use strevm.Sae.Recovery.Ended.{extend_lem, IsExtended}
use strevm.Sae.Recovery.{extend, Critical}

abbrev read_block : Tables → ℕ → ℕ → Option EthBlock
read_block d hash num = some (record {
  header = record {
    parent_hash = num;
    number = num;
    time = 8 + num;
    root = 0;
    gas_limit = 0;
    base_fee = 0;
  };
  hash = hash;
  receipt_hash = 0;
  base_fee = none;
})

abbrev canonical_hash : Tables → ℕ → ℕ
canonical_hash d n = n + 1

abbrev at : ProxyTime.Time
at = record { seconds = 8; fraction = 0; hertz = 8 }

abbrev state : Critical
state = record { memory = three_blocks; next = 3; last = 1; before = [] }

state-IsReady : IsReady tables hooks read_block canonical_hash 0 state
state-IsReady = record {
  synchronous = refl;
  there = omega arith;
  fresh = omega arith;
  above = inr (omega arith);
  fits = omega arith;
}

numbered :
    (d : Tables) (n : ℕ) (b : EthBlock)
    → read_block d (canonical_hash d n) n ≡ some b
    → b.header.number ≡ n
numbered d n b found = ap (λ (x : EthBlock). x.header.number) (sym (some-injective _ _ found))

extend_lem_example :
    ((t : Critical) × (extend tables hooks read_block canonical_hash 0 2 disk at state
        ≡ some (ok t))
      × IsExtended tables hooks read_block canonical_hash 0 at state t)
    ⊎ ((why : Error) × (extend tables hooks read_block canonical_hash 0 2 disk at state
          ≡ some (err why)))
    ⊎ (extend tables hooks read_block canonical_hash 0 2 disk at state ≡ some panic)
extend_lem_example =
    extend_lem tables hooks read_block canonical_hash 0 2 disk at state numbered (state-IsReady)
      (omega arith)
