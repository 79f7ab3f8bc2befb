-- ===== src/Blocks/Settlement/Tests.antt =====
-- A chain of three blocks: the first is settled, the second executed, the third being executed.
use strevm.ProxyTime.Convert.{in_nanoseconds}
use strevm.ProxyTime.{Instant}
use strevm.Hook.{Header, Points}
use strevm.Blocks.Chain.{Linked, IsChain}
use strevm.Blocks.{Ancestry, height, Memory, Block}
use strevm.Base.{
  refl, ◌-◌, inr, ◌+◌, sym, arith, ap, ok, ==_iff, ◌≡◌, inl, List, ◌==◌, [], true, Bool, Bool-cases,
  if◌then◌else◌, some, none, false, ℕ,
}
use strevm.Blocks.Settlement.Chosen.{IsLastToSettle}
use strevm.Blocks.Settlement.LastToSettle.{last_to_settle_at_lem}
use strevm.Blocks.Settlement.Range.{count_up, range_lem}
use mathlib.Core.Option.{some-injective}
use mathlib.Core.List.{reverse, map}
use strevm.ProxyTime
use strevm.Blocks.Settlement.{range, last_to_settle_at, parent_block, is_settled, ancestor_of}
use strevm.GasTime

abbrev header : ℕ → ℕ → Header
header n t = record { parent_hash = n; number = n; time = t; root = 0; gas_limit = 0; base_fee = 0 }

abbrev gas_clock : ProxyTime.Time → GasTime.Time
gas_clock tm = record {
  time = tm;
  target = 4;
  excess = 20;
  config = record { target_to_excess_scaling = 87; min_price = 1; static_pricing = false };
}

abbrev first : Block
first = record {
  header = header 0 8;
  hash = 1;
  ancestry = none;
  synchronous = true;
  bounds = none;
  execution = none;
  interim_execution_time = none;
  executed = true;
  settled = true;
}

abbrev second : Block
second = record {
  header = header 1 9;
  hash = 2;
  ancestry = some (record { parent = some 0; last_settled = some 0 });
  synchronous = false;
  bounds = none;
  execution = some (record {
    by_gas = gas_clock (record { seconds = 9; fraction = 3; hertz = 8 });
    base_fee = 1;
    receipt_root = 0;
    state_root_post = 0;
    receipts = [];
  });
  interim_execution_time = none;
  executed = true;
  settled = false;
}

abbrev third : Block
third = record {
  header = header 2 10;
  hash = 3;
  ancestry = some (record { parent = some 1; last_settled = some 0 });
  synchronous = false;
  bounds = none;
  execution = none;
  interim_execution_time = some (record { seconds = 12; fraction = 3; hertz = 8 });
  executed = false;
  settled = false;
}

abbrev pub three_blocks : Memory
three_blocks = record {
  block = λ p. if p == 2 then third else (if p == 1 then second else first);
  last_settled = some 0;
  last_executed = some 1;
}

pub three_blocks-IsChain : IsChain three_blocks
three_blocks-IsChain = record {
  linked = λ p a. elim (Bool-cases (p == 2)) [
    | inl e ↦
        rw ((==_iff p 2).0 e)
          (λ at. (1, ap (λ (x : Ancestry). x.parent) (sym (some-injective _ _ at)), refl))
    | inr ne ↦ rw ne (elim (Bool-cases (p == 1)) [
      | inl e ↦
          rw ((==_iff p 1).0 e)
            (λ at. (0, ap (λ (x : Ancestry). x.parent) (sym (some-injective _ _ at)), refl))
      | inr other ↦ rw other (λ at. ground arith)
    ])
  ];
}

abbrev hooks : Points
hooks = record {
  gas_config_after =
      λ h. (4, record { target_to_excess_scaling = 87; min_price = 1; static_pricing = false });
  sub_second_block_time = λ h. 0;
  settled_height = λ h. 0;
}

abbrev settle_at : Instant
settle_at = record { unix = 11; nanosecond = 500_000_000 }

last_to_settle_at_lem_example :
    (b : ℕ) × (known : Bool) × (last_to_settle_at hooks three_blocks settle_at 2
      ≡ some (ok (if known then (some b, true) else (none, false))))
    × IsLastToSettle hooks three_blocks settle_at (in_nanoseconds settle_at) 2 b true known
last_to_settle_at_lem_example =
    last_to_settle_at_lem hooks three_blocks settle_at 2 (three_blocks-IsChain) (omega arith)
      (omega arith)

range_lem_example :
    (chain : List ℕ) × (range three_blocks 0 2 ≡ ok chain)
    × (map (height three_blocks) chain
        ≡ count_up (height three_blocks 0 + 1) (height three_blocks 2 - height three_blocks 0))
    × Linked three_blocks (some 2) (reverse chain)
unfolding is_settled parent_block ancestor_of
range_lem_example = range_lem three_blocks 0 2 (three_blocks-IsChain) (refl, (refl, tt))
