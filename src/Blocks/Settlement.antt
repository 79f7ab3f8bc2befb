-- ===== src/Blocks/Settlement.antt =====
-- blocks/settlement.go and blocks/time.go: marking a block as settled, the blocks that one settles,
-- and the choice of the last block to settle. Concurrent readers are left out: `last_to_settle_at`
-- reads one state of the memory.
pub mod Parents
pub mod Range
pub mod Chosen
pub mod LastToSettle
pub mod Tests
use strevm.Base.{
  ◌%◌, ◌^◌, ◌+◌, ℕ, zero, suc, ◌-◌, Bool, true, false, Option, none, some, List, [], ◌∷◌, Outcome,
  ok, err, panic, ◌>>=◌, leb, if◌then◌else◌, compare, Ordering, block_resettled,
  nil_last_settled_pointer, incomplete_block_history,
}
use mathlib.Core.List.{reverse}
use strevm.ProxyTime
use strevm.ProxyTime.{Instant, compare_time}
use strevm.GasTime.{safe_rate_of_target, sub_second}
use strevm.Hook.{Header, Points}
use strevm.Blocks.{Memory, Block, Ancestry, height, store}

-- `PreciseTime`; the word of the time is that of `int64(hdr.Time)`.
unfoldable pub precise_time : Points → Header → Instant
precise_time hooks hdr = record { unix = hdr.time; nanosecond = hooks.sub_second_block_time hdr }

-- `GasTime`
pub gas_time : Points → Header → Header → Outcome ProxyTime.Time
gas_time hooks hdr parent = do
  let rate = safe_rate_of_target (hooks.gas_config_after parent).0
  frac ← sub_second hooks hdr rate
  ProxyTime.tick (ProxyTime.new hdr.time rate) frac

-- The int64 of a word, with 2 ^ 63 added, which keeps the order of the signed numbers.
abbrev pub signed : ℕ → ℕ
signed w = (w + 2 ^ 63) % 2 ^ 64

-- `time.Time.Compare(…) > 0` of the Go library.
abbrev pub instant_after : Instant → Instant → Bool
instant_after a b = elim (compare (signed a.unix) (signed b.unix)) [
  | Ordering.gt ↦ true
  | Ordering.lt ↦ false
  | Ordering.eq ↦ elim (compare a.nanosecond b.nanosecond) [ Ordering.gt ↦ true | _ ↦ false ]
]

-- `Compare(…) > 0`
abbrev pub is_gt : Ordering → Bool
is_gt Ordering.gt = true
is_gt Ordering.lt = false
is_gt Ordering.eq = false

abbrev pub is_none {ℓ} : {A : Type ℓ} → Option A → Bool
is_none none = true
is_none (some a) = false

-- `Settled`
unfoldable pub is_settled : Memory → ℕ → Bool
is_settled m p = is_none (m.block p).ancestry

-- `markSettled`; closing a channel twice panics. `to_pointer` says that the argument is not nil.
unfoldable pub mark_settled : Memory → ℕ → Bool → Outcome Memory
mark_settled m p to_pointer =
    let b = m.block p in
    elim b.ancestry [
      | none ↦ err block_resettled
      | some a ↦
          if b.settled
          then panic
          else ok (record (store m p (record b { ancestry = none; settled = true })) {
            last_settled = if to_pointer then some p else m.last_settled;
          })
    ]

-- `MarkSettled`
unfoldable pub mark_settled_at : Memory → ℕ → Bool → Outcome Memory
unfolding mark_settled
mark_settled_at m p to_pointer =
    if to_pointer then mark_settled m p true else err nil_last_settled_pointer

-- `ancestor`
unfoldable pub ancestor_of : (Ancestry → Option ℕ) → Option Ancestry → Option ℕ
ancestor_of get none = none
ancestor_of get (some a) = get a

unfoldable pub parent_block : Memory → ℕ → Option ℕ
unfolding ancestor_of
parent_block m p = ancestor_of (λ a. a.parent) (m.block p).ancestry

-- `LastSettled`
unfoldable pub last_settled_of : Memory → ℕ → Option ℕ
unfolding ancestor_of
last_settled_of m p =
    if (m.block p).synchronous
    then some p
    else ancestor_of (λ a. a.last_settled) (m.block p).ancestry

-- The loop of `Range`: `n` blocks from `b` up the chain. A nil block panics when its parent is read.
unfoldable pub collect : Memory → ℕ → Option ℕ → Outcome (List ℕ)
collect m zero b = ok []
collect m (suc n) none = panic
collect m (suc n) (some p) = do chain ← collect m n (parent_block m p); ok (p ∷ chain)

-- `Range`, for pointers that are not nil.
unfoldable pub range : Memory → ℕ → ℕ → Outcome (List ℕ)
unfolding collect parent_block
range m start end =
    let chain = collect m (height m end - height m start) (some end) in
    if leb (height m end) (height m start) then ok [] else (chain >>= λ c. ok (reverse c))

-- `Settles`; a nil pointer panics.
unfoldable pub settles : Memory → ℕ → Outcome (List ℕ)
unfolding range last_settled_of
settles m p = if (m.block p).synchronous then ok (p ∷ []) else elim (parent_block m p) [
  | none ↦ panic
  | some parent ↦ elim (last_settled_of m parent) [
    | none ↦ panic
    | some start ↦ elim (last_settled_of m p) [ none ↦ panic | some end ↦ range m start end ]
  ]
]

-- What the loop of `LastToSettleAt` makes of one block: it is settled already, it starts or ends
-- too late, it has ended in time, or its end is not known.
pub data Verdict : Type 0 where
  already late done unknown : Verdict

module _ (hooks : Points) (m : Memory) (settle_at : Instant)
    (settle_at_gas_time : ProxyTime.Time) where
  -- The end of the body, from the interim execution time on.
  judge_execution : Block → Verdict
  judge_execution b = elim b.execution [
    | none ↦ unknown
    | some e ↦ if is_gt (compare_time e.by_gas.time settle_at_gas_time) then late else done
  ]

  interim_after : Option ProxyTime.Time → Bool
  interim_after none = false
  interim_after (some t) = is_gt (compare_time t settle_at_gas_time)

  pub judge : ℕ → Verdict
  judge p =
      let b = m.block p in
      if is_settled m p
      then already
      else if instant_after (precise_time hooks b.header) settle_at
      then late
      else if interim_after b.interim_execution_time
      then late
      else judge_execution b

  -- The loop, on fuel; `none` means that the fuel ran out.
  pub settle_loop : ℕ → Option ℕ → Bool → Option (Outcome (Option ℕ × Bool))
  settle_loop zero block known = none
  settle_loop (suc fuel) none known = some (err incomplete_block_history)
  settle_loop (suc fuel) (some p) known = elim (judge p) [
    | already ↦ some (ok (some p, known))
    | done ↦ some (ok (some p, known))
    | late ↦ settle_loop fuel (parent_block m p) true
    | unknown ↦ settle_loop fuel (parent_block m p) false
  ]

-- The deferred function: without `ok` the block is nil.
abbrev pub clear_unless_ok : Option ℕ × Bool → Option ℕ × Bool
clear_unless_ok (b, true) = (b, true)
clear_unless_ok (b, false) = (none, false)

abbrev pub deferred : Option (Outcome (Option ℕ × Bool)) → Option (Outcome (Option ℕ × Bool))
deferred none = none
deferred (some (ok r)) = some (ok (clear_unless_ok r))
deferred (some (err e)) = some (err e)
deferred (some panic) = some panic

-- `LastToSettleAt`. Heights fall by one with each round, which bounds their number.
pub last_to_settle_at : Points → Memory → Instant → ℕ → Option (Outcome (Option ℕ × Bool))
last_to_settle_at hooks m settle_at parent = elim (ProxyTime.of settle_at) [
  | ok gas ↦ deferred (settle_loop hooks m settle_at gas (height m parent + 2) (some parent) true)
  | err e ↦ some (err e)
  | panic ↦ some panic
]
