-- ===== src/GasPrice/History.antt =====
-- FeeHistory of gasprice/estimator.go and tipPercentiles of gasprice/block_cache.go. A float64 is an
-- interface to its comparisons and to the two roundings that are made.
pub mod Percentiles
pub mod Range
pub mod Asked
use strevm.Blocks.Access.{BlockNumber}
use strevm.IntMath.{bounded_subtract}
use strevm.Base.{
  pos, sub_u64, panic, history_depth_exhausted, min, Error, missing_block, ◌==◌, bad_percentile,
  err, length, ◌||◌, none, [], add_u64, fail_if, ok, some, ℤ, ltb, Outcome, false, List, Option, ℕ,
  Bool, ◌>>=◌, ◌>>◌, if◌then◌else◌, zero, suc, ◌+◌, ◌∷◌,
}
use strevm.GasTime
use strevm.Blocks
use strevm.WorstCase
use mathlib.Core.List.{map}
use strevm.GasPrice.{get_block, Config, Backend, LruCache, Block, Transaction}

-- The base fee after the last accepted block: its bound by the worst case, or that of the block itself.
pub latest_fee : (ℕ → ℕ → ℕ → ℕ) → Blocks.Block → ℕ
latest_fee calculate_price b = elim b.bounds [
  | none ↦ b.header.base_fee
  | some bounds ↦ GasTime.base_fee calculate_price bounds.latest_end_time
]

-- The base fee of a block that is read, if it is there.
pub fee_of : Option Block → Outcome ℕ
fee_of none = err missing_block
fee_of (some b) = ok b.base_fee

-- The number of blocks that are processed.
pub block_count : Config → ℕ → ℕ → ℕ
block_count c blocks last = min blocks (min c.history_max_blocks (add_u64 last 1))

-- float64, with `uint64(float64(gasUsed) * p / 100)` and `float64(gasUsed) / float64(gasLimit)`.
pub record Floats : Type 1 where
  pub Float : Type 0
  pub less : Float → Float → Bool
  pub at_most : Float → Float → Bool
  pub of_u64 : ℕ → Float
  pub threshold : ℕ → Float → ℕ
  pub ratio : ℕ → ℕ → Float

-- `maxPercentiles`
abbrev pub max_percentiles : ℕ
max_percentiles = 100

-- The inner loop of `tipPercentiles`: the transaction at `txIndex`, the sum of the gas up to it, and
-- the transactions behind it.
pub reach : ℕ → Transaction → ℕ → List Transaction → Transaction × ℕ × List Transaction
reach threshold tx sum_gas [] = (tx, sum_gas, [])
reach threshold tx sum_gas (next ∷ rest) =
    if ltb sum_gas threshold
    then reach threshold next (add_u64 sum_gas next.gas) rest
    else (tx, sum_gas, next ∷ rest)

module _ (floats : Floats) where
  -- The test that a percentile is not above the one before it.
  unfoldable pub misordered : Option floats.Float → floats.Float → Bool
  misordered none p = false
  misordered (some before) p = floats.at_most p before

  -- The loop of `validatePercentiles`, with the percentile before.
  unfoldable pub check_percentiles : Option floats.Float → List floats.Float → Outcome (Unit {0})
  unfolding misordered
  check_percentiles before [] = ok tt
  check_percentiles before (p ∷ rest) = do
    fail_if (floats.less p (floats.of_u64 0) || floats.less (floats.of_u64 100) p) bad_percentile
    fail_if (misordered before p) bad_percentile
    check_percentiles (some p) rest

  unfoldable pub validate_percentiles : List floats.Float → Outcome (Unit {0})
  unfolding check_percentiles
  validate_percentiles percentiles = do
    fail_if (ltb max_percentiles (length percentiles)) bad_percentile
    check_percentiles none percentiles

  -- The loop over the percentiles.
  pub tips_at : ℕ → List floats.Float → Transaction × ℕ × List Transaction → List ℤ
  unfolding reach
  tips_at gas_used [] at = []
  tips_at gas_used (p ∷ ps) (tx, sum_gas, rest) =
      let found = reach (floats.threshold gas_used p) tx sum_gas rest in
      found.0.tip ∷ tips_at gas_used ps found

  pub tip_percentiles_of : ℕ → List Transaction → List floats.Float → List ℤ
  unfolding tips_at
  tip_percentiles_of gas_used [] percentiles = map (λ (p : floats.Float). pos 0) percentiles
  tip_percentiles_of gas_used (tx ∷ rest) percentiles =
      tips_at gas_used percentiles (tx, tx.gas, rest)

  -- `tipPercentiles`
  pub tip_percentiles : Block → List floats.Float → List ℤ
  unfolding tip_percentiles_of
  tip_percentiles b percentiles = tip_percentiles_of b.gas_used b.txs percentiles

  -- What `FeeHistory` returns; a slice that stays nil is empty.
  pub record FeeHistory : Type 0 where
    pub lowest_height : ℕ
    pub rewards : List (List ℤ)
    pub base_fees : List ℕ
    pub portion_full : List floats.Float

  -- What the loop of `FeeHistory` adds for a block; without percentiles there are no rewards.
  pub add_block : List floats.Float → Block → FeeHistory → FeeHistory
  unfolding tip_percentiles
  add_block percentiles b later = record later {
    rewards = elim percentiles [ [] ↦ [] | p ∷ ps ↦ tip_percentiles b (p ∷ ps) ∷ later.rewards ];
    base_fees = b.base_fee ∷ later.base_fees;
    portion_full = floats.ratio b.gas_used b.gas_limit ∷ later.portion_full;
  }

  module _ (effective_gas_tip_value : WorstCase.Transaction → ℕ → ℤ)
      (sort : List Transaction → List Transaction) (lru : LruCache) where
    -- The end of `FeeHistory`: the base fee of the block after the last one.
    pub fee_after : Backend → (ℕ → ℕ → ℕ → ℕ) → ℕ → lru.Carrier → lru.Carrier × Outcome ℕ
    unfolding fee_of latest_fee
    fee_after backend calculate_price last cache =
        if last == backend.last_accepted_block.header.number
        then (cache, ok (latest_fee calculate_price backend.last_accepted_block))
        else (let (left, next) =
              get_block effective_gas_tip_value sort lru backend cache (add_u64 last 1) in
            (left, fee_of next))

    -- The body of the loop, on what `ctx.Err()` says and the block that is read.
    pub after_history_block :
        List floats.Float
        → (lru.Carrier → lru.Carrier × Outcome FeeHistory)
        → lru.Carrier × Option Block
        → lru.Carrier × Outcome FeeHistory
    unfolding add_block
    after_history_block percentiles next (cache, none) = (cache, err missing_block)
    after_history_block percentiles next (cache, some b) =
        let (left, later) = next cache in
        (left, later >>= λ history. ok (add_block percentiles b history))

    -- The loop from the n-th block on, for as many rounds as are left, and the end of `FeeHistory`;
    -- `cancelled` is what `ctx.Err()` says before a block is read.
    pub history_from :
        Backend
        → (ℕ → ℕ → ℕ → ℕ)
        → (ℕ → Option Error)
        → List floats.Float
        → ℕ
        → ℕ
        → ℕ
        → lru.Carrier
        → lru.Carrier × Outcome FeeHistory
    unfolding fee_after after_history_block
    history_from backend calculate_price cancelled percentiles last zero n cache =
        let (left, fee) = fee_after backend calculate_price last cache in
        (
          left,
          fee >>= λ next. ok (record {
            lowest_height = n;
            rewards = [];
            base_fees = next ∷ [];
            portion_full = [];
          }),
        )
    history_from backend calculate_price cancelled percentiles last (suc rounds) n cache =
        elim (cancelled n) [
          | some why ↦ (cache, err why)
          | none ↦
              after_history_block percentiles
                (history_from backend calculate_price cancelled percentiles last rounds (n + 1))
                (get_block effective_gas_tip_value sort lru backend cache n)
        ]

    -- `FeeHistory` from the resolved number on.
    pub resolved_history :
        Backend
        → (ℕ → ℕ → ℕ → ℕ)
        → (ℕ → Option Error)
        → Config
        → lru.Carrier
        → ℕ
        → List floats.Float
        → ℕ
        → lru.Carrier × Outcome FeeHistory
    unfolding block_count history_from
    resolved_history backend calculate_price cancelled c cache blocks percentiles last =
        if ltb last (
          bounded_subtract 64 backend.last_accepted_block.header.number
            c.history_max_blocks_from_head 0)
        then (cache, err history_depth_exhausted)
        else (let count = block_count c blocks last in
            if count == 0
            then (
              cache,
              ok (record { lowest_height = 0; rewards = []; base_fees = []; portion_full = [] }),
            )
            else (let first = sub_u64 (add_u64 last 1) count in
                let (left, made) =
                  history_from backend calculate_price cancelled percentiles last count first
                    cache in
                (left, made >>= λ h. ok (record h { lowest_height = first }))))

    -- `FeeHistory`, with the cache that it leaves.
    pub fee_history :
        Backend
        → (ℕ → ℕ → ℕ → ℕ)
        → (ℕ → Option Error)
        → Config
        → lru.Carrier
        → ℕ
        → BlockNumber
        → List floats.Float
        → lru.Carrier × Outcome FeeHistory
    unfolding validate_percentiles resolved_history
    fee_history backend calculate_price cancelled c cache blocks last_block percentiles =
        elim (validate_percentiles percentiles) [
          | err why ↦ (cache, err why)
          | panic ↦ (cache, panic)
          | ok _ ↦ elim (backend.resolve_block_number last_block) [
            | err why ↦ (cache, err why)
            | panic ↦ (cache, panic)
            | ok last ↦
                resolved_history backend calculate_price cancelled c cache blocks percentiles last
          ]
        ]
