-- ===== src/GasPrice.antt =====
-- gasprice/estimator.go and gasprice/block_cache.go: the tip that is suggested for a transaction, and
-- the blocks that it is computed from. The LRU cache of avalanchego and slices.SortFunc, which does
-- not say where equal elements go, are parameters, and so is EffectiveGasTipValue of libevm.
pub mod History
pub mod Cached
pub mod Sorted
mod Tests
pub mod Calls
pub mod Suggested
pub mod Valid
use strevm.IntMath.{bounded_subtract}
use strevm.Blocks.Access.{BlockNumber}
use strevm.ProxyTime.{Instant}
use strevm.Base.{
  min_tip_exceeds_max, at_most, not, big_max, bad_tip_percentile, big_min, ◌||◌, length, ◌==◌,
  get_elem?, fail_if, ◌>>=◌, ◌>>◌, if◌then◌else◌, zero, suc, ◌-◌, ◌+◌, ◌++◌, ◌∷◌,
  nil_max_suggested_tip, ◌%◌, nil_min_suggested_tip, ◌++◌, u64_mod, nil_now, leb, ◌∷◌, ltb, ◌+◌,
  err, if◌then◌else◌, max, suc, ok, ◌^◌, none, add_u64, [], ◌-◌, some, Outcome, ◌*◌, ◌/◌, List, ℕ,
  Option, ℤ,
}
use strevm.WorstCase
use strevm.WorstCase.{deref}
use mathlib.Core.List.{map}
use strevm.Blocks

-- `Config`; the clock is read at the moment of a call. Durations are in nanoseconds.
pub record Config : Type 0 where
  pub now : Option (ℕ → Instant)
  pub min_suggested_tip : Option ℤ
  pub suggested_tip_percentile : ℕ
  pub max_suggested_tip : Option ℤ
  pub suggested_tip_max_blocks : ℕ
  pub suggested_tip_max_duration : ℕ
  pub history_max_blocks_from_head : ℕ
  pub history_max_blocks : ℕ

-- The last two cases of `validate`.
pub validate_tips : ℕ → ℤ → ℤ → Outcome (Unit {0})
validate_tips percentile min_tip max_tip = do
  fail_if (percentile == 0 || ltb 100 percentile) bad_tip_percentile
  fail_if (not (at_most min_tip max_tip)) min_tip_exceeds_max

pub validate : Config → Outcome (Unit {0})
unfolding validate_tips
validate c = elim c.now [
  | none ↦ err nil_now
  | some now ↦ elim c.min_suggested_tip [
    | none ↦ err nil_min_suggested_tip
    | some min_tip ↦ elim c.max_suggested_tip [
      | none ↦ err nil_max_suggested_tip
      | some max_tip ↦ validate_tips c.suggested_tip_percentile min_tip max_tip
    ]
  ]
]

-- `transaction`
pub record Transaction : Type 0 where
  pub gas : ℕ
  pub tip : ℤ

-- `block`
pub record Block : Type 0 where
  pub timestamp : ℕ
  pub gas_used : ℕ
  pub gas_limit : ℕ
  pub base_fee : ℕ
  pub txs : List Transaction

-- What is read of a block of libevm.
pub record EthBlock : Type 0 where
  pub number : ℕ
  pub time : ℕ
  pub gas_used : ℕ
  pub gas_limit : ℕ
  pub base_fee : Option ℕ
  pub transactions : List WorstCase.Transaction

-- `lru.Cache`; a read moves its entry to the front.
pub record LruCache : Type 1 where
  pub Carrier : Type 0
  pub new_cache : ℕ → Carrier
  pub get : Carrier → ℕ → Carrier × Option Block
  pub put : Carrier → ℕ → Block → Carrier

-- `Backend`, in the state that it has during a call, and the moment of the call.
pub record Backend : Type 0 where
  pub resolve_block_number : BlockNumber → Outcome ℕ
  pub block_by_number : ℕ → Outcome (Option EthBlock)
  pub last_accepted_block : Blocks.Block
  pub moment : ℕ

abbrev pub u64_or : ℕ → Option ℕ → ℕ
u64_or default none = default
u64_or default (some n) = n

-- `uint64(now.Add(-duration).Unix())`: the second is rounded down, and one before the epoch wraps.
pub recent_unix : Instant → ℕ → ℕ
recent_unix now duration =
    (now.unix * 10 ^ 9 + now.nanosecond + u64_mod * 10 ^ 9 - duration) / 10 ^ 9 % u64_mod

-- `(n - 1) * percentile / 100`, an int; a slice is too short for it to wrap.
pub percentile_index : ℕ → ℕ → ℕ
percentile_index n percentile = (n - 1) * percentile / 100

module _ (effective_gas_tip_value : WorstCase.Transaction → ℕ → ℤ)
    (sort : List Transaction → List Transaction) where
  new_tx : ℕ → WorstCase.Transaction → Transaction
  new_tx base_fee tx = record { gas = tx.gas; tip = effective_gas_tip_value tx base_fee }

  pub new_block : EthBlock → Block
  unfolding new_tx
  new_block blk =
      let fee = u64_or 0 blk.base_fee in
      record {
        timestamp = blk.time;
        gas_used = blk.gas_used;
        gas_limit = blk.gas_limit;
        base_fee = fee;
        txs = sort (map (new_tx fee) blk.transactions);
      }

  module _ (lru : LruCache) where
    -- `cacheBlock`
    pub cache_block : lru.Carrier → EthBlock → lru.Carrier × Block
    unfolding new_block
    cache_block cache blk = let new_b = new_block blk in (lru.put cache blk.number new_b, new_b)

    -- What `getBlock` makes of the answer of the backend, after a miss.
    fetched : lru.Carrier → Outcome (Option EthBlock) → lru.Carrier × Option Block
    unfolding cache_block
    fetched cache (ok (some blk)) =
        let (filled, new_b) = cache_block cache blk in (filled, some new_b)
    fetched cache other = (cache, none)

    -- A hit is returned; the answer of the backend is only used after a miss.
    looked_up : lru.Carrier × Option Block → Outcome (Option EthBlock) → lru.Carrier × Option Block
    unfolding fetched
    looked_up (cache, some blk) answer = (cache, some blk)
    looked_up (cache, none) answer = fetched cache answer

    -- `getBlock`
    pub get_block : Backend → lru.Carrier → ℕ → lru.Carrier × Option Block
    unfolding looked_up
    get_block backend cache n = looked_up (lru.get cache n) (backend.block_by_number n)

    -- The body of the loop of `SuggestGasTipCap` on what it reads; `older` is the rest of the loop.
    after_read :
        ℕ
        → (lru.Carrier → lru.Carrier × List Transaction)
        → lru.Carrier × Option Block
        → lru.Carrier × List Transaction
    after_read recent older (cache, none) = (cache, [])
    after_read recent older (cache, some b) =
        if ltb b.timestamp recent
        then (cache, [])
        else (let (left, tips) = older cache in (left, b.txs ++ tips))

    -- The loop over the recent blocks from the n-th down, for as many rounds as are left, with the
    -- cache that it leaves.
    pub recent_tips : Backend → ℕ → ℕ → ℕ → lru.Carrier → lru.Carrier × List Transaction
    unfolding get_block after_read
    recent_tips backend recent zero n cache = (cache, [])
    recent_tips backend recent (suc rounds) n cache =
        after_read recent (recent_tips backend recent rounds (n - 1)) (get_block backend cache n)

    -- `Estimator`; `number` and `price` are those of `last`.
    pub record Estimator : Type 0 where
      pub config : Config
      pub number : ℕ
      pub price : ℤ
      pub cache : lru.Carrier

    -- The size of the cache in `NewEstimator`.
    pub cache_size : Config → ℕ
    cache_size c =
        add_u64
          (max c.suggested_tip_max_blocks
            (add_u64 c.history_max_blocks_from_head c.history_max_blocks))
          5

    -- The estimator that `NewEstimator` returns.
    pub fresh : Config → ℤ → Estimator
    unfolding cache_size
    fresh c lowest = record {
      config = c;
      number = 0;
      price = lowest;
      cache = lru.new_cache (cache_size c);
    }

    -- `NewEstimator`; the goroutine that it starts calls `cache_block` at each accepted block.
    pub new_estimator : Config → Outcome Estimator
    unfolding validate fresh
    new_estimator c = do validate c; lowest ← deref c.min_suggested_tip; ok (fresh c lowest)

    -- The price at the percentile of the tips, within the bounds.
    percentile_price : Config → List Transaction → Outcome ℤ
    unfolding percentile_index
    percentile_price c tips = do
      t ← deref (get_elem? (sort tips) (percentile_index (length tips) c.suggested_tip_percentile))
      lowest ← deref c.min_suggested_tip
      highest ← deref c.max_suggested_tip
      ok (big_min (big_max t.tip lowest) highest)

    pub price_of : Estimator → List Transaction → Outcome ℤ
    unfolding percentile_price
    price_of e [] = ok e.price
    price_of e (t ∷ rest) = percentile_price e.config (t ∷ rest)

    -- A new suggestion from the recent blocks.
    pub suggest_with : Backend → ℕ → Estimator → (ℕ → Instant) → Outcome (Estimator × ℤ)
    unfolding recent_tips price_of
    suggest_with backend newest e now = do
      let too_old = bounded_subtract 64 newest e.config.suggested_tip_max_blocks 0
      let recent = recent_unix (now backend.moment) e.config.suggested_tip_max_duration
      let (cache, tips) = recent_tips backend recent (newest - too_old) newest e.cache
      price ← price_of e tips
      ok (record e { number = newest; price = price; cache = cache }, price)

    -- The rest of `SuggestGasTipCap`, under the write lock; the number is that of the last accepted
    -- block, which was read before.
    pub suggest_locked : Backend → ℕ → Estimator → Outcome (Estimator × ℤ)
    unfolding suggest_with
    suggest_locked backend newest e =
        if leb newest e.number
        then ok (e, e.price)
        else deref e.config.now >>= suggest_with backend newest e

    -- `SuggestGasTipCap`; `meanwhile` is what other goroutines do before the write lock is held.
    pub suggest_gas_tip_cap :
        Backend → (Estimator → Estimator) → Estimator → Outcome (Estimator × ℤ)
    unfolding suggest_locked
    suggest_gas_tip_cap backend meanwhile e =
        let newest = backend.last_accepted_block.header.number in
        if leb newest e.number then ok (e, e.price) else suggest_locked backend newest (meanwhile e)
