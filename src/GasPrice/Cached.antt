-- ===== src/GasPrice/Cached.antt =====
-- The cache of gasprice/block_cache.go is transparent: what is read through it is what the chain has.
use strevm.Base.{
  ◌∙◌, Bool-cases, ◌++◌, zero, ltb, if◌then◌else◌, ◌-◌, suc, [], List, ℤ, ◌≡◌, refl, sym, ap, some,
  none, ok, Option, ℕ, ◌⊎◌, inl, inr,
}
use mathlib.Core.Option
use mathlib.Core.Path.{subst}
use strevm.WorstCase
use strevm.GasPrice.{
  get_block, looked_up, fetched, cache_block, new_block, recent_tips, after_read, LruCache, Block,
  Transaction, EthBlock, Backend,
}

-- `lru.Cache`: an entry is one that was put under its key, and a read adds none.
pub record LruLaws (lru : LruCache) : Type 1 where
  pub Holds : lru.Carrier → ℕ → Block → Type 0
  pub new_empty : (size n : ℕ) (b : Block) → ¬ Holds (lru.new_cache size) n b
  pub hit : (c : lru.Carrier) (n : ℕ) (b : Block) → (lru.get c n).1 ≡ some b → Holds c n b
  pub get_keeps : (c : lru.Carrier) (n k : ℕ) (b : Block) → Holds (lru.get c n).0 k b → Holds c k b
  pub put_adds :
      (c : lru.Carrier) (n k : ℕ) (b b' : Block)
      → Holds (lru.put c n b) k b'
      → ((k ≡ n) × (b' ≡ b)) ⊎ Holds c k b'

-- The blocks of the accepted chain by their numbers, and a backend that serves them.
pub record Serves (canonical : ℕ → Option EthBlock) (backend : Backend) : Type 0 where
  pub serves : (n : ℕ) → backend.block_by_number n ≡ ok (canonical n)
  pub numbered : (n : ℕ) (blk : EthBlock) → canonical n ≡ some blk → blk.number ≡ n

module _ (effective_gas_tip_value : WorstCase.Transaction → ℕ → ℤ)
    (sort : List Transaction → List Transaction) (lru : LruCache) (laws : LruLaws lru)
    (canonical : ℕ → Option EthBlock) where
  -- The block that the cache has to hold for a number.
  abbrev pub block_at : ℕ → Option Block
  block_at n = Option.map (new_block effective_gas_tip_value sort) (canonical n)

  abbrev pub IsCoherent : lru.Carrier → Type 0
  IsCoherent c = (n : ℕ) (b : Block) → laws.Holds c n b → block_at n ≡ some b

  pub new_cache-IsCoherent : (size : ℕ) → IsCoherent (lru.new_cache size)
  new_cache-IsCoherent size n b held = absurd (laws.new_empty size n b held)

  -- The block that is put is the one at its number.
  cache_block-IsCoherent :
      (c : lru.Carrier) (blk : EthBlock)
      → IsCoherent c
      → canonical blk.number ≡ some blk
      → IsCoherent (cache_block effective_gas_tip_value sort lru c blk).0
  unfolding cache_block
  cache_block-IsCoherent c blk coherent there n b held =
      elim (laws.put_adds c blk.number n (new_block effective_gas_tip_value sort blk) b held) [
        | inl (same, put) ↦ rw (same, there, put)
        | inr before ↦ coherent n b before
      ]

  module _ (backend : Backend) (served : Serves canonical backend) where
    fetched_lem :
        (c : lru.Carrier) (n : ℕ) (found : Option EthBlock)
        → IsCoherent c
        → canonical n ≡ found
        → ((fetched effective_gas_tip_value sort lru c (ok found)).1 ≡ block_at n)
          × IsCoherent (fetched effective_gas_tip_value sort lru c (ok found)).0
    unfolding fetched cache_block
    fetched_lem c n none coherent there = (rw there, coherent)
    fetched_lem c n (some blk) coherent there =
        let same : blk.number ≡ n = served.numbered n blk there in
        (
          rw there,
          cache_block-IsCoherent c blk coherent
              (subst (λ k. canonical k ≡ some blk) (sym same) there),
        )

    looked_up_lem :
        (r : lru.Carrier × Option Block) (n : ℕ)
        → IsCoherent r.0
        → ((b : Block) → r.1 ≡ some b → block_at n ≡ some b)
        → ((looked_up effective_gas_tip_value sort lru r (ok (canonical n))).1 ≡ block_at n)
          × IsCoherent (looked_up effective_gas_tip_value sort lru r (ok (canonical n))).0
    unfolding looked_up
    looked_up_lem (c, some b) n coherent hit = (sym (hit b refl), coherent)
    looked_up_lem (c, none) n coherent hit = fetched_lem c n (canonical n) coherent refl

    -- A read through a coherent cache returns the block of the chain, and leaves the cache coherent.
    pub get_block_lem :
        (c : lru.Carrier) (n : ℕ)
        → IsCoherent c
        → ((get_block effective_gas_tip_value sort lru backend c n).1 ≡ block_at n)
          × IsCoherent (get_block effective_gas_tip_value sort lru backend c n).0
    unfolding get_block
    get_block_lem c n coherent = rw (served.serves n) (
        looked_up_lem (lru.get c n) n (λ k b held. coherent k b (laws.get_keeps c n k b held))
          (λ b hit. coherent n b (laws.hit c n b hit)))

  tips_with : ℕ → List Transaction → Option Block → List Transaction
  tips_with recent older none = []
  tips_with recent older (some b) = if ltb b.timestamp recent then [] else b.txs ++ older

  -- The tips of the recent blocks of the chain, with no cache.
  pub tips_of_chain : ℕ → ℕ → ℕ → List Transaction
  unfolding tips_with
  tips_of_chain recent zero n = []
  tips_of_chain recent (suc rounds) n =
      tips_with recent (tips_of_chain recent rounds (n - 1)) (block_at n)

  after_read_lem :
      (recent : ℕ) (older : lru.Carrier → lru.Carrier × List Transaction) (tips : List Transaction)
      → ((c : lru.Carrier) → IsCoherent c → ((older c).1 ≡ tips) × IsCoherent (older c).0)
      → (r : lru.Carrier × Option Block) → IsCoherent r.0
      → ((after_read effective_gas_tip_value sort lru recent older r).1 ≡ tips_with recent tips r.1)
        × IsCoherent (after_read effective_gas_tip_value sort lru recent older r).0
  unfolding after_read tips_with
  after_read_lem recent older tips rest (c, none) coherent = (refl, coherent)
  after_read_lem recent older tips rest (c, some b) coherent =
      elim (Bool-cases (ltb b.timestamp recent)) [
        | inl old ↦ rw old (refl, coherent)
        | inr fresh ↦ rw fresh (ap (◌++◌ b.txs) (rest c coherent).0, (rest c coherent).1)
      ]

  -- The loop over the recent blocks collects the tips of the chain, whatever the cache holds.
  pub recent_tips-eq :
      (backend : Backend) (recent rounds n : ℕ) (c : lru.Carrier)
      → Serves canonical backend
      → IsCoherent c
      → ((recent_tips effective_gas_tip_value sort lru backend recent rounds n c).1
          ≡ tips_of_chain recent rounds n)
        × IsCoherent (recent_tips effective_gas_tip_value sort lru backend recent rounds n c).0
  unfolding recent_tips tips_of_chain
  recent_tips-eq backend recent zero n c served coherent = (refl, coherent)
  recent_tips-eq backend recent (suc rounds) n c served coherent =
      let read = get_block_lem backend served c n coherent in
      let after =
        after_read_lem recent
          (recent_tips effective_gas_tip_value sort lru backend recent rounds (n - 1))
          (tips_of_chain recent rounds (n - 1))
          (λ d fine. recent_tips-eq backend recent rounds (n - 1) d served fine)
          (get_block effective_gas_tip_value sort lru backend c n) read.1 in
      (after.0 ∙ ap (tips_with recent (tips_of_chain recent rounds (n - 1))) read.0, after.1)
