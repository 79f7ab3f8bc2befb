-- ===== src/GasPrice/History/Range.antt =====
-- FeeHistory of gasprice/estimator.go: the range of blocks that it covers, and what it returns for them.
use strevm.Base.{
  zero, suc, length, add_u64, ==_iff, ◌==◌, arith, Bool-cases, Outcome, u64_mod, Option, [], ℤ,
  List, ◌≡◌, ◌≤◌, ◌<◌, refl, ap, ◌∙◌, ℕ, ok, ◌⊎◌, inl, inr, some, none, ◌+◌, ◌++◌, ◌∷◌,
}
use mathlib.Core.List.{map}
use mathlib.Core.Option.{some-injective}
use strevm.WorstCase
use strevm.GasPrice.{Block, Transaction, EthBlock, Backend, LruCache}
use strevm.GasPrice.Cached.{Serves, LruLaws, IsCoherent, block_at, get_block_lem}
use strevm.GasPrice.{get_block}
use strevm.GasPrice.History.{
  history_from, latest_fee, fee_of, tip_percentiles, FeeHistory, Floats, after_history_block,
  add_block, fee_after,
}

module _ (floats : Floats) where
  -- What is to be returned for a list of blocks and the base fee after them.
  pub history_of : List floats.Float → ℕ → ℕ → List Block → FeeHistory floats
  history_of percentiles end fee [] = record {
    lowest_height = end;
    rewards = [];
    base_fees = fee ∷ [];
    portion_full = [];
  }
  history_of percentiles end fee (b ∷ bs) =
      add_block floats percentiles b (history_of percentiles end fee bs)

  abbrev pub rewards_of : List floats.Float → List Block → List (List ℤ)
  rewards_of [] bs = []
  rewards_of (p ∷ ps) bs = map (λ b. tip_percentiles floats b (p ∷ ps)) bs

  pub history_of-fees :
      (percentiles : List floats.Float) (end fee : ℕ) (bs : List Block)
      → (history_of percentiles end fee bs).base_fees ≡ map (λ b. b.base_fee) bs ++ fee ∷ []
  unfolding history_of add_block
  history_of-fees percentiles end fee [] = refl
  history_of-fees percentiles end fee (b ∷ bs) =
      ap (◌∷◌ b.base_fee) (history_of-fees percentiles end fee bs)

  pub history_of-portions :
      (percentiles : List floats.Float) (end fee : ℕ) (bs : List Block)
      → (history_of percentiles end fee bs).portion_full
        ≡ map (λ b. floats.ratio b.gas_used b.gas_limit) bs
  unfolding history_of add_block
  history_of-portions percentiles end fee [] = refl
  history_of-portions percentiles end fee (b ∷ bs) =
      ap (◌∷◌ (floats.ratio b.gas_used b.gas_limit)) (history_of-portions percentiles end fee bs)

  pub history_of-rewards :
      (percentiles : List floats.Float) (end fee : ℕ) (bs : List Block)
      → (history_of percentiles end fee bs).rewards ≡ rewards_of percentiles bs
  unfolding history_of add_block
  history_of-rewards [] end fee [] = refl
  history_of-rewards (p ∷ ps) end fee [] = refl
  history_of-rewards [] end fee (b ∷ bs) = refl
  history_of-rewards (p ∷ ps) end fee (b ∷ bs) =
      ap (◌∷◌ (tip_percentiles floats b (p ∷ ps))) (history_of-rewards (p ∷ ps) end fee bs)

  module _ (effective_gas_tip_value : WorstCase.Transaction → ℕ → ℤ)
      (sort : List Transaction → List Transaction) (lru : LruCache) (laws : LruLaws lru)
      (canonical : ℕ → Option EthBlock) (backend : Backend) (served : Serves canonical backend)
      (calculate_price : ℕ → ℕ → ℕ → ℕ) where
    -- The blocks of the chain from the n-th on.
    abbrev pub Spans : ℕ → List Block → Type 0
    Spans n [] = Unit {0}
    Spans n (b ∷ bs) =
        (block_at effective_gas_tip_value sort lru laws canonical n ≡ some b) × Spans (n + 1) bs

    -- The base fee after the last block: a bound on that of the next block, or that of the next block.
    abbrev pub IsFeeAfter : ℕ → ℕ → Type 0
    IsFeeAfter last fee =
        ((last ≡ backend.last_accepted_block.header.number)
          × (fee ≡ latest_fee calculate_price backend.last_accepted_block))
        ⊎ ((b : Block) × (block_at effective_gas_tip_value sort lru laws canonical (last + 1)
              ≡ some b)
            × (fee ≡ b.base_fee))

    pub fee_after_lem :
        (last : ℕ)
        → last + 1 < u64_mod
        → last ≤ backend.last_accepted_block.header.number
        → ((n : ℕ)
            → n ≤ backend.last_accepted_block.header.number
            → (b : Block) × (block_at effective_gas_tip_value sort lru laws canonical n ≡ some b))
        → (fee : ℕ) × IsFeeAfter last fee
          × ((c : lru.Carrier)
              → IsCoherent effective_gas_tip_value sort lru laws canonical c
              → ((fee_after floats effective_gas_tip_value sort lru backend calculate_price last
                    c).1
                  ≡ ok fee)
                × IsCoherent effective_gas_tip_value sort lru laws canonical
                    (fee_after floats effective_gas_tip_value sort lru backend calculate_price last
                      c).0)
    unfolding fee_after fee_of
    fee_after_lem last fits accepted complete =
        elim (Bool-cases (last == backend.last_accepted_block.header.number)) [
          | inl head ↦ (
            latest_fee calculate_price backend.last_accepted_block,
            inl ((==_iff last backend.last_accepted_block.header.number).0 head, refl),
            λ c coherent. rw head (refl, coherent),
          )
          | inr behind ↦
              let next : add_u64 last 1 ≡ last + 1 = omega arith in
              let (b, there) = complete (last + 1) (ground arith) in
              (
                b.base_fee,
                inr (b, there, refl),
                λ c coherent.
                    let (read, fine) =
                      get_block_lem effective_gas_tip_value sort lru laws canonical backend served c
                        (last + 1) coherent in
                    rw behind (rw next (ap fee_of (read ∙ there), fine)),
              )
        ]

    after_history_lem :
        (percentiles : List floats.Float)
        (next : lru.Carrier → lru.Carrier × Outcome (FeeHistory floats)) (later : FeeHistory floats)
        (b : Block)
        → ((c : lru.Carrier)
            → IsCoherent effective_gas_tip_value sort lru laws canonical c
            → ((next c).1 ≡ ok later)
              × IsCoherent effective_gas_tip_value sort lru laws canonical (next c).0)
        → (r : lru.Carrier × Option Block) → r.1 ≡ some b
        → IsCoherent effective_gas_tip_value sort lru laws canonical r.0
        → ((after_history_block floats effective_gas_tip_value sort lru percentiles next r).1
            ≡ ok (add_block floats percentiles b later))
          × IsCoherent effective_gas_tip_value sort lru laws canonical
              (after_history_block floats effective_gas_tip_value sort lru percentiles next r).0
    unfolding after_history_block
    after_history_lem percentiles next later b rest (c, none) found coherent = absurd (ground arith)
    after_history_lem percentiles next later b rest (c, some a) found coherent =
        let same : a ≡ b = some-injective _ _ found in
        let (made, fine) = rest c coherent in
        (rw made (ap (λ x. ok (add_block floats percentiles x later)) same), fine)

    pub history_from_lem :
        (percentiles : List floats.Float) (last fee n end : ℕ) (bs : List Block)
        → n + length bs ≡ end
        → ((c : lru.Carrier)
            → IsCoherent effective_gas_tip_value sort lru laws canonical c
            → ((fee_after floats effective_gas_tip_value sort lru backend calculate_price last c).1
                ≡ ok fee)
              × IsCoherent effective_gas_tip_value sort lru laws canonical
                  (fee_after floats effective_gas_tip_value sort lru backend calculate_price last
                    c).0)
        → Spans n bs
        → (c : lru.Carrier) → IsCoherent effective_gas_tip_value sort lru laws canonical c
        → ((history_from floats effective_gas_tip_value sort lru backend calculate_price
              (λ k. none)
              percentiles
              last
              (length bs)
              n
              c).1
            ≡ ok (history_of percentiles end fee bs))
          × IsCoherent effective_gas_tip_value sort lru laws canonical
              (history_from floats effective_gas_tip_value sort lru backend calculate_price
                (λ k. none)
                percentiles
                last
                (length bs)
                n
                c).0
    unfolding history_from history_of
    history_from_lem percentiles last fee n end [] long ends spans c coherent =
        let (made, fine) = ends c coherent in
        let here : n ≡ end = omega arith in
        (rw made (ap (λ k. ok (history_of percentiles k fee [])) here), fine)
    history_from_lem percentiles last fee n end (b ∷ bs) long ends (here, spans) c coherent =
        let (read, fine) =
          get_block_lem effective_gas_tip_value sort lru laws canonical backend served c n
            coherent in
        after_history_lem percentiles
          (history_from floats effective_gas_tip_value sort lru backend calculate_price (λ k. none)
            percentiles last (length bs) (n + 1))
          (history_of percentiles end fee bs) b
          (λ d good.
            history_from_lem percentiles last fee (n + 1) end bs (omega arith) ends spans d good)
          (get_block effective_gas_tip_value sort lru backend c n) (read ∙ here) fine

    pub blocks_from :
        (top n rounds : ℕ)
        → ((k : ℕ)
            → k ≤ top
            → (b : Block) × (block_at effective_gas_tip_value sort lru laws canonical k ≡ some b))
        → n + rounds ≤ top + 1
        → (bs : List Block) × (length bs ≡ rounds) × Spans n bs
    blocks_from top n zero complete inside = ([], refl, tt)
    blocks_from top n (suc rounds) complete inside =
        let (b, there) = complete n (omega arith) in
        let (bs, long, spans) = blocks_from top (n + 1) rounds complete (omega arith) in
        (b ∷ bs, ap suc long, (there, spans))

    -- What is returned for a range of blocks that ends at `last`.
    pub record Covers (percentiles : List floats.Float) (last count : ℕ) (h : FeeHistory floats)
        : Type 0 where
      pub blocks : List Block
      pub as_many : length blocks ≡ count
      pub range : h.lowest_height + count ≡ last + 1
      pub of_chain : Spans h.lowest_height blocks
      pub fee : ℕ
      pub after : IsFeeAfter last fee
      pub fees : h.base_fees ≡ map (λ b. b.base_fee) blocks ++ fee ∷ []
      pub rewarded : h.rewards ≡ rewards_of percentiles blocks
      pub portions : h.portion_full ≡ map (λ b. floats.ratio b.gas_used b.gas_limit) blocks
