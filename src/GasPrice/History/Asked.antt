-- ===== src/GasPrice/History/Asked.antt =====
-- FeeHistory of gasprice/estimator.go: its last block, the number of blocks, and its errors.
use strevm.Base.{
  lt→ltb, min, true, history_depth_exhausted, err, dec_lt, ◌-◌, sub_u64, ltb-eq-false, false, ltb,
  add_u64, ◌==◌, arith, u64_mod, Option, [], ℤ, List, ◌≡◌, ◌≤◌, ◌<◌, refl, ℕ, ok, ◌⊎◌, inl, inr,
  some, none, ◌+◌,
}
use mathlib.Core.Path.{subst}
use strevm.WorstCase
use strevm.GasPrice.{Config, Block, Transaction, EthBlock, Backend, LruCache}
use strevm.GasPrice.Cached.{Serves, LruLaws, IsCoherent, block_at}
use strevm.IntMath.Bounded.{bounded_subtract-eq-max}
use strevm.IntMath.{bounded_subtract}
use strevm.Blocks.Access.{BlockNumber}
use strevm.GasPrice.History.{
  validate_percentiles, fee_history, history_from, resolved_history, block_count, FeeHistory,
  Floats,
}
use strevm.GasPrice.History.Range.{
  history_of, history_of-fees, history_of-portions, history_of-rewards, fee_after_lem,
  history_from_lem, blocks_from, Covers,
}

module _ (floats : Floats) where
  module _ (effective_gas_tip_value : WorstCase.Transaction → ℕ → ℤ)
      (sort : List Transaction → List Transaction) (lru : LruCache) (laws : LruLaws lru)
      (canonical : ℕ → Option EthBlock) (backend : Backend) (served : Serves canonical backend)
      (calculate_price : ℕ → ℕ → ℕ → ℕ) where
    block_count-le :
        (c : Config) (blocks last : ℕ) → last + 1 < u64_mod → block_count c blocks last ≤ last + 1
    unfolding block_count
    block_count-le c blocks last fits = omega arith

    is_shallow :
        (c : Config) (last : ℕ)
        → c.history_max_blocks_from_head < u64_mod
        → backend.last_accepted_block.header.number < u64_mod
        → backend.last_accepted_block.header.number ≤ last + c.history_max_blocks_from_head
        → ltb last (
            bounded_subtract 64 backend.last_accepted_block.header.number
              c.history_max_blocks_from_head 0)
          ≡ false
    is_shallow c last deep head near = ltb-eq-false _ _ λ below. omega (
      arith,
      bounded_subtract-eq-max 64 backend.last_accepted_block.header.number
          c.history_max_blocks_from_head 0 head deep (omega arith),
    )

    -- The steps of a call, with their results as values.
    resolved_steps :
        (c : Config) (cache : lru.Carrier) (blocks : ℕ) (percentiles : List floats.Float)
        (last count first : ℕ) (h : FeeHistory floats)
        → ltb last (
            bounded_subtract 64 backend.last_accepted_block.header.number
              c.history_max_blocks_from_head 0)
          ≡ false
        → block_count c blocks last ≡ count
        → (count == 0) ≡ false
        → sub_u64 (add_u64 last 1) count ≡ first
        → (history_from floats effective_gas_tip_value sort lru backend calculate_price
            (λ k. none)
            percentiles
            last
            count
            first
            cache).1
          ≡ ok h
        → (resolved_history floats effective_gas_tip_value sort lru backend calculate_price
            (λ k. none)
            c
            cache
            blocks
            percentiles
            last).1
          ≡ ok (record h { lowest_height = first })
    unfolding resolved_history
    resolved_steps c cache blocks percentiles last count first h shallow counted nonzero start
          made =
        rw shallow (rw counted (rw nonzero (rw start (rw made refl))))

    resolved_history_lem :
        (c : Config) (cache : lru.Carrier) (blocks : ℕ) (percentiles : List floats.Float) (last : ℕ)
        → IsCoherent effective_gas_tip_value sort lru laws canonical cache
        → last + 1 < u64_mod
        → c.history_max_blocks_from_head < u64_mod
        → backend.last_accepted_block.header.number < u64_mod
        → last ≤ backend.last_accepted_block.header.number
        → backend.last_accepted_block.header.number ≤ last + c.history_max_blocks_from_head
        → ((n : ℕ)
            → n ≤ backend.last_accepted_block.header.number
            → (b : Block) × (block_at effective_gas_tip_value sort lru laws canonical n ≡ some b))
        → 0 < block_count c blocks last
        → (h : FeeHistory floats) × ((resolved_history floats effective_gas_tip_value sort lru
              backend calculate_price
              (λ k. none)
              c
              cache
              blocks
              percentiles
              last).1
            ≡ ok h)
          × Covers floats effective_gas_tip_value sort lru laws canonical backend served
              calculate_price percentiles last
              (block_count c blocks last)
              h
    resolved_history_lem c cache blocks percentiles last coherent fits deep head accepted near
          complete some_blocks =
        let count = block_count c blocks last in
        let shallow = is_shallow c last deep head near in
        let some_count : (block_count c blocks last == 0) ≡ false = ground arith in
        let small = block_count-le c blocks last fits in
        let first : sub_u64 (add_u64 last 1) (block_count c blocks last)
            ≡ last + 1 - block_count c blocks last =
          omega arith in
        let (fee, is_fee, ends) =
          fee_after_lem floats effective_gas_tip_value sort lru laws canonical backend served
            calculate_price last fits accepted complete in
        let (bs, long, spans) =
          blocks_from floats effective_gas_tip_value sort lru laws canonical backend served
            calculate_price backend.last_accepted_block.header.number
            (last + 1 - block_count c blocks last) (block_count c blocks last) complete
            (omega arith) in
        let (made, fine) =
          history_from_lem floats effective_gas_tip_value sort lru laws canonical backend served
            calculate_price percentiles last fee (last + 1 - block_count c blocks last) (last + 1)
            bs (omega arith) ends spans cache coherent in
        (
          record (history_of floats percentiles (last + 1) fee bs) {
            lowest_height = last + 1 - block_count c blocks last;
          },
          resolved_steps c cache blocks percentiles last (block_count c blocks last)
              (last + 1 - block_count c blocks last)
              (history_of floats percentiles (last + 1) fee bs) shallow refl some_count first
              (subst
                (λ k.
                  (history_from floats effective_gas_tip_value sort lru backend calculate_price
                    (λ k. none) percentiles last k (last + 1 - block_count c blocks last) cache).1
                  ≡ ok (history_of floats percentiles (last + 1) fee bs))
                long made),
          record {
            blocks = bs;
            as_many = long;
            range = omega arith;
            of_chain = spans;
            fee = fee;
            after = is_fee;
            fees = history_of-fees floats percentiles (last + 1) fee bs;
            rewarded = history_of-rewards floats percentiles (last + 1) fee bs;
            portions = history_of-portions floats percentiles (last + 1) fee bs;
          },
        )

    resolved_too_deep :
        (c : Config) (cache : lru.Carrier) (blocks : ℕ) (percentiles : List floats.Float) (last : ℕ)
        → c.history_max_blocks_from_head < u64_mod
        → backend.last_accepted_block.header.number < u64_mod
        → last + c.history_max_blocks_from_head < backend.last_accepted_block.header.number
        → (resolved_history floats effective_gas_tip_value sort lru backend calculate_price
            (λ k. none)
            c
            cache
            blocks
            percentiles
            last).1
          ≡ err history_depth_exhausted
    unfolding resolved_history
    resolved_too_deep c cache blocks percentiles last deep head far =
        let below : ltb last (
              bounded_subtract 64 backend.last_accepted_block.header.number
                c.history_max_blocks_from_head 0)
            ≡ true =
          lt→ltb _ _ (
            omega (
              arith,
              bounded_subtract-eq-max 64 backend.last_accepted_block.header.number
                  c.history_max_blocks_from_head 0 head deep (omega arith),
            )) in
        rw below refl

    resolved_nothing :
        (c : Config) (cache : lru.Carrier) (blocks : ℕ) (percentiles : List floats.Float) (last : ℕ)
        → c.history_max_blocks_from_head < u64_mod
        → backend.last_accepted_block.header.number < u64_mod
        → backend.last_accepted_block.header.number ≤ last + c.history_max_blocks_from_head
        → block_count c blocks last ≡ 0
        → (resolved_history floats effective_gas_tip_value sort lru backend calculate_price
            (λ k. none)
            c
            cache
            blocks
            percentiles
            last).1
          ≡ ok (record { lowest_height = 0; rewards = []; base_fees = []; portion_full = [] })
    unfolding resolved_history
    resolved_nothing c cache blocks percentiles last deep head near nothing =
        let shallow = is_shallow c last deep head near in rw shallow (rw nothing refl)

    block_count_lem :
        (c : Config) (blocks last : ℕ)
        → last + 1 < u64_mod
        → block_count c blocks last ≡ min blocks (min c.history_max_blocks (last + 1))
    unfolding block_count
    block_count_lem c blocks last fits = omega arith

    resolved_cases :
        (c : Config) (cache : lru.Carrier) (blocks : ℕ) (percentiles : List floats.Float) (last : ℕ)
        → IsCoherent effective_gas_tip_value sort lru laws canonical cache
        → last + 1 < u64_mod
        → c.history_max_blocks_from_head < u64_mod
        → backend.last_accepted_block.header.number < u64_mod
        → last ≤ backend.last_accepted_block.header.number
        → backend.last_accepted_block.header.number ≤ last + c.history_max_blocks_from_head
        → ((n : ℕ)
            → n ≤ backend.last_accepted_block.header.number
            → (b : Block) × (block_at effective_gas_tip_value sort lru laws canonical n ≡ some b))
        → (h : FeeHistory floats) × ((resolved_history floats effective_gas_tip_value sort lru
              backend calculate_price
              (λ k. none)
              c
              cache
              blocks
              percentiles
              last).1
            ≡ ok h)
          × (((min blocks c.history_max_blocks ≡ 0) × (h.base_fees ≡ []))
              ⊎ Covers floats effective_gas_tip_value sort lru laws canonical backend served
                  calculate_price percentiles last
                  (min blocks (min c.history_max_blocks (last + 1)))
                  h)
    resolved_cases c cache blocks percentiles last coherent fits deep head accepted near complete =
        let count = block_count_lem c blocks last fits in
        elim (dec_lt 0 (block_count c blocks last)) [
          | yes more ↦
              let (h, run, covers) =
                resolved_history_lem c cache blocks percentiles last coherent fits deep head
                  accepted near complete more in
              (
                h,
                run,
                inr (
                    subst
                      (λ k.
                        Covers floats effective_gas_tip_value sort lru laws canonical backend served
                          calculate_price percentiles last k h)
                      count covers),
              )
          | no nothing ↦ (
            record { lowest_height = 0; rewards = []; base_fees = []; portion_full = [] },
            resolved_nothing c cache blocks percentiles last deep head near (omega arith),
            inl (omega arith, refl),
          )
        ]

    fee_history-resolved :
        (c : Config) (cache : lru.Carrier) (blocks : ℕ) (last_block : BlockNumber)
        (percentiles : List floats.Float) (last : ℕ)
        → validate_percentiles floats percentiles ≡ ok tt
        → backend.resolve_block_number last_block ≡ ok last
        → fee_history floats effective_gas_tip_value sort lru backend calculate_price
            (λ k. none)
            c
            cache
            blocks
            last_block
            percentiles
          ≡ resolved_history floats effective_gas_tip_value sort lru backend calculate_price
              (λ k. none)
              c
              cache
              blocks
              percentiles
              last
    unfolding fee_history
    fee_history-resolved c cache blocks last_block percentiles last valid resolved =
        rw (valid, fee_history) (rw resolved refl)

    -- On a chain that the backend serves, FeeHistory with valid percentiles, a last block that is
    -- resolved and accepted, and a context that is not cancelled, fails exactly when that block is too
    -- far behind the head. Otherwise it covers as many blocks up to the last as are asked for, at most the limit and all there are, whatever the
    -- cache holds: their base fees with that after them, the portions of gas, and the tips.
    pub fee_history_lem :
        (c : Config) (cache : lru.Carrier) (blocks : ℕ) (last_block : BlockNumber)
        (percentiles : List floats.Float) (last : ℕ)
        → IsCoherent effective_gas_tip_value sort lru laws canonical cache
        → last + 1 < u64_mod
        → c.history_max_blocks_from_head < u64_mod
        → backend.last_accepted_block.header.number < u64_mod
        → last ≤ backend.last_accepted_block.header.number
        → ((n : ℕ)
            → n ≤ backend.last_accepted_block.header.number
            → (b : Block) × (block_at effective_gas_tip_value sort lru laws canonical n ≡ some b))
        → validate_percentiles floats percentiles ≡ ok tt
        → backend.resolve_block_number last_block ≡ ok last
        → ((last + c.history_max_blocks_from_head < backend.last_accepted_block.header.number)
            × ((fee_history floats effective_gas_tip_value sort lru backend calculate_price
                  (λ k. none)
                  c
                  cache
                  blocks
                  last_block
                  percentiles).1
                ≡ err history_depth_exhausted))
          ⊎ ((backend.last_accepted_block.header.number ≤ last + c.history_max_blocks_from_head)
              × ((h : FeeHistory floats) × ((fee_history floats effective_gas_tip_value sort lru
                      backend calculate_price
                      (λ k. none)
                      c
                      cache
                      blocks
                      last_block
                      percentiles).1
                    ≡ ok h)
                  × (((min blocks c.history_max_blocks ≡ 0) × (h.base_fees ≡ []))
                      ⊎ Covers floats effective_gas_tip_value sort lru laws canonical backend served
                          calculate_price percentiles last
                          (min blocks (min c.history_max_blocks (last + 1)))
                          h)))
    fee_history_lem c cache blocks last_block percentiles last coherent fits deep head accepted
          complete valid resolved =
        let run = fee_history-resolved c cache blocks last_block percentiles last valid resolved in
        elim (dec_lt (last + c.history_max_blocks_from_head)
          backend.last_accepted_block.header.number) [
            | yes far ↦
                inl (far, rw run (resolved_too_deep c cache blocks percentiles last deep head far))
            | no not_far ↦
                let near : backend.last_accepted_block.header.number
                    ≤ last + c.history_max_blocks_from_head =
                  omega arith in
                inr (
                  near,
                  rw run (
                      resolved_cases c cache blocks percentiles last coherent fits deep head
                        accepted near complete),
                )
          ]
