-- ===== src/WorstCase/Finish.antt =====
-- `FinishBlock` of worstcase/state.go, and the run of a block from `StartBlock` to it.
use strevm.Blocks.{WorstCaseBounds}
use strevm.Hook.{IsLawful, Points, Header}
use strevm.Base.{
  inr, inl, ◌⊎◌, queue_full, ap, ◌∙◌, add_u64, refl, ◌*◌, none, err, u64_mod, ok, ◌<◌, Error, ◌+◌,
  Option, Outcome, sym, arith, IsU64, ◌≤◌, some, ◌≡◌, ℕ,
}
use strevm.Hook.Ops.{StateDb}
use strevm.GasTime
use mathlib.Core.Path.{subst}
use strevm.GasTime.{before_block, price, after_block, Config, new_config, clamp_target}
use strevm.ProxyTime.{units}
use strevm.GasTime.Excess.{IsValid}
use strevm.GasTime.Price.{PriceLaws}
use strevm.GasTime.AfterBlock.{after_block_lem}
use strevm.WorstCase.{
  State, Chain, finish_block, finish, start_block, safe_max_block_size, admitted, resized,
}
use strevm.WorstCase.Queue.{
  Fills, fills_lem, open_queue, closed_queue, safe_max_block_size_lem, start_block_lem,
}

module _ (db : StateDb) (chain : Chain db) where
  -- A block that has started, with some operations in it.
  pub record IsFilled (t : State db chain) (fee : ℕ) (h : Header) : Type 0 where
    pub valid : IsValid t.clock
    pub started : t.base_fee ≡ some fee
    pub header : t.curr ≡ some h
    pub filled : t.block_size ≤ t.max_block_size
    pub open_before : t.q_size ≤ open_queue t.max_block_size
    pub closed_fits : IsU64 (closed_queue t.max_block_size)

  module _ (calculate_price : ℕ → ℕ → ℕ → ℕ) (laws : PriceLaws calculate_price) where
    admitted-IsFilled :
        (s t : State db chain) (h : Header) (hooks : Points) (clock : GasTime.Time)
        → IsValid clock
        → s.q_size ≤ open_queue (safe_max_block_size clock)
        → Fills db chain
            (admitted db chain calculate_price hooks
              (resized db chain calculate_price hooks s clock)
              h)
            t
        → (t.clock ≡ clock)
          × (t.max_block_size ≡ safe_max_block_size clock)
          × IsFilled t (price calculate_price clock) (record h {
            gas_limit = safe_max_block_size clock;
            base_fee = price calculate_price clock;
          })
    admitted-IsFilled s t h hooks clock v free ops =
        let fits = (safe_max_block_size_lem clock).1 in
        let (same, full) = fills_lem db chain (omega (arith, fits)) (omega arith) ops in
        (
          same.clock,
          same.max_block_size,
          record {
            valid = subst IsValid (sym same.clock) v;
            started = same.base_fee;
            header = same.curr;
            filled = omega (arith, same.max_block_size, full);
            open_before = omega (arith, same.max_block_size, same.q_size, free);
            closed_fits = omega (arith, same.max_block_size, fits);
          },
        )

    -- A block that `StartBlock` admits, and whose operations are applied, is filled at most up to
    -- its maximum size, which is its gas limit; its base fee is the price of the clock, which is no
    -- higher than the price after the block before it.
    pub start_and_fill :
        (s : State db chain) (h : Header) (hooks : Points)
        → IsValid s.clock
        → IsLawful hooks
        → h.time + 1 < u64_mod
        → h.parent_hash ≡ s.expected_parent_hash
        → (clock : GasTime.Time) × (before_block s.clock hooks h ≡ ok clock)
          × (price calculate_price clock ≤ price calculate_price s.clock)
          × (((open_queue (safe_max_block_size clock) < s.q_size)
                × (start_block db chain calculate_price hooks s h
                    ≡ ok (resized db chain calculate_price hooks s clock, some queue_full)))
              ⊎ ((s1 : State db chain) × (start_block db chain calculate_price hooks s h
                    ≡ ok (s1, none))
                  × ((t : State db chain)
                      → Fills db chain s1 t
                      → (t.clock ≡ clock)
                        × (t.max_block_size ≡ safe_max_block_size clock)
                        × IsFilled t (price calculate_price clock) (record h {
                          gas_limit = safe_max_block_size clock;
                          base_fee = price calculate_price clock;
                        }))))
    start_and_fill s h hooks v lawful room follows =
        elim (start_block_lem db chain calculate_price laws s h hooks v lawful room) [
          | inl (other, run) ↦ elim (other follows) [ ]
          | inr (clock, started, rest) ↦ (
            clock,
            started.moved,
            started.cheaper,
            elim rest [
              | inl full ↦ inl full
              | inr (free, run) ↦ inr (
                _,
                run,
                λ t ops.
                    let (same, size, filled) =
                      admitted-IsFilled s t h hooks clock started.valid free ops in
                    (same, size, filled),
              )
            ],
          )
        ]

    -- What `FinishBlock` returns for the configuration that the header gives.
    pub record IsFinished (t : State db chain) (fee : ℕ) (made : Outcome Config)
        (run : Outcome (State db chain × Outcome WorstCaseBounds)) : Type 0 where
      pub accepted :
          (cfg : Config)
          → made ≡ ok cfg
          → (clock : GasTime.Time) × (run
              ≡ ok (
                record t { clock = clock; q_size = t.q_size + t.block_size },
                ok (record {
                  max_base_fee = fee;
                  latest_end_time = clock;
                  min_op_burner_balances = t.min_op_burner_balances;
                }),
              ))
            × IsValid clock
            × (t.q_size + t.block_size ≤ closed_queue t.max_block_size)
      pub rejected :
          (e : Error)
          → made ≡ err e
          → (clock : GasTime.Time) × (run ≡ ok (record t { clock = clock }, err e)) × IsValid clock

    finish_block-eq :
        (t : State db chain) (fee : ℕ) (h : Header) (hooks : Points)
        (r : GasTime.Time × Option Error)
        → t.base_fee ≡ some fee
        → t.curr ≡ some h
        → after_block calculate_price t.clock t.block_size hooks h ≡ ok r
        → finish_block db chain calculate_price hooks t
          ≡ ok (finish db chain calculate_price hooks t fee r)
    unfolding finish_block
    finish_block-eq t fee h hooks r started header run = rw (header, started, run) refl

    finish-sum :
        (t : State db chain) (fee : ℕ) (hooks : Points) (clock : GasTime.Time)
        → t.q_size + t.block_size < u64_mod
        → finish db chain calculate_price hooks t fee (clock, none) ≡ (
          record t { clock = clock; q_size = t.q_size + t.block_size },
          ok (record {
            max_base_fee = fee;
            latest_end_time = clock;
            min_op_burner_balances = t.min_op_burner_balances;
          }),
        )
    unfolding finish
    finish-sum t fee hooks clock fits =
        let sum : add_u64 t.q_size t.block_size ≡ t.q_size + t.block_size = omega (arith, fits) in
        rw sum refl

    finish-refused :
        (t : State db chain) (fee : ℕ) (hooks : Points) (clock : GasTime.Time) (e : Error)
        → finish db chain calculate_price hooks t fee (clock, some e)
          ≡ (record t { clock = clock }, err e)
    unfolding finish
    finish-refused t fee hooks clock e = refl

    -- `FinishBlock` never panics on a block that was started and filled, while its instant fits. For
    -- a valid configuration the gas of the block joins the queue, which holds at most three blocks of
    -- the maximum size and does not wrap, and the bounds are the base fee, the clock and the noted
    -- balances. For an invalid one the error is returned, the queue stays, and the clock has moved.
    pub finish_block_lem :
        (t : State db chain) (fee : ℕ) (h : Header) (hooks : Points)
        → IsFilled t fee h
        → units t.clock.time + t.block_size + t.clock.time.hertz < u64_mod * t.clock.time.hertz
        → IsU64 (hooks.gas_config_after h).1.target_to_excess_scaling
        → IsU64 (hooks.gas_config_after h).1.min_price
        → IsFinished t fee
            (new_config (hooks.gas_config_after h).1)
            (finish_block db chain calculate_price hooks t)
    finish_block_lem t fee h hooks f room hs hm =
        let (ticked, run, fin) =
          after_block_lem calculate_price laws t.clock t.block_size hooks h f.valid
            (omega (arith, f.filled, f.closed_fits)) room hs hm in
        record {
          accepted = λ cfg made.
              let (clock, after, valid, target, config, continues) = fin.accepted cfg made in
              (
                clock,
                finish_block-eq t fee h hooks _ f.started f.header after
                    ∙ ap ok (
                        finish-sum t fee hooks clock
                          (omega (arith, f.filled, f.open_before, f.closed_fits))),
                valid,
                omega (arith, f.filled, f.open_before),
              );
          rejected = λ e made.
              let (clock, after, valid, target, config) = fin.rejected e made in
              (
                clock,
                finish_block-eq t fee h hooks _ f.started f.header after
                    ∙ ap ok (finish-refused t fee hooks clock e),
                valid,
              );
        }
