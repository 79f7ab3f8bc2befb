-- ===== src/SaeExec/Refine.antt =====
-- `Execute` of saexec/execution.go against what worstcase/state.go predicts of the block.
use strevm.Base.{
  length, sym, [], ◌∙◌, Option, ◌∷◌, ap, ◌>>=◌, take, zero, suc, ok-injective, refl, is_ok, is_err,
  is_panic, Option-cases, Outcome-cases, ◌*◌, u64_mod, inl, ◌<◌, inr, IsU64, Option-cases,
  Outcome-cases, ◌+◌, Run, ◌≢◌, arith, List, ℕ, Error, ◌≡◌, Outcome, ◌≤◌, ok, err, panic, some,
  none,
}
use mathlib.Core.Path.{subst}
use strevm.ProxyTime
use strevm.GasTime
use strevm.GasTime.{before_block, after_block, price, new_config, Config}
use strevm.GasTime.Below.{IsBelow}
use strevm.GasTime.Excess.{IsValid}
use strevm.GasTime.Price.{PriceLaws}
use strevm.GasTime.Refine.{before_block-IsBelow, after_block-IsBelow}
use strevm.ProxyTime.{units}
use strevm.Hook.{IsLawful, Header, Points}
use strevm.Hook.Ops.{StateDb, StateDbLaws, Op}
use strevm.Blocks.{ExecutionResults, Memory, Block, WorstCaseBounds}
use strevm.Blocks.LifeCycle.{Logged}
use strevm.Blocks.LifeCycle.Silent.{check_base_fee_bound-within, NotBaseFee}
use strevm.WorstCase.{Transaction, Chain}
use strevm.SaeExec.{
  execute, Evm, Progress, Attempt, Executed, goes_on, goes_on_from, run_block, finish_by,
}
use strevm.SaeExec.Progressed.{IsKept, IsKept-refl, IsKept-trans, Advanced, HasRoom, HasRoom-less}
use strevm.SaeExec.Loops.{EvmLaws, Ends, gas_of_txs, gas_of_ops, execute_txs-Ends, execute_ops-Ends}

-- The gas of the operations at the end of the block, if there are any.
abbrev pub gas_of_end : Outcome (List Op) → ℕ
gas_of_end (ok ops) = gas_of_ops ops
gas_of_end (err why) = 0
gas_of_end panic = 0

gas_of_txs-take : (n : ℕ) (txs : List Transaction) → gas_of_txs (take n txs) ≤ gas_of_txs txs
gas_of_txs-take zero txs = omega arith
gas_of_txs-take (suc n) [] = omega arith
gas_of_txs-take (suc n) (tx ∷ rest) = omega (arith, gas_of_txs-take n rest)

module _ (db : StateDb) (chain : Chain db) (evm : Evm db) where
  -- What holds of an execution by the bounds of the worst case: nothing is logged about the base fee
  -- if they are those of the block, the base fee is within its bound, and the clock at the end is
  -- below the latest end time. Of the memory only the interim time of the block changes.
  pub record IsBounded (m : Memory) (p : ℕ) (w : WorstCaseBounds) (a : Attempt db chain evm)
      : Type 0 where
    pub silent : (m.block p).bounds ≡ some w → NotBaseFee a.logged
    pub kept : IsKept p m a.memory
    pub returns : a.result ≢ panic
    pub cheap : (r : Executed db) → a.result ≡ ok r → r.base_fee ≤ w.max_base_fee
    pub early :
        (r : Executed db)
        → a.result ≡ ok r
        → IsValid r.finish_by × IsBelow r.finish_by w.latest_end_time

  module _ (m0 : Memory) (p : ℕ) (w : WorstCaseBounds) where
    abbrev pub Bounds : Outcome (Attempt db chain evm) → Type 0
    Bounds run = (a : Attempt db chain evm) × (run ≡ ok a) × IsBounded m0 p w a

    -- So far nothing is logged about the base fee, and the memory is kept.
    pub record IsSound (r : Progress db) : Type 0 where
      pub silent : (m0.block p).bounds ≡ some w → NotBaseFee r.logged
      pub kept : IsKept p m0 r.memory

    pub IsSound-later : (n : ℕ) (r s : Progress db) → IsSound r → Advanced db p n r s → IsSound s
    IsSound-later n r s k a = record {
      silent = λ h. a.silent (k.silent h);
      kept = IsKept-trans p m0 r.memory s.memory k.kept a.kept;
    }

    refused-Bounds :
        (m : Memory) (ls : List Logged) (why : Error)
        → IsKept p m0 m
        → ((m0.block p).bounds ≡ some w → NotBaseFee ls)
        → Bounds (ok (record { memory = m; logged = ls; result = err why }))
    refused-Bounds m ls why kept silent = (
      _,
      refl,
      record {
        silent = silent;
        kept = kept;
        returns = λ e. ground arith;
        cheap = λ x e. absurd (ground arith);
        early = λ x e. absurd (ground arith);
      },
    )

    goes_on-Bounds :
        {A : Type 0} (r : Progress db) (m : Outcome A) (next : A → Outcome (Attempt db chain evm))
        → IsSound r
        → m ≢ panic
        → ((a : A) → m ≡ ok a → Bounds (next a))
        → Bounds (goes_on db chain evm r m next)
    goes_on-Bounds r m next k returns rest = elim (Outcome-cases m) [
      | is_panic e ↦ absurd (returns e)
      | is_err why e ↦ rw e (refused-Bounds r.memory r.logged why k.kept k.silent)
      | is_ok a e ↦ rw e (rest a e)
    ]

    goes_on_from-Bounds :
        (n : ℕ) (r : Progress db) (run : Run (Progress db))
        (next : Progress db → Outcome (Attempt db chain evm))
        → IsSound r
        → Ends db p n r run
        → ((s : Progress db) → Advanced db p n r s → IsSound s → Bounds (next s))
        → Bounds (goes_on_from db chain evm run next)
    goes_on_from-Bounds n r run next k (s, why, e, a) rest =
        let l = IsSound-later n r s k a in
        elim (Option-cases why) [
          | inr (x, stop) ↦ rw (e, stop) (refused-Bounds s.memory s.logged x l.kept l.silent)
          | inl go ↦ rw (e, go) (rest s a l)
        ]

  module _ (states : StateDbLaws db) (laws : EvmLaws db chain evm) (calculate_price : ℕ → ℕ → ℕ → ℕ)
      (price_laws : PriceLaws calculate_price) (hooks : Points) where
    -- What the worst case has of the block: its clock, the gas, which fits, and the end of the block,
    -- for a header of which the hooks make the same valid configuration.
    pub record IsForeseen (b : Block) (w : WorstCaseBounds) (clock : GasTime.Time) (g : ℕ)
        : Type 0 where
      pub curr : Header
      pub cfg : Config
      pub fee : w.max_base_fee ≡ price calculate_price clock
      pub end : after_block calculate_price clock g hooks curr ≡ ok (w.latest_end_time, none)
      pub covers : gas_of_txs (evm.transactions b) + gas_of_end (evm.end_of_block_ops b) ≤ g
      pub fits : IsU64 g
      pub room : units clock.time + g + clock.time.hertz < u64_mod * clock.time.hertz
      pub agree : hooks.gas_config_after b.header ≡ hooks.gas_config_after curr
      pub scaling_in : IsU64 (hooks.gas_config_after curr).1.target_to_excess_scaling
      pub min_price_in : IsU64 (hooks.gas_config_after curr).1.min_price
      pub made : new_config (hooks.gas_config_after curr).1 ≡ ok cfg

    finish_by-Bounds :
        (m0 : Memory) (p : ℕ) (b : Block) (w : WorstCaseBounds) (low worst : GasTime.Time) (g : ℕ)
        (r : Progress db)
        → IsValid low
        → IsValid worst
        → IsBelow low worst
        → price calculate_price low ≤ price calculate_price worst
        → IsForeseen b w worst g
        → r.gas ≤ g
        → IsSound m0 p w r
        → Bounds m0 p w (
            after_block calculate_price low r.gas hooks b.header >>= λ run.
            finish_by db chain evm calculate_price hooks (price calculate_price low) r run)
    unfolding finish_by
    finish_by-Bounds m0 p b w low worst g r v v' below cheaper f le k =
        let (low', high', run, run', lv, hv, ended) =
          after_block-IsBelow calculate_price price_laws low worst r.gas g hooks b.header f.curr
            f.cfg v v' below le f.fits f.room f.agree f.scaling_in f.min_price_in f.made in
        let reached : high' ≡ w.latest_end_time =
          ap (λ (x : GasTime.Time × Option Error). x.0) (ok-injective (sym run' ∙ f.end)) in
        (
          record {
            memory = r.memory;
            logged = r.logged;
            result = ok (record {
              base_fee = price calculate_price low;
              state_db = r.accounts;
              receipts = r.receipts;
              finish_by = low';
            });
          },
          rw run refl,
          record {
            silent = k.silent;
            kept = k.kept;
            returns = λ e. ground arith;
            cheap = λ x e.
                omega
                  (arith, cheaper, f.fee, ap (λ (y : Executed db). y.base_fee) (ok-injective e));
            early = λ x e.
                let same = ap (λ (y : Executed db). y.finish_by) (ok-injective e) in
                (
                  subst IsValid same lv,
                  subst (λ y. IsBelow y w.latest_end_time) same
                      (subst (IsBelow low') reached ended),
                );
          },
        )

    run_block-Bounds :
        (m0 : Memory) (b : Block) (w : WorstCaseBounds) (p n : ℕ) (low worst : GasTime.Time) (g : ℕ)
        (r : Progress db)
        → IsValid low
        → IsValid worst
        → IsBelow low worst
        → price calculate_price low ≤ price calculate_price worst
        → IsForeseen b w worst g
        → r.gas ≡ 0
        → r.per_tx_clock ≡ low.time
        → IsSound m0 p w r
        → Bounds m0 p w (run_block db chain evm calculate_price hooks b p n low r)
    unfolding run_block
    run_block-Bounds m0 b w p n low worst g r v v' below cheaper f none_yet at k =
        let all = evm.transactions b in
        let same : u64_mod * r.per_tx_clock.hertz ≡ u64_mod * worst.time.hertz =
          ap (λ (t : ProxyTime.Time). u64_mod * t.hertz) at
          ∙ ap (λ (h : ℕ). u64_mod * h) below.hertz in
        let now : units r.per_tx_clock ≡ units low.time = ap units at in
        let fewer = gas_of_txs-take n all in
        let room : HasRoom db p (gas_of_txs (take n all) + gas_of_end (evm.end_of_block_ops b)) r =
          record {
            valid = subst ProxyTime.IsValid (sym at) v.clock;
            gas_room = omega (arith, f.covers, f.fits);
            time_room = omega (arith, f.covers, f.room, below.instant);
          } in
        goes_on_from-Bounds m0 p w _ r _ _ k
          (execute_txs-Ends db p chain evm states laws b _ _ r 0 (take n all) (record {
            valid = room.valid;
            gas_room = omega (arith, room.gas_room);
            time_room = omega (arith, room.time_room);
          }))
          λ s a sk.
            goes_on-Bounds m0 p w s (evm.end_of_block_ops b) _ sk (laws.has_ops b) λ ops has.
              let len = length all in
              let spent = ap gas_of_end has in
              let left = HasRoom-less db p _ _ r s room a in
              goes_on_from-Bounds m0 p w (gas_of_ops ops) s _ _ sk
                (execute_ops-Ends db p chain evm states laws b s len ops (record {
                  valid = left.valid;
                  gas_room = omega (arith, left.gas_room);
                  time_room = omega (arith, left.time_room);
                }))
                λ t c tk.
                  goes_on-Bounds m0 p w t (evm.after_executing_block t.accounts b t.receipts) _ tk
                    (laws.ends t.accounts b t.receipts)
                    λ accounts done.
                      finish_by-Bounds m0 p b w low worst g (record t { accounts = accounts }) v v'
                        below cheaper f
                        (omega (arith, a.within, c.within, a.counted, c.counted, f.covers))
                        (record { silent = tk.silent; kept = tk.kept })

    -- From results of the parent with a clock below that of the worst case, `Execute` never panics;
    -- it logs nothing about the base fee if the bounds are those of the block, and of the memory only
    -- the interim time of the block changes. If it returns results, the base fee is at most that of
    -- the bounds, and the clock is valid and below the latest end time. The block's gas limits add up to no more than the gas of the worst case.
    pub execute-IsBounded :
        (m : Memory) (p max_num_txs : ℕ) (parent : ExecutionResults) (w : WorstCaseBounds)
        (before worst : GasTime.Time) (g : ℕ)
        → IsLawful hooks
        → IsValid parent.by_gas
        → IsValid before
        → IsBelow parent.by_gas before
        → (m.block p).header.time + 1 < u64_mod
        → before_block before hooks (m.block p).header ≡ ok worst
        → IsForeseen (m.block p) w worst g
        → (a : Attempt db chain evm) × (execute db chain evm calculate_price hooks m p max_num_txs
              parent
            ≡ ok a)
          × IsBounded m p w a
    unfolding execute
    execute-IsBounded m p n parent w before worst g lawful v v' below room moved f =
        let b = m.block p in
        let (low, high, run, run', lv, hv, started, cheaper) =
          before_block-IsBelow calculate_price price_laws parent.by_gas before hooks b.header v v'
            lawful room below in
        let e : high ≡ worst = ok-injective (sym run' ∙ moved) in
        let wv = subst IsValid e hv in
        let wb = subst (IsBelow low) e started in
        let wc =
          subst (λ (x : GasTime.Time). price calculate_price low ≤ price calculate_price x) e
            cheaper in
        let within : price calculate_price low ≤ w.max_base_fee = omega (arith, wc, f.fee) in
        let same = IsKept-refl p m in
        rw run (elim (Outcome-cases (chain.open_state parent.state_root_post)) [
          | is_panic q ↦ absurd (laws.opens parent.state_root_post q)
          | is_err why q ↦ rw q (refused-Bounds m p w m [] why same (λ h. tt))
          | is_ok s q ↦ rw q (elim (Outcome-cases (evm.before_executing_block s b)) [
            | is_panic x ↦ absurd (laws.begins s b x)
            | is_err why x ↦ rw x (refused-Bounds m p w m [] why same (λ h. tt))
            | is_ok accounts x ↦ rw x (
                run_block-Bounds m b w p n low worst g _ lv wv wb wc f refl refl (record {
                  silent = λ h.
                      rw (check_base_fee_bound-within b w (price calculate_price low) h within) tt;
                  kept = same;
                }))
          ])
        ])
