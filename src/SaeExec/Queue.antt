-- ===== src/SaeExec/Queue.antt =====
-- `Executor` of saexec/execution.go: the execution of the next block, and the queue.
use strevm.GasTime.{before_block}
use strevm.Blocks.Settlement.{parent_block}
use strevm.SaeExec.Refine.{IsForeseen, execute-IsBounded, IsBounded}
use strevm.Base.{
  ◌>>=◌, Option, unexpected_parent, u64_mod, ◌+◌, false, panic, ◌==◌, Bool-cases, ==_iff, arith,
  ◌^◌, sym, ◌⊎◌, ◌<◌, ◌∙◌, Error, ◌≢◌, ◌≤◌, ap, Outcome, ◌≡◌, ℕ, refl, is_ok, is_err, is_panic,
  Outcome-cases, ok, some, none, inl, inr, true,
}
use mathlib.Core.Path.{subst}
use mathlib.Core.List.{map}
use strevm.GasTime.Below.{IsBelow}
use strevm.GasTime.Excess.{IsValid}
use strevm.GasTime.Price.{PriceLaws}
use strevm.GasTime
use strevm.Hook.{IsLawful, Points}
use strevm.Hook.Ops.{StateDb, StateDbLaws}
use strevm.Blocks.{Memory, Block, WorstCaseBounds, ExecutionResults}
use strevm.Blocks.Execution.{Database, DatabaseLaws, World}
use strevm.Blocks.Execution.Marked.{IsOpen, IsStored, executed_at, results, mark_executed_lem}
use strevm.WorstCase.{Chain, deref}
use strevm.SaeExec.{
  execute_after, execute_next, execute, Attempt, settle_attempt, execute_next, parent_results,
  max_int, Evm, Executed, after_execution,
}
use strevm.SaeExec.Progressed.{IsKept}
use strevm.SaeExec.Loops.{EvmLaws}

module _ (db : StateDb) (chain : Chain db) (evm : Evm db) (states : StateDbLaws db)
    (laws : EvmLaws db chain evm) (calculate_price : ℕ → ℕ → ℕ → ℕ)
    (price_laws : PriceLaws calculate_price) (hooks : Points) (store_db : Database)
    (store_laws : DatabaseLaws store_db) where
  -- The block at `p` is executed: in memory, as the last executed one, and on disk, with results
  -- within the bounds of the worst case.
  pub record IsNext (m : Memory) (p : ℕ) (w : WorstCaseBounds) (d' : store_db.Disk) (m' : Memory)
      (e : ExecutionResults) : Type 0 where
    pub fresh : (m.block p).execution ≡ none
    pub last : m'.last_executed ≡ some p
    pub marked : (m'.block p).execution ≡ some e
    pub others : (q : ℕ) → q ≢ p → m'.block q ≡ m.block q
    pub stored : IsStored store_db store_laws d' (m.block p) e
    pub cheap : e.base_fee ≤ w.max_base_fee
    pub valid : IsValid e.by_gas
    pub early : IsBelow e.by_gas w.latest_end_time

  -- An error, with the memory kept, or the block executed.
  abbrev pub Advances : Memory → ℕ → WorstCaseBounds → Outcome (World store_db) → Type 0
  Advances m p w run =
      ((d' : store_db.Disk) × (m' : Memory) × (why : Error) × (run ≡ ok (d', m', some why))
        × IsKept p m m')
      ⊎ ((d' : store_db.Disk) × (m' : Memory) × (e : ExecutionResults) × (run ≡ ok (d', m', none))
          × IsNext m p w d' m' e)

  kept-IsOpen : (m m' : Memory) (p : ℕ) → IsKept p m m' → IsOpen (m.block p) → IsOpen (m'.block p)
  kept-IsOpen m m' p k o fresh =
      ap (λ (b : Block). b.executed) k.this
      ∙ o (sym (ap (λ (b : Block). b.execution) k.this) ∙ fresh)

  after_execution-Advances :
      (d : store_db.Disk) (m m' : Memory) (p : ℕ) (w : WorstCaseBounds) (r : Executed db)
      → IsKept p m m'
      → IsOpen (m.block p)
      → r.base_fee ≤ w.max_base_fee
      → w.max_base_fee < 2 ^ 256
      → IsValid r.finish_by × IsBelow r.finish_by w.latest_end_time
      → Advances m p w (after_execution db chain evm calculate_price hooks store_db d m' p r)
  unfolding after_execution
  after_execution-Advances d m m' p w r k o cheap fits (valid, early) =
      let b = m'.block p in
      elim (Outcome-cases (evm.commit r.state_db b.header.number)) [
        | is_panic e ↦ absurd (laws.commits r.state_db b.header.number e)
        | is_err why e ↦ rw (e, after_execution) (inl (d, m', why, refl, k))
        | is_ok root e ↦
            rw (e, after_execution)
              (elim (Outcome-cases (evm.maybe_commit b.header.root root b.header.number)) [
                | is_panic x ↦ absurd (laws.may_commit b.header.root root b.header.number x)
                | is_err why x ↦ rw x (inl (d, m', why, refl, k))
                | is_ok u x ↦
                    rw x
                      (elim (mark_executed_lem store_db store_laws d m' p r.finish_by r.base_fee
                        (map evm.encode r.receipts) root true (kept-IsOpen m m' p k o)
                        (omega (arith, cheap, fits))) [
                          | inl (d', why, run) ↦ inl (d', m', why, run, k)
                          | inr (d', run, fresh, stored) ↦
                              let e =
                                results store_db store_laws r.finish_by r.base_fee
                                  (map evm.encode r.receipts) root in
                              inr (
                                d',
                                executed_at m' p e true,
                                e,
                                run,
                                record {
                                  fresh = sym (ap (λ (c : Block). c.execution) k.this) ∙ fresh;
                                  last = refl;
                                  marked = rw ((==_iff p p).1 refl) refl;
                                  others = λ q ne. elim (Bool-cases (q == p)) [
                                    | inl same ↦ absurd (ne ((==_iff q p).0 same))
                                    | inr other ↦ rw other (k.others q ne)
                                  ];
                                  stored =
                                      subst (λ (c : Block). IsStored store_db store_laws d' c e)
                                        k.this stored;
                                  cheap = cheap;
                                  valid = valid;
                                  early = early;
                                },
                              )
                        ])
              ])
      ]

  settle_attempt-Advances :
      (d : store_db.Disk) (m : Memory) (p : ℕ) (w : WorstCaseBounds) (a : Attempt db chain evm)
      → IsBounded db chain evm m p w a
      → IsOpen (m.block p)
      → w.max_base_fee < 2 ^ 256
      → a.result ≢ panic
      → Advances m p w (settle_attempt db chain evm calculate_price hooks store_db d p a)
  unfolding settle_attempt
  settle_attempt-Advances d m p w a bounded o fits returns = elim (Outcome-cases a.result) [
    | is_panic e ↦ absurd (returns e)
    | is_err why e ↦ rw (e, settle_attempt) (inl (d, a.memory, why, refl, bounded.kept))
    | is_ok r e ↦
        rw (e, settle_attempt)
          (after_execution-Advances d m a.memory p w r bounded.kept o (bounded.cheap r e) fits
            (bounded.early r e))
  ]

  parent_results-eq :
      (m : Memory) (p q : ℕ) (parent : ExecutionResults)
      → parent_block m p ≡ some q
      → (m.block q).execution ≡ some parent
      → parent_results db chain evm calculate_price hooks store_db m p ≡ ok parent
  unfolding parent_results
  parent_results-eq m p q parent up there = rw (up, parent_results) (rw there refl)

  execute_after-eq :
      (d : store_db.Disk) (m : Memory) (p last : ℕ) (parent : ExecutionResults)
      (a : Attempt db chain evm)
      → ((m.block last).hash == (m.block p).header.parent_hash) ≡ true
      → parent_results db chain evm calculate_price hooks store_db m p ≡ ok parent
      → execute db chain evm calculate_price hooks m p max_int parent ≡ ok a
      → execute_after db chain evm calculate_price hooks store_db d m p last
        ≡ settle_attempt db chain evm calculate_price hooks store_db d p a
  unfolding execute_after
  execute_after-eq d m p last parent a follows there run =
      rw (follows, execute_after) (rw (there, parent_results) (rw (run, execute) refl))

  execute_next-tip :
      (d : store_db.Disk) (m : Memory) (p last : ℕ)
      → m.last_executed ≡ some last
      → execute_next db chain evm calculate_price hooks store_db d m p
        ≡ execute_after db chain evm calculate_price hooks store_db d m p last
  unfolding execute_next
  execute_next-tip d m p last tip =
      ap
        (λ (o : Option ℕ).
          deref o >>= λ q. execute_after db chain evm calculate_price hooks store_db d m p q)
        tip

  refuses :
      (d : store_db.Disk) (m : Memory) (p last : ℕ)
      → ((m.block last).hash == (m.block p).header.parent_hash) ≡ false
      → execute_after db chain evm calculate_price hooks store_db d m p last
        ≡ ok (d, m, some unexpected_parent)
  unfolding execute_after
  refuses d m p last other = rw (other, execute_after) refl

  -- The executor refuses a block that is not built on the last executed one, and leaves everything as
  -- it is. One that is, whose parent is executed with a clock below that of the worst case, never
  -- makes it panic: it returns an error and keeps the memory but for the interim time of the
  -- block, or the block is executed once, within the bounds of the worst case.
  pub execute_next-Advances :
      (d : store_db.Disk) (m : Memory) (p last q : ℕ) (parent : ExecutionResults)
      (w : WorstCaseBounds) (before worst : GasTime.Time) (g : ℕ)
      → IsLawful hooks
      → m.last_executed ≡ some last
      → parent_block m p ≡ some q
      → (m.block q).execution ≡ some parent
      → IsOpen (m.block p)
      → IsValid parent.by_gas
      → IsValid before
      → IsBelow parent.by_gas before
      → (m.block p).header.time + 1 < u64_mod
      → before_block before hooks (m.block p).header ≡ ok worst
      → IsForeseen db chain evm states laws calculate_price price_laws hooks (m.block p) w worst g
      → w.max_base_fee < 2 ^ 256
      → (((m.block last).hash ≢ (m.block p).header.parent_hash)
          × (execute_next db chain evm calculate_price hooks store_db d m p
              ≡ ok (d, m, some unexpected_parent)))
        ⊎ (((m.block last).hash ≡ (m.block p).header.parent_hash)
            × Advances m p w (execute_next db chain evm calculate_price hooks store_db d m p))
  execute_next-Advances d m p last q parent w before worst g lawful tip up there o v v' below room
        moved f fits =
      elim (Bool-cases ((m.block last).hash == (m.block p).header.parent_hash)) [
        | inr other ↦ inl (
          λ e. ground (arith, (==_iff _ _).1 e, other),
          execute_next-tip d m p last tip ∙ refuses d m p last other,
        )
        | inl same ↦
            let (a, run, bounded) =
              execute-IsBounded db chain evm states laws calculate_price price_laws hooks m p
                max_int parent w before worst g lawful v v' below room moved f in
            let ran =
              execute_next-tip d m p last tip
              ∙ execute_after-eq d m p last parent a same (parent_results-eq m p q parent up there)
                  run in
            inr (
              (==_iff (m.block last).hash (m.block p).header.parent_hash).0 same,
              subst (Advances m p w) (sym ran)
                  (settle_attempt-Advances d m p w a bounded o fits bounded.returns),
            )
      ]
