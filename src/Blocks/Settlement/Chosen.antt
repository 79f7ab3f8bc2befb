-- ===== src/Blocks/Settlement/Chosen.antt =====
-- `LastToSettleAt` of blocks/settlement.go against the two criteria in its comments.

use strevm.Blocks.Settlement.Parents.{parent_of_unsettled}
use mathlib.Core.Path.{subst}
use mathlib.Core.Option.{some-injective}
use strevm.Blocks.Chain.{IsChain, ancestor}
use strevm.Base.{
  zero, ◌∙◌, sym, ok, refl, arith, ◌<◌, suc, ◌⊎◌, Bool, Bool-cases, Option-cases, ℕ, ◌≡◌, true,
  false, none, some, inl, inr,
}
use strevm.ProxyTime
use strevm.ProxyTime.{nanoseconds_per_second, Instant, compare_time}
use strevm.Hook.{Points}
use strevm.Blocks.{height, Memory, ExecutionResults}
use strevm.Blocks.Settlement.{
  settle_loop, parent_block, judge, judge_execution, interim_after, Verdict, already, late, done,
  unknown, is_settled, instant_after, precise_time, is_gt,
}

module _ (hooks : Points) (m : Memory) (settle_at : Instant) (gas : ProxyTime.Time) where
  -- The block has finished its execution by the time of settlement, having started by then.
  pub record EndsInTime (p : ℕ) : Type 0 where
    pub results : ExecutionResults
    pub executed : (m.block p).execution ≡ some results
    pub in_time : is_gt (compare_time results.by_gas.time gas) ≡ false
    pub started : instant_after (precise_time hooks (m.block p).header) settle_at ≡ false

  -- The block is known not to finish by then: it starts later, or its execution has gone past.
  pub data EndsLate (p : ℕ) : Type 0 where
    starts_late :
        instant_after (precise_time hooks (m.block p).header) settle_at ≡ true → EndsLate p
    interim_late :
        (t : ProxyTime.Time)
        → (m.block p).interim_execution_time ≡ some t
        → is_gt (compare_time t gas) ≡ true
        → EndsLate p
    executed_late :
        (e : ExecutionResults)
        → (m.block p).execution ≡ some e
        → is_gt (compare_time e.by_gas.time gas) ≡ true
        → EndsLate p

  -- The block is not executed, and nothing rules out yet that it ends in time.
  pub record IsPending (p : ℕ) : Type 0 where
    pub not_executed : (m.block p).execution ≡ none
    pub started : instant_after (precise_time hooks (m.block p).header) settle_at ≡ false

  -- What the verdict on a block says of it.
  abbrev Means : ℕ → Verdict → Type 0
  Means p already = is_settled m p ≡ true
  Means p late = (is_settled m p ≡ false) × EndsLate p
  Means p done = (is_settled m p ≡ false) × EndsInTime p
  Means p unknown = (is_settled m p ≡ false) × IsPending p

  execution-Means :
      (p : ℕ)
      → is_settled m p ≡ false
      → instant_after (precise_time hooks (m.block p).header) settle_at ≡ false
      → Means p (judge_execution hooks m settle_at gas (m.block p))
  unfolding judge_execution
  execution-Means p open_p start = elim (Option-cases (m.block p).execution) [
    | inl pending ↦ rw pending (open_p, record { not_executed = pending; started = start })
    | inr (e, run) ↦ rw run (elim (Bool-cases (is_gt (compare_time e.by_gas.time gas))) [
      | inl over ↦ rw over (open_p, executed_late e run over)
      | inr in_time ↦
          rw in_time
            (open_p, record { results = e; executed = run; in_time = in_time; started = start })
    ])
  ]

  interim-Means :
      (p : ℕ)
      → is_settled m p ≡ false
      → interim_after hooks m settle_at gas (m.block p).interim_execution_time ≡ true
      → Means p late
  unfolding interim_after
  interim-Means p open_p over = elim (Option-cases (m.block p).interim_execution_time) [
    | inl unset ↦ cc
    | inr (t, set) ↦ (open_p, interim_late t set (rw set at over))
  ]

  judge-Means : (p : ℕ) → Means p (judge hooks m settle_at gas p)
  unfolding judge
  judge-Means p = elim (Bool-cases (is_settled m p)) [
    | inl closed ↦ rw closed closed
    | inr open_p ↦
        rw open_p
          (elim (Bool-cases (instant_after (precise_time hooks (m.block p).header) settle_at)) [
            | inl after ↦ rw after (open_p, starts_late after)
            | inr start ↦
                rw start
                  (elim (Bool-cases
                    (interim_after hooks m settle_at gas (m.block p).interim_execution_time)) [
                      | inl over ↦ rw over (interim-Means p open_p over)
                      | inr not_over ↦ rw not_over (execution-Means p open_p start)
                    ])
          ])
  ]

  -- `b` is the block to settle below `parent`, with `known` as the loop that began with `start`
  -- reports it: it is settled or ends in time, and no block passed over on the way does.
  pub record IsLastToSettle (parent b : ℕ) (start known : Bool) : Type 0 where
    pub depth : ℕ
    pub reached : ancestor m depth parent ≡ some b
    pub final : (is_settled m b ≡ true) ⊎ EndsInTime b
    pub passed :
        (i q : ℕ)
        → i < depth
        → ancestor m i parent ≡ some q
        → (is_settled m q ≡ false) × (EndsLate q ⊎ IsPending q)
    pub direct : depth ≡ 0 → known ≡ start
    pub certain :
        known ≡ true → (i q : ℕ) → suc i ≡ depth → ancestor m i parent ≡ some q → EndsLate q
    pub uncertain :
        known ≡ false → (i q : ℕ) → suc i ≡ depth → ancestor m i parent ≡ some q → IsPending q

  chosen_here :
      (p : ℕ) (start : Bool)
      → (is_settled m p ≡ true) ⊎ EndsInTime p
      → IsLastToSettle p p start start
  chosen_here p start final = record {
    depth = 0;
    reached = refl;
    final = final;
    passed = λ i q lt e. absurd (omega arith);
    direct = λ e. refl;
    certain = λ k i q e a. absurd (omega arith);
    uncertain = λ k i q e a. absurd (omega arith);
  }

  -- A fact about the block just below the chosen one, where one more block is passed over.
  below_chosen :
      (P : ℕ → Type 0) (p q n : ℕ)
      → parent_block m p ≡ some q
      → (n ≡ 0 → P p)
      → ((i x : ℕ) → suc i ≡ n → ancestor m i q ≡ some x → P x)
      → (i x : ℕ) → suc i ≡ suc n
      → ancestor m i p ≡ some x
      → P x
  below_chosen P p q n parent first rest zero x e a =
      subst P (some-injective _ _ a) (first (omega arith))
  below_chosen P p q n parent first rest (suc i) x e a =
      rest i x (omega arith) (rw (parent, ancestor) at a)

  chosen_above :
      (p q b : ℕ) (start start' known : Bool)
      → parent_block m p ≡ some q
      → is_settled m p ≡ false
      → EndsLate p ⊎ IsPending p
      → (start' ≡ true → EndsLate p)
      → (start' ≡ false → IsPending p)
      → IsLastToSettle q b start' known
      → IsLastToSettle p b start known
  chosen_above p q b start start' known parent open_p how late_p pending_p c = record {
    depth = suc c.depth;
    reached = rw (parent, ancestor) c.reached;
    final = c.final;
    passed = λ i x lt a. passed_step i x lt a;
    direct = λ e. absurd (omega arith);
    certain = λ k.
        below_chosen EndsLate p q c.depth parent (λ e. late_p (sym (c.direct e) ∙ k)) (c.certain k);
    uncertain = λ k.
        below_chosen IsPending p q c.depth parent (λ e. pending_p (sym (c.direct e) ∙ k))
          (c.uncertain k);
  }
    where
      passed_step :
          (i x : ℕ)
          → i < suc c.depth
          → ancestor m i p ≡ some x
          → (is_settled m x ≡ false) × (EndsLate x ⊎ IsPending x)
      passed_step zero x lt a =
          subst (λ (y : ℕ). (is_settled m y ≡ false) × (EndsLate y ⊎ IsPending y))
            (some-injective _ _ a) (open_p, how)
      passed_step (suc i) x lt a = c.passed i x (omega arith) (rw (parent, ancestor) at a)

  -- The loop on this fuel ends without an error, at the block to settle.
  abbrev Settles : ℕ → ℕ → Bool → Type 0
  Settles fuel p start =
      (b : ℕ) × (known : Bool) × (settle_loop hooks m settle_at gas fuel (some p) start
        ≡ some (ok (some b, known)))
      × IsLastToSettle p b start known

  -- A block is passed over, and the loop goes on from its parent.
  settle_parent :
      (fuel p : ℕ) (start start' : Bool)
      → IsChain m
      → is_settled m p ≡ false
      → height m p < suc fuel
      → EndsLate p ⊎ IsPending p
      → (start' ≡ true → EndsLate p)
      → (start' ≡ false → IsPending p)
      → settle_loop hooks m settle_at gas (suc fuel) (some p) start
        ≡ settle_loop hooks m settle_at gas fuel (parent_block m p) start'
      → ((q : ℕ) → height m q < fuel → Settles fuel q start')
      → Settles (suc fuel) p start
  settle_parent fuel p start start' chain open_p lt how late_p pending_p step rec =
      let (q, parent, lower) = parent_of_unsettled m p chain open_p in
      let (b, known, run, c) = rec q (omega arith) in
      (
        b,
        known,
        step ∙ rw parent run,
        chosen_above p q b start start' known parent open_p how late_p pending_p c,
      )

  settle_by_verdict :
      (fuel p : ℕ) (start : Bool) (v : Verdict)
      → judge hooks m settle_at gas p ≡ v
      → Means p v
      → IsChain m
      → height m p < suc fuel
      → ((q : ℕ) (start' : Bool) → height m q < fuel → Settles fuel q start')
      → Settles (suc fuel) p start
  unfolding settle_loop
  settle_by_verdict fuel p start already e settled_p chain lt rec =
      (p, start, rw (e, settle_loop) refl, chosen_here p start (inl settled_p))
  settle_by_verdict fuel p start done e (open_p, ends) chain lt rec =
      (p, start, rw (e, settle_loop) refl, chosen_here p start (inr ends))
  settle_by_verdict fuel p start late e (open_p, ends) chain lt rec =
      settle_parent fuel p start true chain open_p lt (inl ends) (λ k. ends) (λ k. cc)
        (rw (e, settle_loop) refl) (λ q low. rec q true low)
  settle_by_verdict fuel p start unknown e (open_p, pending) chain lt rec =
      settle_parent fuel p start false chain open_p lt (inr pending) (λ k. cc) (λ k. pending)
        (rw (e, settle_loop) refl) (λ q low. rec q false low)

  -- The loop ends within the height of the block that it starts from, at the block to settle.
  pub settle_loop_lem :
      (fuel p : ℕ) (start : Bool) → IsChain m → height m p < fuel → Settles fuel p start
  settle_loop_lem zero p start chain lt = absurd (omega arith)
  settle_loop_lem (suc fuel) p start chain lt =
      settle_by_verdict fuel p start (judge hooks m settle_at gas p) refl (judge-Means p) chain lt
        (λ q start' low. settle_loop_lem fuel q start' chain low)
