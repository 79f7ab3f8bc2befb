-- ===== src/WorstCase/Queue.antt =====
-- The queue of worstcase/state.go: its bound over a block that is started, filled and finished.
use strevm.Base.{
  mul_u64, ==_iff, ◌⊎◌, true, non_consecutive_blocks, ◌==◌, ◌≢◌, none, u64_mod, queue_full, refl,
  ◌<◌, some, ◌∙◌, ap, ◌+◌, if◌then◌else◌, ◌≤◌, sym, is_err, is_ok, is_panic, Outcome-cases,
  ok-injective, Outcome-cases, Option-cases, inr, inl, Bool-cases, add_u64, false, sub_u64, arith,
  ltb, IsU64, ok, min, ◌*◌, ◌≡◌, ℕ,
}
use strevm.Hook.{Header, Points, IsLawful}
use strevm.Hook.Ops.{StateDb, Op, apply_to}
use strevm.GasTime
use strevm.GasTime.{price, before_block}
use strevm.GasTime.Excess.{IsValid}
use strevm.GasTime.Price.{PriceLaws}
use strevm.GasTime.Block.{before_block_lowers_price}
use strevm.WorstCase.{
  admit, State, Chain, apply, burner_balances, start_block, safe_max_block_size, admitted, resized,
  max_safe_rate, max_gas_seconds_per_block,
}

-- Two full blocks may wait in the open queue, and a third may close it.
abbrev pub open_queue : ℕ → ℕ
open_queue size = 2 * size

abbrev pub closed_queue : ℕ → ℕ
closed_queue size = 3 * size

-- The maximum block size is ten seconds of gas at the rate of the clock, capped such that a full
-- closed queue fits in a word.
pub safe_max_block_size_lem :
    (clock : GasTime.Time)
    → (safe_max_block_size clock ≡ min clock.time.hertz max_safe_rate * max_gas_seconds_per_block)
      × IsU64 (closed_queue (safe_max_block_size clock))
unfolding safe_max_block_size
safe_max_block_size_lem clock = ground arith

module _ (db : StateDb) (chain : Chain db) where
  -- What no operation changes.
  pub record IsSameBlock (s t : State db chain) : Type 0 where
    pub clock : t.clock ≡ s.clock
    pub q_size : t.q_size ≡ s.q_size
    pub max_block_size : t.max_block_size ≡ s.max_block_size
    pub base_fee : t.base_fee ≡ s.base_fee
    pub curr : t.curr ≡ s.curr

  pub apply-inverts :
      (s t : State db chain) (o : Op)
      → apply db chain s o ≡ ok t
      → IsSameBlock s t
        × (ltb (sub_u64 s.max_block_size s.block_size) o.gas ≡ false)
        × (t.block_size ≡ add_u64 s.block_size o.gas)
  unfolding apply
  apply-inverts s t o = elim (Bool-cases (ltb (sub_u64 s.max_block_size s.block_size) o.gas)) [
    | inl full ↦ rw full (λ run. ground arith)
    | inr room ↦ rw room (elim (Option-cases s.base_fee) [
      | inl nil ↦ rw nil (λ run. ground arith)
      | inr (fee, started) ↦ rw started (elim (Bool-cases (ltb o.gas_fee_cap fee)) [
        | inl low ↦ rw low (λ run. ground arith)
        | inr high ↦ rw high (elim (Outcome-cases (burner_balances db chain s.accounts o.burn)) [
          | is_err e r ↦ rw r (λ run. ground arith)
          | is_panic r ↦ rw r (λ run. ground arith)
          | is_ok balances r ↦ rw r (elim (Outcome-cases (apply_to db o s.accounts)) [
            | is_err e q ↦ rw q (λ run. ground arith)
            | is_panic q ↦ rw q (λ run. ground arith)
            | is_ok accounts q ↦ rw q (λ run.
                let e = sym (ok-injective run) in
                (
                  record {
                    clock = ap (λ (x : State db chain). x.clock) e;
                    q_size = ap (λ (x : State db chain). x.q_size) e;
                    max_block_size = ap (λ (x : State db chain). x.max_block_size) e;
                    base_fee = ap (λ (x : State db chain). x.base_fee) e;
                    curr = ap (λ (x : State db chain). x.curr) e;
                  },
                  refl,
                  ap (λ (x : State db chain). x.block_size) e,
                ))
          ])
        ])
      ])
    ])
  ]

  -- The states that operations reach from a state.
  pub data Fills (s : State db chain) : State db chain → Type 1 where
    empty : Fills s s
    more : {t u : State db chain} → Fills s t → (o : Op) → apply db chain t o ≡ ok u → Fills s u

  -- Within one block nothing but the accounts, their record and the block's size changes, and the
  -- size stays within the maximum.
  pub fills_lem :
      {s t : State db chain}
      → IsU64 s.max_block_size
      → s.block_size ≤ s.max_block_size
      → Fills s t
      → IsSameBlock s t × (t.block_size ≤ s.max_block_size)
  fills_lem size_in filled empty = (
    record { clock = refl; q_size = refl; max_block_size = refl; base_fee = refl; curr = refl },
    filled,
  )
  fills_lem {s = s} size_in filled (more {t = t} {u = u} before o run) =
      let (same, full) = fills_lem size_in filled before in
      let (next, room, size) = apply-inverts t u o run in
      (
        record {
          clock = next.clock ∙ same.clock;
          q_size = next.q_size ∙ same.q_size;
          max_block_size = next.max_block_size ∙ same.max_block_size;
          base_fee = next.base_fee ∙ same.base_fee;
          curr = next.curr ∙ same.curr;
        },
        ground (arith, room, size, same.max_block_size),
      )

  module _ (calculate_price : ℕ → ℕ → ℕ → ℕ) (laws : PriceLaws calculate_price) where
    -- What `StartBlock` does with a header that follows, for the clock that it moves to.
    pub record IsStarted (s : State db chain) (h : Header) (hooks : Points) (clock : GasTime.Time)
        : Type 0 where
      pub follows : h.parent_hash ≡ s.expected_parent_hash
      pub moved : before_block s.clock hooks h ≡ ok clock
      pub valid : IsValid clock
      pub cheaper : price calculate_price clock ≤ price calculate_price s.clock

    start_block-eq :
        (s : State db chain) (h : Header) (hooks : Points) (clock : GasTime.Time)
        → h.parent_hash ≡ s.expected_parent_hash
        → before_block s.clock hooks h ≡ ok clock
        → start_block db chain calculate_price hooks s h
          ≡ ok (
              if ltb (open_queue (safe_max_block_size clock)) s.q_size
              then (resized db chain calculate_price hooks s clock, some queue_full)
              else (
                admitted db chain calculate_price hooks
                    (resized db chain calculate_price hooks s clock)
                    h,
                none,
              ))
    unfolding start_block admit
    start_block-eq s h hooks clock follows moved =
        let same : (h.parent_hash == s.expected_parent_hash) ≡ true =
          (==_iff h.parent_hash s.expected_parent_hash).1 follows in
        let size_fits : mul_u64 2 (safe_max_block_size clock)
            ≡ open_queue (safe_max_block_size clock) =
          omega (arith, (safe_max_block_size_lem clock).1) in
        rw (same, moved, size_fits) refl

    start_block-other :
        (s : State db chain) (h : Header) (hooks : Points)
        → (h.parent_hash == s.expected_parent_hash) ≡ false
        → start_block db chain calculate_price hooks s h ≡ ok (s, some non_consecutive_blocks)
    unfolding start_block
    start_block-other s h hooks other = rw other refl

    -- `StartBlock` never panics for a header whose time is below the last second of uint64. It
    -- returns an error, and leaves the state, for a header that does not follow. Otherwise the clock
    -- moves and the price does not rise; the block is refused exactly when more gas is queued than
    -- two blocks of the maximum size.
    pub start_block_lem :
        (s : State db chain) (h : Header) (hooks : Points)
        → IsValid s.clock
        → IsLawful hooks
        → h.time + 1 < u64_mod
        → ((h.parent_hash ≢ s.expected_parent_hash)
            × (start_block db chain calculate_price hooks s h
                ≡ ok (s, some non_consecutive_blocks)))
          ⊎ ((clock : GasTime.Time) × IsStarted s h hooks clock
              × (((open_queue (safe_max_block_size clock) < s.q_size)
                    × (start_block db chain calculate_price hooks s h
                        ≡ ok (resized db chain calculate_price hooks s clock, some queue_full)))
                  ⊎ ((s.q_size ≤ open_queue (safe_max_block_size clock))
                      × (start_block db chain calculate_price hooks s h
                          ≡ ok (
                            admitted db chain calculate_price hooks
                                (resized db chain calculate_price hooks s clock)
                                h,
                            none,
                          )))))
    start_block_lem s h hooks v lawful room =
        elim (Bool-cases (h.parent_hash == s.expected_parent_hash)) [
          | inr other ↦ inl ((λ same. ground (arith, other)), start_block-other s h hooks other)
          | inl same ↦
              let follows : h.parent_hash ≡ s.expected_parent_hash = ground (arith, same) in
              let (clock, moved, valid, forward, excess, cheaper) =
                before_block_lowers_price calculate_price laws s.clock hooks h v lawful room in
              rw (start_block-eq s h hooks clock follows moved) (
                inr (
                  clock,
                  record { follows = follows; moved = moved; valid = valid; cheaper = cheaper },
                  elim (Bool-cases (ltb (open_queue (safe_max_block_size clock)) s.q_size)) [
                    | inl full ↦ rw full (inl (ground (arith, full), refl))
                    | inr free ↦ rw free (inr (ground (arith, free), refl))
                  ],
                ))
        ]
