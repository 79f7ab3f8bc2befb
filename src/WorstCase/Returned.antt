-- ===== src/WorstCase/Returned.antt =====
-- What `StartBlock` and `FinishBlock` of worstcase/state.go have done when they return no error.
use strevm.Base.{
  Option-cases, Outcome, mul_u64, ◌∙◌, Error, ltb, ap, ==_iff, arith, ◌≡◌, ℕ, Option, refl, ok,
  some, none, bind_inverts, ok-injective, sym, inl, inr, Bool-cases, ◌==◌,
}
use strevm.Params.{max_full_blocks_in_open_queue}
use strevm.GasTime
use strevm.GasTime.{before_block, after_block}
use strevm.Hook.{Header, Points}
use strevm.Hook.Ops.{StateDb}
use strevm.Blocks.{Block, ExecutionResults, WorstCaseBounds}
use strevm.WorstCase.{
  new_state, State, Chain, start_block, finish_block, finish, admit, admitted, resized, deref,
}

pub deref_inverts {ℓ} : {A : Type ℓ} (o : Option A) (a : A) → deref o ≡ ok a → o ≡ some a
deref_inverts none a run = absurd (ground arith)
deref_inverts (some b) a run = ap some (ok-injective run)

module _ (db : StateDb) (chain : Chain db) (calculate_price : ℕ → ℕ → ℕ → ℕ) (hooks : Points) where
  admit-inverts :
      (s t : State db chain) (h : Header)
      → admit db chain calculate_price hooks s h ≡ (t, none)
      → admitted db chain calculate_price hooks s h ≡ t
  unfolding admit
  admit-inverts s t h =
      elim (Bool-cases (ltb (mul_u64 max_full_blocks_in_open_queue s.max_block_size) s.q_size)) [
        | inl full ↦
            rw full
              (λ run. absurd (ground (arith, ap (λ (x : State db chain × Option Error). x.1) run)))
        | inr free ↦ rw free (λ run. ap (λ (x : State db chain × Option Error). x.0) run)
      ]

  finish-inverts :
      (s t : State db chain) (w : WorstCaseBounds) (fee : ℕ) (clock : GasTime.Time)
      (why : Option Error)
      → finish db chain calculate_price hooks s fee (clock, why) ≡ (t, ok w)
      → (why ≡ none) × (clock ≡ t.clock) × (t.expected_parent_hash ≡ s.expected_parent_hash)
  unfolding finish
  finish-inverts s t w fee clock (some e) run =
      absurd (ground (arith, ap (λ (x : State db chain × Outcome WorstCaseBounds). x.1) run))
  finish-inverts s t w fee clock none run =
      let e = ap (λ (x : State db chain × Outcome WorstCaseBounds). x.0) run in
      (
        refl,
        ap (λ (x : State db chain). x.clock) e,
        sym (ap (λ (x : State db chain). x.expected_parent_hash) e),
      )

  pub start_block-inverts :
      (s t : State db chain) (h : Header)
      → start_block db chain calculate_price hooks s h ≡ ok (t, none)
      → (clock : GasTime.Time) × (before_block s.clock hooks h ≡ ok clock)
        × (h.parent_hash ≡ s.expected_parent_hash)
        × (admitted db chain calculate_price hooks
              (resized db chain calculate_price hooks s clock)
              h
            ≡ t)
  unfolding start_block admit
  start_block-inverts s t h = elim (Bool-cases (h.parent_hash == s.expected_parent_hash)) [
    | inr other ↦ rw other (λ run.
        absurd (ground (arith, ap (λ (x : State db chain × Option Error). x.1) (ok-injective run))))
    | inl same ↦ rw same (λ run.
        let (clock, moved, later) = bind_inverts (before_block s.clock hooks h) _ _ run in
        (
          clock,
          moved,
          (==_iff h.parent_hash s.expected_parent_hash).0 same,
          admit-inverts (resized db chain calculate_price hooks s clock) t h (ok-injective later),
        ))
  ]

  -- The clock of the state at the end is that of the bounds.
  pub finish_block-inverts :
      (s t : State db chain) (w : WorstCaseBounds)
      → finish_block db chain calculate_price hooks s ≡ ok (t, ok w)
      → (h : Header) × (fee : ℕ) × (s.curr ≡ some h)
        × (s.base_fee ≡ some fee)
        × (after_block calculate_price s.clock s.block_size hooks h ≡ ok (t.clock, none))
        × (t.expected_parent_hash ≡ s.expected_parent_hash)
  unfolding finish_block
  finish_block-inverts s t w run =
      let (h, e1, run1) = bind_inverts (deref s.curr) _ (t, ok w) run in
      let (fee, e2, run2) = bind_inverts (deref s.base_fee) _ (t, ok w) run1 in
      let ((clock, why), e3, run3) =
        bind_inverts (after_block calculate_price s.clock s.block_size hooks h) _ (t, ok w) run2 in
      let (fine, ended, kept) = finish-inverts s t w fee clock why (ok-injective run3) in
      (
        h,
        fee,
        deref_inverts s.curr h e1,
        deref_inverts s.base_fee fee e2,
        e3
            ∙ ap (λ (x : GasTime.Time). ok (x, why)) ended
            ∙ ap (λ (o : Option Error). ok (t.clock, o)) fine,
        kept,
      )

-- The state starts at the clock of the block, which is executed.
pub new_state-inverts :
    (db : StateDb) (chain : Chain db) (b : Block) (s : State db chain)
    → new_state db chain b ≡ ok s
    → (e : ExecutionResults) × (b.execution ≡ some e) × (e.by_gas ≡ s.clock)
unfolding new_state
new_state-inverts db chain b s = elim (Option-cases b.execution) [
  | inl none_yet ↦ rw (none_yet, new_state) (λ run. absurd (ground arith))
  | inr (e, executed) ↦
      rw (executed, new_state)
        (λ run.
          let (accounts, opened, made) =
            bind_inverts (chain.open_state e.state_root_post) _ s run in
          (e, refl, ap (λ (x : State db chain). x.clock) (ok-injective made)))
]
