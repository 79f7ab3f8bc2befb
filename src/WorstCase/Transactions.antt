-- ===== src/WorstCase/Transactions.antt =====
-- What `ApplyTx`, and several of them, and several operations, leave of a block of worstcase/state.go.
use strevm.Base.{
  refl, ◌&&◌, ◌==◌, not, fail_if, sender_no_eoa, inr, ◌-◌, arith, ap, ◌≤◌, ◌+◌, inl, IsU64, ◌∙◌,
  ◌≡◌, ℕ, ok, bind_inverts, ok-injective, sym,
}
use mathlib.Core.Path.{subst}
use strevm.Hook.Ops.{StateDb, Op}
use strevm.WorstCase.{State, Chain, Transaction, tx_to_op, apply, apply_tx, deref}
use strevm.WorstCase.Cost.{tx_to_op_lem}
use strevm.WorstCase.Queue.{IsSameBlock, apply-inverts}

tx_to_op-gas :
    (from : ℕ) (tx : Transaction) (fee : ℕ) (o : Op) → tx_to_op from tx fee ≡ ok o → o.gas ≡ tx.gas
tx_to_op-gas from tx fee o run = elim (tx_to_op_lem from tx fee) [
  | inl (payable, (o', run', burn, mint, gas, bounds, covers)) ↦
      sym (ap (λ (x : Op). x.gas) (ok-injective (sym run' ∙ run))) ∙ gas
  | inr (unpayable, (e, run')) ↦ absurd (ground (arith, sym run' ∙ run))
]

module _ (db : StateDb) (chain : Chain db) where
  -- A transaction that is applied is an operation of the same gas.
  pub apply_tx-inverts :
      (s t : State db chain) (tx : Transaction)
      → apply_tx db chain s tx ≡ ok t
      → (o : Op) × (apply db chain s o ≡ ok t) × (o.gas ≡ tx.gas)
  unfolding apply_tx
  apply_tx-inverts s t tx run =
      let code_hash = db.get_code_hash s.accounts in
      let (u1, e1, run1) = bind_inverts (chain.validate_transaction tx s.curr s.signer) _ t run in
      let (from, e2, run2) = bind_inverts (chain.sender s.signer tx) _ t run1 in
      let (u3, e3, run3) =
        bind_inverts
          (fail_if (not (code_hash from == 0) && not (code_hash from == chain.empty_code_hash))
            sender_no_eoa)
          _ t run2 in
      let (u4, e4, run4) =
        bind_inverts (chain.can_execute_transaction from tx.to s.accounts) _ t run3 in
      let (fee, e5, run5) = bind_inverts (deref s.base_fee) _ t run4 in
      let (o, e6, run6) = bind_inverts (tx_to_op from tx fee) _ t run5 in
      (o, run6, tx_to_op-gas from tx fee o e6)

  pub IsSameBlock-trans :
      (s t u : State db chain)
      → IsSameBlock db chain s t
      → IsSameBlock db chain t u
      → IsSameBlock db chain s u
  IsSameBlock-trans s t u a b = record {
    clock = b.clock ∙ a.clock;
    q_size = b.q_size ∙ a.q_size;
    max_block_size = b.max_block_size ∙ a.max_block_size;
    base_fee = b.base_fee ∙ a.base_fee;
    curr = b.curr ∙ a.curr;
  }

  -- The block after some gas is added within its maximum.
  pub record Grows (gas : ℕ) (s t : State db chain) : Type 0 where
    pub same : IsSameBlock db chain s t
    pub size : t.block_size ≡ s.block_size + gas
    pub filled : t.block_size ≤ t.max_block_size

  pub Grows-refl : (s t : State db chain) → s ≡ t → s.block_size ≤ s.max_block_size → Grows 0 s t
  Grows-refl s t e filled = subst (Grows 0 s) e (record {
    same = record {
      clock = refl;
      q_size = refl;
      max_block_size = refl;
      base_fee = refl;
      curr = refl;
    };
    size = omega arith;
    filled = filled;
  })

  pub Grows-trans :
      (g g' : ℕ) (s t u : State db chain) → Grows g s t → Grows g' t u → Grows (g + g') s u
  Grows-trans g g' s t u a b = record {
    same = IsSameBlock-trans s t u a.same b.same;
    size = omega (arith, a.size, b.size);
    filled = b.filled;
  }

  pub apply-Grows :
      (s t : State db chain) (o : Op)
      → IsU64 s.max_block_size
      → s.block_size ≤ s.max_block_size
      → apply db chain s o ≡ ok t
      → Grows o.gas s t
  apply-Grows s t o size_in filled run =
      let (same, room, size) = apply-inverts db chain s t o run in
      let le : o.gas ≤ s.max_block_size - s.block_size = ground (arith, room) in
      let sum : t.block_size ≡ s.block_size + o.gas = omega (arith, size, le) in
      record { same = same; size = sum; filled = omega (arith, sum, le, same.max_block_size) }
