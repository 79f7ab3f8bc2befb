-- ===== src/SaeExec/Loops.antt =====
-- The loops of `Execute` in saexec/execution.go, over the transactions and over the operations at the
-- end of the block: how much gas and time they take.
use strevm.Base.{
  Outcome, ◌>>=◌, fatal_execution_error, some, inl, refl, inr, ◌++◌, Option-cases, [], ◌≢◌, arith,
  ◌+◌, ◌∷◌, ◌≤◌, ℕ, List, ◌≡◌, ok, panic, none, Option, Error, Run, and_then, is_ok, is_err,
  is_panic, Outcome-cases,
}
use strevm.Hook.{Header}
use strevm.Hook.Ops.{StateDb, StateDbLaws, Op, apply_to}
use strevm.Hook.Ops.Balances.{apply_to-ne-panic}
use strevm.Blocks.{Block}
use strevm.Blocks.LifeCycle.{check_op_burner_balance_bounds}
use strevm.Blocks.LifeCycle.Silent.{NotBaseFee, check_burners-NotBaseFee}
use strevm.WorstCase.{Transaction, Chain}
use strevm.SaeExec.{
  apply_op, Receipt, Evm, Progress, sender_bound, complete, burners, execute_tx, execute_txs,
  execute_op, execute_ops,
}
use strevm.SaeExec.Progressed.{
  Advanced-after, HasRoom-after, Advanced, HasRoom, Advanced-refl, Advanced-trans, Advanced-weaken,
  Advanced-aside, HasRoom-less, consume_lem,
}

-- What libevm and the hooks document: a transaction uses at most its gas limit, and no call panics.
pub record EvmLaws (db : StateDb) (chain : Chain db) (evm : Evm db) : Type 0 where
  pub gas_used :
      (h : Header) (s s' : db.Accounts) (tx : Transaction) (r : Receipt)
      → evm.apply_transaction h s tx ≡ ok (s', r)
      → r.gas_used ≤ tx.gas
  pub applies :
      (h : Header) (s : db.Accounts) (tx : Transaction) → evm.apply_transaction h s tx ≢ panic
  pub opens : (root : ℕ) → chain.open_state root ≢ panic
  pub begins : (s : db.Accounts) (b : Block) → evm.before_executing_block s b ≢ panic
  pub has_ops : (b : Block) → evm.end_of_block_ops b ≢ panic
  pub commits : (s : db.Accounts) (n : ℕ) → evm.commit s n ≢ panic
  pub may_commit : (settled root n : ℕ) → evm.maybe_commit settled root n ≢ panic
  pub ends :
      (s : db.Accounts) (b : Block) (rs : List Receipt) → evm.after_executing_block s b rs ≢ panic

abbrev pub gas_of_txs : List Transaction → ℕ
gas_of_txs [] = 0
gas_of_txs (tx ∷ rest) = tx.gas + gas_of_txs rest

abbrev pub gas_of_ops : List Op → ℕ
gas_of_ops [] = 0
gas_of_ops (o ∷ rest) = o.gas + gas_of_ops rest

module _ (db : StateDb) (p : ℕ) where
  -- The run does not panic, with or without an error it has used at most `n` gas.
  abbrev pub Ends : ℕ → Progress db → Run (Progress db) → Type 0
  Ends n r run =
      (r' : Progress db) × (why : Option Error) × (run ≡ ok (r', why)) × Advanced db p n r r'

  -- A step and the steps after it.
  Ends-and_then :
      (m n : ℕ) (r : Progress db) (run : Run (Progress db)) (next : Progress db → Run (Progress db))
      → HasRoom db p (m + n) r
      → Ends m r run
      → ((s : Progress db) → HasRoom db p n s → Ends n s (next s))
      → Ends (m + n) r (and_then run next)
  Ends-and_then m n r run next room (s, why, e, a) later = elim (Option-cases why) [
    | inr (x, stop) ↦
        (s, why, rw (e, stop) refl, Advanced-weaken db p m (m + n) r s (omega arith) a)
    | inl go ↦
        let (t, why', e', a') = later s (HasRoom-less db p m n r s room a) in
        (t, why', rw (e, go) e', Advanced-trans db p m n r s t a a')
  ]

  module _ (chain : Chain db) (evm : Evm db) (states : StateDbLaws db)
      (laws : EvmLaws db chain evm) where
    sender_bound-NotBaseFee :
        (b : Block) (signer : Option chain.Signer) (s : db.Accounts) (ti : ℕ) (tx : Transaction)
        → NotBaseFee (sender_bound db chain evm b signer s ti tx)
    unfolding sender_bound
    sender_bound-NotBaseFee b signer s ti tx = elim (Outcome-cases (chain.sender signer tx)) [
      | is_ok from e ↦
          rw (e, sender_bound) (check_burners-NotBaseFee b (db.get_balance s) ti (from ∷ []))
      | is_err x e ↦ rw (e, sender_bound) tt
      | is_panic e ↦ rw (e, sender_bound) tt
    ]

    execute_tx-Ends :
        (b : Block) (signer : Option chain.Signer) (header : Header) (r : Progress db) (ti : ℕ)
        (tx : Transaction)
        → HasRoom db p tx.gas r
        → Ends tx.gas r (execute_tx db chain evm b p signer header r ti tx)
    unfolding execute_tx
    execute_tx-Ends b signer header r ti tx room =
        let quiet = sender_bound-NotBaseFee b signer r.accounts ti tx in
        let more = sender_bound db chain evm b signer r.accounts ti tx in
        elim (Outcome-cases (evm.apply_transaction header r.accounts tx)) [
          | is_panic e ↦ absurd (laws.applies header r.accounts tx e)
          | is_err x e ↦ (
            record r { logged = r.logged ++ more },
            some fatal_execution_error,
            rw (e, execute_tx) refl,
            Advanced-weaken db p 0 tx.gas r _ (omega arith)
                (Advanced-aside db p r r.accounts r.receipts more room.valid quiet),
          )
          | is_ok (s, receipt) e ↦
              let aside =
                Advanced-aside db p r s
                  (r.receipts ++ complete db chain evm b header.base_fee tx receipt ∷ []) more
                  room.valid quiet in
              let (r', run, same, same', a) =
                consume_lem db p chain evm _ receipt.gas_used tx.gas
                  (HasRoom-after db p tx.gas r _ room aside)
                  (laws.gas_used header r.accounts s tx receipt e) in
              (
                r',
                none,
                rw (e, execute_tx) (rw run refl),
                Advanced-after db p tx.gas r _ r' aside a,
              )
        ]

    -- The loop over the transactions uses at most the sum of their gas limits.
    pub execute_txs-Ends :
        (b : Block) (signer : Option chain.Signer) (header : Header) (r : Progress db) (ti : ℕ)
        (txs : List Transaction)
        → HasRoom db p (gas_of_txs txs) r
        → Ends (gas_of_txs txs) r (execute_txs db chain evm b p signer header r ti txs)
    unfolding execute_txs
    execute_txs-Ends b signer header r ti [] room = (r, none, refl, Advanced-refl db p r room.valid)
    execute_txs-Ends b signer header r ti (tx ∷ rest) room =
        Ends-and_then tx.gas (gas_of_txs rest) r _ _ room
          (execute_tx-Ends b signer header r ti tx (record {
            valid = room.valid;
            gas_room = omega (arith, room.gas_room);
            time_room = omega (arith, room.time_room);
          }))
          (λ s. execute_txs-Ends b signer header s (ti + 1) rest)

    -- What the operation changes after its gas is consumed.
    apply_op-Ends :
        (r r' : Progress db) (o : Op)
        → Advanced db p o.gas r r'
        → Ends o.gas r (apply_op db chain evm o r')
    unfolding apply_op
    apply_op-Ends r r' o far = elim (Outcome-cases (apply_to db o r'.accounts)) [
      | is_panic e ↦ absurd (apply_to-ne-panic db states o r'.accounts e)
      | is_err x e ↦ (r', some fatal_execution_error, rw (e, apply_op) refl, far)
      | is_ok s e ↦ (
        record r' { accounts = s },
        none,
        rw (e, apply_op) refl,
        record {
          used = far.used;
          within = far.within;
          counted = far.counted;
          ticked = far.ticked;
          valid = far.valid;
          rate = far.rate;
          interim = far.interim;
          silent = far.silent;
          kept = far.kept;
        },
      )
    ]

    then_apply_op :
        (r r' : Progress db) (o : Op) (run : Outcome (Progress db))
        → run ≡ ok r'
        → Advanced db p o.gas r r'
        → Ends o.gas r (run >>= λ s. apply_op db chain evm o s)
    then_apply_op r r' o run e far =
        let (s, why, e', a) = apply_op-Ends r r' o far in (s, why, rw e e', a)

    execute_op-Ends :
        (b : Block) (r : Progress db) (index : ℕ) (o : Op)
        → HasRoom db p o.gas r
        → Ends o.gas r (execute_op db chain evm b p r index o)
    unfolding execute_op
    execute_op-Ends b r index o room =
        let accounts = burners db chain evm o.burn in
        let aside =
          Advanced-aside db p r r.accounts r.receipts
            (check_op_burner_balance_bounds b (db.get_balance r.accounts) index accounts) room.valid
            (check_burners-NotBaseFee b (db.get_balance r.accounts) index accounts) in
        let (r', run, same, same', a) =
          consume_lem db p chain evm _ o.gas o.gas (HasRoom-after db p o.gas r _ room aside)
            (omega arith) in
        then_apply_op r r' o _ run (Advanced-after db p o.gas r _ r' aside a)

    -- So does the loop over the operations.
    pub execute_ops-Ends :
        (b : Block) (r : Progress db) (index : ℕ) (ops : List Op)
        → HasRoom db p (gas_of_ops ops) r
        → Ends (gas_of_ops ops) r (execute_ops db chain evm b p r index ops)
    unfolding execute_ops
    execute_ops-Ends b r index [] room = (r, none, refl, Advanced-refl db p r room.valid)
    execute_ops-Ends b r index (o ∷ rest) room =
        Ends-and_then o.gas (gas_of_ops rest) r _ _ room
          (execute_op-Ends b r index o (record {
            valid = room.valid;
            gas_room = omega (arith, room.gas_room);
            time_room = omega (arith, room.time_room);
          }))
          (λ s. execute_ops-Ends b s (index + 1) rest)
