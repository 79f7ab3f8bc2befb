-- ===== src/WorstCase/Apply.antt =====
-- `Apply` of worstcase/state.go: which operations it admits, and what they change.
use strevm.Base.{
  ◌>>=◌, fee_cap_too_low, ◌>>◌, gas_limit_reached, fail_if, Outcome, add_u64, ◌^◌, sub_u64, ◌<◌,
  some, IsU64, refl, ◌==◌, inr, ltb, Bool-cases, inl, err, Error, ◌⊎◌, arith, ok, max_u64, [], ◌≢◌,
  ◌∷◌, ◌+◌, ◌≡◌, ◌≤◌, ◌++◌, ℕ, List,
}
use strevm.Hook.Ops.{apply_to, StateDbLaws, StateDb, AccountDebit, Op}
use strevm.Hook.Ops.Balances.{apply_to_lem, minted, burned, Covered, debits}
use strevm.WorstCase.{apply, State, Chain, burner_balances}

module _ (db : StateDb) where
  -- Each debit carries the nonce that its account has, which is not the last one.
  abbrev pub Authorized : db.Accounts → List (ℕ × AccountDebit) → Type 0
  Authorized s [] = Unit
  Authorized s ((from, ad) ∷ rest) =
      (ad.nonce ≡ db.get_nonce s from) × (db.get_nonce s from ≢ max_u64) × Authorized s rest

  -- The balances of the debited accounts.
  abbrev pub noted : db.Accounts → List (ℕ × AccountDebit) → List (ℕ × ℕ)
  noted s [] = []
  noted s ((from, ad) ∷ rest) = (from, db.get_balance s from) ∷ noted s rest

  debits-no_more :
      (burn : List (ℕ × AccountDebit)) (s : db.Accounts) (a : ℕ)
      → db.get_nonce s a ≤ max_u64
      → debits burn a ≤ 1
      → Authorized s burn
      → db.get_nonce s a + debits burn a ≤ max_u64
  debits-no_more [] s a le once au = omega arith
  debits-no_more ((from, ad) ∷ rest) s a le once (e, more, au) =
      ground (arith, debits-no_more rest s a le, au, more)

  module _ (chain : Chain db) where
    burner_balances_lem :
        (s : db.Accounts) (burn : List (ℕ × AccountDebit))
        → (Authorized s burn × (burner_balances db chain s burn ≡ ok (noted s burn)))
          ⊎ ((¬ Authorized s burn) × ((e : Error) × (burner_balances db chain s burn ≡ err e)))
    unfolding burner_balances
    burner_balances_lem s [] = inl (tt, refl)
    burner_balances_lem s ((from, ad) ∷ rest) =
        elim (Bool-cases (ltb ad.nonce (db.get_nonce s from))) [
          | inl low ↦ rw low (inr ((λ au. ground (arith, low, au.0)), (_, refl)))
          | inr n1 ↦ rw n1 (elim (Bool-cases (ltb (db.get_nonce s from) ad.nonce)) [
            | inl high ↦ rw high (inr ((λ au. ground (arith, high, au.0)), (_, refl)))
            | inr n2 ↦ rw n2 (elim (Bool-cases (db.get_nonce s from == max_u64)) [
              | inl last ↦ rw last (inr ((λ au. ground (arith, last, au.1)), (_, refl)))
              | inr n3 ↦ rw n3 (elim (burner_balances_lem s rest) [
                | inl (au, run) ↦
                    rw run (inl ((ground (arith, n1, n2), ground (arith, n3), au), refl))
                | inr (nau, (e, run)) ↦ rw run (inr ((λ au. nau au.2), (e, refl)))
              ])
            ])
          ])
        ]

    -- The conditions that the doc comment of `Apply` lists.
    pub record IsAdmissible (s : State db chain) (fee : ℕ) (o : Op) : Type 0 where
      pub fits : s.block_size + o.gas ≤ s.max_block_size
      pub priced : fee ≤ o.gas_fee_cap
      pub authorized : Authorized s.accounts o.burn
      pub covered : Covered db s.accounts o.burn

    -- The state after the operation `o`, whose effects on the accounts are `accounts`.
    abbrev pub extended : State db chain → Op → db.Accounts → State db chain
    extended s o accounts = record s {
      accounts = accounts;
      min_op_burner_balances = s.min_op_burner_balances ++ (noted s.accounts o.burn ∷ []);
      block_size = s.block_size + o.gas;
    }

  module _ (laws : StateDbLaws db) (chain : Chain db) where
    -- What `Apply` asks of its caller: the counts of a block that has started fit in a word, nonces
    -- fit in a word, an operation debits an account at most once, and credits do not overflow.
    pub record IsUsable (s : State db chain) (o : Op) : Type 0 where
      pub filled : s.block_size ≤ s.max_block_size
      pub size_in : IsU64 s.max_block_size
      pub once : (a : ℕ) → debits o.burn a ≤ 1
      pub nonces_in : (a : ℕ) → db.get_nonce s.accounts a ≤ max_u64
      pub credits : (a : ℕ) → db.get_balance s.accounts a + minted o.mint a < 2 ^ 256

    -- The accounts after an operation.
    pub record IsExecuted (o : Op) (before after : db.Accounts) : Type 0 where
      pub balances :
          (a : ℕ)
          → db.get_balance after a + burned o.burn a ≡ db.get_balance before a + minted o.mint a
      pub nonces : (a : ℕ) → db.get_nonce after a ≡ db.get_nonce before a + debits o.burn a

    -- `Apply` after its checks of the gas and of the price.
    abbrev execute : State db chain → Op → Outcome (State db chain)
    execute s o = do
      balances ← burner_balances db chain s.accounts o.burn
      accounts ← apply_to db o s.accounts
      ok (record s {
        accounts = accounts;
        min_op_burner_balances = s.min_op_burner_balances ++ (balances ∷ []);
        block_size = add_u64 s.block_size o.gas;
      })

    apply-eq :
        (s : State db chain) (fee : ℕ) (o : Op)
        → s.base_fee ≡ some fee
        → apply db chain s o ≡ (
            fail_if (ltb (sub_u64 s.max_block_size s.block_size) o.gas) gas_limit_reached
            >> (fail_if (ltb o.gas_fee_cap fee) fee_cap_too_low >> execute s o))
    unfolding apply
    apply-eq s fee o started = rw started refl

    execute-ok :
        (s : State db chain) (o : Op) (accounts : db.Accounts)
        → IsUsable s o
        → s.block_size + o.gas ≤ s.max_block_size
        → burner_balances db chain s.accounts o.burn ≡ ok (noted s.accounts o.burn)
        → apply_to db o s.accounts ≡ ok accounts
        → execute s o ≡ ok (extended chain s o accounts)
    execute-ok s o accounts u fits noted_run run =
        let sum : add_u64 s.block_size o.gas ≡ s.block_size + o.gas =
          omega (arith, u.size_in, fits) in
        rw (noted_run, run, sum) refl

    execute-refused :
        (s : State db chain) (o : Op) (e : Error)
        → burner_balances db chain s.accounts o.burn ≡ ok (noted s.accounts o.burn)
        → apply_to db o s.accounts ≡ err e
        → execute s o ≡ err e
    execute-refused s o e noted_run run = rw (noted_run, run) refl

    -- The part of `apply_lem` behind the checks of the gas and of the price.
    execute_lem :
        (s : State db chain) (fee : ℕ) (o : Op)
        → IsUsable s o
        → s.block_size + o.gas ≤ s.max_block_size
        → fee ≤ o.gas_fee_cap
        → (IsAdmissible chain s fee o
            × ((accounts : db.Accounts) × (execute s o ≡ ok (extended chain s o accounts))
                × IsExecuted o s.accounts accounts))
          ⊎ ((¬ IsAdmissible chain s fee o) × ((e : Error) × (execute s o ≡ err e)))
    execute_lem s fee o u fits priced = elim (burner_balances_lem chain s.accounts o.burn) [
      | inr (nau, (e, run)) ↦ rw run (inr ((λ adm. nau adm.authorized), (e, refl)))
      | inl (au, noted_run) ↦
          elim (apply_to_lem db laws o s.accounts u.once
            (λ a. debits-no_more o.burn s.accounts a (u.nonces_in a) (u.once a) au) u.credits) [
              | inl (c, (after, run, effects)) ↦ inl (
                record { fits = fits; priced = priced; authorized = au; covered = c },
                (
                  after,
                  execute-ok s o after u fits noted_run run,
                  record { balances = λ a. (effects a).0; nonces = λ a. (effects a).1 },
                ),
              )
              | inr (nc, inl run) ↦
                  inr ((λ adm. nc adm.covered), (_, execute-refused s o _ noted_run run))
              | inr (nc, inr run) ↦
                  inr ((λ adm. nc adm.covered), (_, execute-refused s o _ noted_run run))
            ]
    ]

    -- `Apply` in a block that has started. It admits an operation exactly when the gas fits in what
    -- the block has left, the fee cap is no less than the base fee, each debit carries the next
    -- nonce of its account, and each debit is covered. The balances of the debited accounts before
    -- the operation are noted, the gas is added to that of the block, and the operation is executed
    -- on the accounts. Otherwise it returns an error.
    pub apply_lem :
        (s : State db chain) (fee : ℕ) (o : Op)
        → IsUsable s o
        → s.base_fee ≡ some fee
        → (IsAdmissible chain s fee o
            × ((accounts : db.Accounts) × (apply db chain s o ≡ ok (extended chain s o accounts))
                × IsExecuted o s.accounts accounts))
          ⊎ ((¬ IsAdmissible chain s fee o) × ((e : Error) × (apply db chain s o ≡ err e)))
    apply_lem s fee o u started =
        rw (apply-eq s fee o started)
          (elim (Bool-cases (ltb (sub_u64 s.max_block_size s.block_size) o.gas)) [
            | inl full ↦
                rw full
                  (inr ((λ adm. ground (arith, full, u.filled, u.size_in, adm.fits)), (_, refl)))
            | inr room ↦ rw room (elim (Bool-cases (ltb o.gas_fee_cap fee)) [
              | inl low ↦ rw low (inr ((λ adm. ground (arith, low, adm.priced)), (_, refl)))
              | inr high ↦ rw high (
                  execute_lem s fee o u (ground (arith, room, u.filled, u.size_in))
                    (ground (arith, high)))
            ])
          ])
