-- ===== src/Hook/Ops/Balances.antt =====
-- What `Op.ApplyTo` of hook/hook.go does to balances and nonces.
use strevm.Base.{
  panic, ◌≢◌, ltb, inr, Bool-cases, inl, insufficient_funds, Error, min_balance_below_amount, err,
  ◌⊎◌, ok, refl, ◌∙◌, ℕ, ◌+◌, ◌-◌, ◌≤◌, ◌<◌, ◌≡◌, ◌^◌, List, [], ◌∷◌, arith, ◌==◌, if◌then◌else◌,
  max_u64,
}
use strevm.Hook.Ops.{
  Op, apply_to, check_burns, StateDb, StateDbLaws, AccountDebit, burn_one, burn_all, mint_all,
}

-- The amounts that the entries of an account add up to.
abbrev pub burned : List (ℕ × AccountDebit) → ℕ → ℕ
burned [] a = 0
burned ((from, acc) ∷ rest) a = (if from == a then acc.amount else 0) + burned rest a

abbrev pub minted : List (ℕ × ℕ) → ℕ → ℕ
minted [] a = 0
minted ((to, amount) ∷ rest) a = (if to == a then amount else 0) + minted rest a

-- How often an account is debited.
abbrev pub debits : List (ℕ × AccountDebit) → ℕ → ℕ
debits [] a = 0
debits ((from, acc) ∷ rest) a = (if from == a then 1 else 0) + debits rest a

module _ (db : StateDb) where
  -- Each entry has the balance that it asks for, which is no less than its amount.
  abbrev pub Covered : db.Accounts → List (ℕ × AccountDebit) → Type 0
  Covered s [] = Unit
  Covered s ((from, acc) ∷ rest) =
      (acc.amount ≤ acc.min_balance) × (acc.min_balance ≤ db.get_balance s from) × Covered s rest

module _ (db : StateDb) (laws : StateDbLaws db) where
  burn_one-balance :
      (s : db.Accounts) (from : ℕ) (acc : AccountDebit) (a : ℕ)
      → acc.amount ≤ db.get_balance s from
      → db.get_balance (burn_one db s from acc) a
        ≡ (if from == a then db.get_balance s a - acc.amount else db.get_balance s a)
  unfolding burn_one
  burn_one-balance s from acc a covered = ground (
    arith,
    laws.balance-sub_balance s from acc.amount a,
    laws.balance-sub_balance (db.set_nonce s from (db.get_nonce s from + 1)) from acc.amount a,
    laws.balance-set_nonce s from (db.get_nonce s from + 1) from,
    laws.balance-set_nonce s from (db.get_nonce s from + 1) a,
  )

  burn_one-nonce :
      (s : db.Accounts) (from : ℕ) (acc : AccountDebit) (a : ℕ)
      → db.get_nonce s from < max_u64
      → db.get_nonce (burn_one db s from acc) a
        ≡ (if from == a then db.get_nonce s a + 1 else db.get_nonce s a)
  unfolding burn_one
  burn_one-nonce s from acc a room = ground (
    arith,
    laws.nonce-sub_balance (db.set_nonce s from (db.get_nonce s from + 1)) from acc.amount a,
    laws.nonce-set_nonce s from (db.get_nonce s from + 1) a,
  )

  -- The debits are covered as long as those of each account add up to no more than its balance.
  burn_all-balance :
      (burn : List (ℕ × AccountDebit)) (s : db.Accounts)
      → ((a : ℕ) → burned burn a ≤ db.get_balance s a)
      → (a : ℕ) → db.get_balance (burn_all db s burn) a + burned burn a ≡ db.get_balance s a
  unfolding burn_all
  burn_all-balance [] s covered a = omega arith
  burn_all-balance ((from, acc) ∷ rest) s covered a =
      let first : acc.amount ≤ db.get_balance s from = ground (arith, covered from) in
      let later : (b : ℕ) → burned rest b ≤ db.get_balance (burn_one db s from acc) b =
        λ b. ground (arith, covered b, burn_one-balance s from acc b first) in
      ground (
        arith,
        covered a,
        burn_all-balance rest (burn_one db s from acc) later a,
        burn_one-balance s from acc a first,
      )

  mint_all-balance :
      (mint : List (ℕ × ℕ)) (s : db.Accounts)
      → ((a : ℕ) → db.get_balance s a + minted mint a < 2 ^ 256)
      → (a : ℕ) → db.get_balance (mint_all db s mint) a ≡ db.get_balance s a + minted mint a
  unfolding mint_all
  mint_all-balance [] s room a = omega arith
  mint_all-balance ((to, amount) ∷ rest) s room a =
      let first : db.get_balance s to + amount < 2 ^ 256 = ground (arith, room to) in
      let later : (b : ℕ)
          → db.get_balance (db.add_balance s to amount) b + minted rest b < 2 ^ 256 =
        λ b. ground (arith, room b, laws.balance-add_balance s to amount b first) in
      ground (
        arith,
        mint_all-balance rest (db.add_balance s to amount) later a,
        laws.balance-add_balance s to amount a first,
      )

  mint_all-nonce :
      (mint : List (ℕ × ℕ)) (s : db.Accounts) (a : ℕ)
      → db.get_nonce (mint_all db s mint) a ≡ db.get_nonce s a
  unfolding mint_all
  mint_all-nonce [] s a = refl
  mint_all-nonce ((to, amount) ∷ rest) s a =
      mint_all-nonce rest (db.add_balance s to amount) a ∙ laws.nonce-add_balance s to amount a

  -- The nonce stays where it is once it can not grow.
  burn_all-nonce :
      (burn : List (ℕ × AccountDebit)) (s : db.Accounts) (a : ℕ)
      → ((b : ℕ) → db.get_nonce s b + debits burn b ≤ max_u64)
      → db.get_nonce (burn_all db s burn) a ≡ db.get_nonce s a + debits burn a
  unfolding burn_all
  burn_all-nonce [] s a room = omega arith
  burn_all-nonce ((from, acc) ∷ rest) s a room =
      let first : db.get_nonce s from < max_u64 = ground (arith, room from) in
      let later : (b : ℕ) → db.get_nonce (burn_one db s from acc) b + debits rest b ≤ max_u64 =
        λ b. ground (arith, room b, burn_one-nonce s from acc b first) in
      ground (
        arith,
        burn_all-nonce rest (burn_one db s from acc) a later,
        burn_one-nonce s from acc a first,
      )

  burned-no_debits :
      (burn : List (ℕ × AccountDebit)) (a : ℕ) → debits burn a ≡ 0 → burned burn a ≡ 0
  burned-no_debits [] a e = refl
  burned-no_debits ((from, acc) ∷ rest) a e = ground (arith, burned-no_debits rest a)

  -- With at most one debit for each account, as in a map, the balance covers what is burned.
  burned-Covered :
      (burn : List (ℕ × AccountDebit)) (s : db.Accounts) (a : ℕ)
      → debits burn a ≤ 1
      → Covered db s burn
      → burned burn a ≤ db.get_balance s a
  burned-Covered [] s a once c = omega arith
  burned-Covered ((from, acc) ∷ rest) s a once (below, above, c) =
      ground (arith, burned-no_debits rest a, burned-Covered rest s a, c)

  check_burns_lem :
      (burn : List (ℕ × AccountDebit)) (s : db.Accounts)
      → (Covered db s burn × (check_burns db s burn ≡ ok tt))
        ⊎ ((¬ Covered db s burn)
            × ((check_burns db s burn ≡ err min_balance_below_amount)
                ⊎ (check_burns db s burn ≡ err insufficient_funds)))
  unfolding check_burns
  check_burns_lem [] s = inl (tt, refl)
  check_burns_lem ((from, acc) ∷ rest) s = elim (Bool-cases (ltb acc.min_balance acc.amount)) [
    | inl low ↦ rw low (inr ((λ c. ground (arith, low, c.0)), inl refl))
    | inr high ↦ rw high (elim (Bool-cases (ltb (db.get_balance s from) acc.min_balance)) [
      | inl poor ↦ rw poor (inr ((λ c. ground (arith, poor, c.1)), inr refl))
      | inr rich ↦ rw rich (elim (check_burns_lem rest s) [
        | inl (c, e) ↦ inl ((ground (arith, high), ground (arith, rich), c), e)
        | inr (nc, e) ↦ inr ((λ c. nc c.2), e)
      ])
    ])
  ]

  apply_to-ok :
      (o : Op) (s : db.Accounts)
      → check_burns db s o.burn ≡ ok tt
      → apply_to db o s ≡ ok (mint_all db (burn_all db s o.burn) o.mint)
  unfolding apply_to
  apply_to-ok o s e = rw e refl

  apply_to-err :
      (o : Op) (s : db.Accounts) (e : Error)
      → check_burns db s o.burn ≡ err e
      → apply_to db o s ≡ err e
  unfolding apply_to
  apply_to-err o s e run = rw run refl

  -- `ApplyTo` with at most one debit for each account, nonces that can grow, and credits that do
  -- not overflow. If each debit is covered, every account has afterwards what it had, less what is
  -- burned and with what is minted, and the nonce of each debited account is one higher. If not,
  -- the result is one of the two errors.
  pub apply_to_lem :
      (o : Op) (s : db.Accounts)
      → ((a : ℕ) → debits o.burn a ≤ 1)
      → ((a : ℕ) → db.get_nonce s a + debits o.burn a ≤ max_u64)
      → ((a : ℕ) → db.get_balance s a + minted o.mint a < 2 ^ 256)
      → (Covered db s o.burn
          × ((s' : db.Accounts) × (apply_to db o s ≡ ok s')
              × ((a : ℕ)
                  → (db.get_balance s' a + burned o.burn a ≡ db.get_balance s a + minted o.mint a)
                    × (db.get_nonce s' a ≡ db.get_nonce s a + debits o.burn a))))
        ⊎ ((¬ Covered db s o.burn)
            × ((apply_to db o s ≡ err min_balance_below_amount)
                ⊎ (apply_to db o s ≡ err insufficient_funds)))
  apply_to_lem o s once nonces credits = elim (check_burns_lem o.burn s) [
    | inl (c, run) ↦
        let s1 = burn_all db s o.burn in
        let covered : (a : ℕ) → burned o.burn a ≤ db.get_balance s a =
          λ a. burned-Covered o.burn s a (once a) c in
        let spent : (a : ℕ) → db.get_balance s1 a + burned o.burn a ≡ db.get_balance s a =
          λ a. burn_all-balance o.burn s covered a in
        let room : (a : ℕ) → db.get_balance s1 a + minted o.mint a < 2 ^ 256 =
          λ a. omega (arith, spent a, credits a) in
        inl (
          c,
          (
            mint_all db s1 o.mint,
            apply_to-ok o s run,
            λ a. (
              omega (arith, spent a, mint_all-balance o.mint s1 room a),
              mint_all-nonce o.mint s1 a ∙ burn_all-nonce o.burn s a nonces,
            ),
          ),
        )
    | inr (nc, inl e) ↦ inr (nc, inl (apply_to-err o s _ e))
    | inr (nc, inr e) ↦ inr (nc, inr (apply_to-err o s _ e))
  ]

  pub apply_to-ne-panic : (o : Op) (s : db.Accounts) → apply_to db o s ≢ panic
  apply_to-ne-panic o s = elim (check_burns_lem o.burn s) [
    | inl (c, run) ↦ rw (apply_to-ok o s run) (λ q. ground arith)
    | inr (nc, inl run) ↦ rw (apply_to-err o s _ run) (λ q. ground arith)
    | inr (nc, inr run) ↦ rw (apply_to-err o s _ run) (λ q. ground arith)
  ]
