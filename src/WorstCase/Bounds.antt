-- ===== src/WorstCase/Bounds.antt =====
-- The balances that worstcase/state.go notes, as the bounds that blocks/invariants.go checks when
-- the block is executed.
use strevm.Base.{
  ltb, if◌then◌else◌, inr, inl, ◌==◌, Bool-cases, suc, ==_iff, some, ap, [], get_elem?, ◌∷◌, ◌≡◌,
  length, ℕ, List, refl,
}
use strevm.Hook.Ops.{StateDb, AccountDebit}
use strevm.Blocks.{WorstCaseBounds}
use strevm.Blocks.LifeCycle.{
  check_balance_bounds, check_balances, check_balance, lookup, Logged, balance_below_bound,
}
use strevm.WorstCase.Apply.{noted}

-- The accounts of the debits.
abbrev pub burners : List (ℕ × AccountDebit) → List ℕ
burners [] = []
burners ((from, ad) ∷ rest) = from ∷ burners rest

module _ (db : StateDb) (s : db.Accounts) where
  length-noted : (burn : List (ℕ × AccountDebit)) → length (noted db s burn) ≡ length (burners burn)
  length-noted [] = refl
  length-noted ((from, ad) ∷ rest) = ap suc (length-noted rest)

  -- A balance that is found among the bounds is that of the account.
  abbrev Finds : List (ℕ × ℕ) → List ℕ → Type 0
  Finds bounds [] = Unit
  Finds bounds (a ∷ rest) = (lookup bounds a ≡ some (db.get_balance s a)) × Finds bounds rest

  lookup-more :
      (from a : ℕ) (bounds : List (ℕ × ℕ))
      → lookup bounds a ≡ some (db.get_balance s a)
      → lookup ((from, db.get_balance s from) ∷ bounds) a ≡ some (db.get_balance s a)
  lookup-more from a bounds found = elim (Bool-cases (from == a)) [
    | inl e ↦ rw e (ap (λ (k : ℕ). some (db.get_balance s k)) ((==_iff from a).0 e))
    | inr e ↦ rw e found
  ]

  more-Finds :
      (from : ℕ) (bounds : List (ℕ × ℕ)) (accounts : List ℕ)
      → Finds bounds accounts
      → Finds ((from, db.get_balance s from) ∷ bounds) accounts
  more-Finds from bounds [] f = tt
  more-Finds from bounds (a ∷ rest) (found, f) =
      (lookup-more from a bounds found, more-Finds from bounds rest f)

  noted-Finds : (burn : List (ℕ × AccountDebit)) → Finds (noted db s burn) (burners burn)
  noted-Finds [] = tt
  noted-Finds ((from, ad) ∷ rest) = (
    rw ((==_iff from from).1 refl) refl,
    more-Finds from (noted db s rest) (burners rest) (noted-Finds rest),
  )

  -- What the check has to log: the accounts whose balance is below that in the state.
  abbrev pub underfunded : (ℕ → ℕ) → List (ℕ × AccountDebit) → List Logged
  underfunded balance [] = []
  underfunded balance ((from, ad) ∷ rest) =
      if ltb (balance from) (db.get_balance s from)
      then balance_below_bound from ∷ underfunded balance rest
      else underfunded balance rest

  check_balance-found :
      (bounds : List (ℕ × ℕ)) (balance : ℕ → ℕ) (a low : ℕ)
      → lookup bounds a ≡ some low
      → check_balance bounds balance a
        ≡ (if ltb (balance a) low then balance_below_bound a ∷ [] else [])
  unfolding check_balance
  check_balance-found bounds balance a low found = rw (found, check_balance) refl

  check_balances-Finds :
      (bounds : List (ℕ × ℕ)) (balance : ℕ → ℕ) (burn : List (ℕ × AccountDebit))
      → Finds bounds (burners burn)
      → check_balances bounds balance (burners burn) ≡ underfunded balance burn
  unfolding check_balances
  check_balances-Finds bounds balance [] f = refl
  check_balances-Finds bounds balance ((from, ad) ∷ rest) (found, f) =
      rw (check_balance-found bounds balance from (db.get_balance s from) found) (
        rw (check_balances-Finds bounds balance rest f)
          (elim (Bool-cases (ltb (balance from) (db.get_balance s from))) [
            | inl low ↦ rw low refl
            | inr enough ↦ rw enough refl
          ]))

  -- If the bounds hold at the index of an operation what the worst case noted of it, the check at its
  -- execution logs exactly the accounts that have less than the worst case had before it, in order.
  pub check_balance_bounds-noted :
      (w : WorstCaseBounds) (i : ℕ) (burn : List (ℕ × AccountDebit)) (balance : ℕ → ℕ)
      → get_elem? w.min_op_burner_balances i ≡ some (noted db s burn)
      → check_balance_bounds w balance i (burners burn) ≡ underfunded balance burn
  unfolding check_balance_bounds
  check_balance_bounds-noted w i burn balance found =
      rw (found, check_balance_bounds)
        (rw ((==_iff (length (noted db s burn)) (length (burners burn))).1 (length-noted burn))
          (check_balances-Finds (noted db s burn) balance burn (noted-Finds burn)))
