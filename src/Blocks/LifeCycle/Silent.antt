-- ===== src/Blocks/LifeCycle/Silent.antt =====
-- The balance bounds of blocks/invariants.go log nothing about the base fee.
use strevm.Base.{
  ◌==◌, false, length, ltb, Bool-cases, ◌≤◌, inr, arith, some, get_elem?, inl, [], ◌≢◌, ◌≡◌,
  Option-cases, ◌++◌, ◌∷◌, ℕ, List, refl,
}
use strevm.Blocks.{Block, WorstCaseBounds}
use strevm.Blocks.LifeCycle.{
  Logged, base_fee_above_bound, lookup, check_balance, check_balances, check_balance_bounds,
  check_op_burner_balance_bounds, check_base_fee_bound,
}

-- Nothing of the list is about the base fee.
abbrev pub NotBaseFee : List Logged → Type 0
NotBaseFee [] = Unit
NotBaseFee (l ∷ ls) = (l ≢ base_fee_above_bound) × NotBaseFee ls

pub NotBaseFee-append :
    (xs ys : List Logged) → NotBaseFee xs → NotBaseFee ys → NotBaseFee (xs ++ ys)
NotBaseFee-append [] ys hx hy = hy
NotBaseFee-append (x ∷ xs) ys hx hy = (hx.0, NotBaseFee-append xs ys hx.1 hy)

check_balance-NotBaseFee :
    (bounds : List (ℕ × ℕ)) (balance : ℕ → ℕ) (a : ℕ) → NotBaseFee (check_balance bounds balance a)
unfolding check_balance
check_balance-NotBaseFee bounds balance a = elim (Option-cases (lookup bounds a)) [
  | inl e ↦ rw (e, check_balance) ((λ q. ground arith), tt)
  | inr (low, e) ↦
      rw (e, check_balance)
        (elim (Bool-cases (ltb (balance a) low)) [
          | inl under ↦ rw under ((λ q. ground arith), tt)
          | inr over ↦ rw over tt
        ])
]

check_balances-NotBaseFee :
    (bounds : List (ℕ × ℕ)) (balance : ℕ → ℕ) (accounts : List ℕ)
    → NotBaseFee (check_balances bounds balance accounts)
unfolding check_balances
check_balances-NotBaseFee bounds balance [] = tt
check_balances-NotBaseFee bounds balance (a ∷ rest) =
    NotBaseFee-append (check_balance bounds balance a) (check_balances bounds balance rest)
      (check_balance-NotBaseFee bounds balance a) (check_balances-NotBaseFee bounds balance rest)

check_balance_bounds-NotBaseFee :
    (w : WorstCaseBounds) (balance : ℕ → ℕ) (i : ℕ) (accounts : List ℕ)
    → NotBaseFee (check_balance_bounds w balance i accounts)
unfolding check_balance_bounds
check_balance_bounds-NotBaseFee w balance i accounts =
    elim (Option-cases (get_elem? w.min_op_burner_balances i)) [
      | inl e ↦ rw (e, check_balance_bounds) ((λ q. ground arith), tt)
      | inr (bounds, e) ↦
          rw (e, check_balance_bounds)
            (elim (Bool-cases (length bounds == length accounts)) [
              | inl same ↦ rw same (check_balances-NotBaseFee bounds balance accounts)
              | inr other ↦
                  rw other ((λ q. ground arith), check_balances-NotBaseFee bounds balance accounts)
            ])
    ]

pub check_burners-NotBaseFee :
    (b : Block) (balance : ℕ → ℕ) (i : ℕ) (accounts : List ℕ)
    → NotBaseFee (check_op_burner_balance_bounds b balance i accounts)
unfolding check_op_burner_balance_bounds
check_burners-NotBaseFee b balance i accounts = elim (Option-cases b.bounds) [
  | inl e ↦ rw (e, check_op_burner_balance_bounds) tt
  | inr (w, e) ↦
      rw (e, check_op_burner_balance_bounds) (check_balance_bounds-NotBaseFee w balance i accounts)
]

-- Where the base fee is within the bound of the block, nothing is logged.
pub check_base_fee_bound-within :
    (b : Block) (w : WorstCaseBounds) (fee : ℕ)
    → b.bounds ≡ some w
    → fee ≤ w.max_base_fee
    → check_base_fee_bound b fee ≡ []
unfolding check_base_fee_bound
check_base_fee_bound-within b w fee e le =
    let under : ltb w.max_base_fee fee ≡ false = ground (arith, le) in
    rw (e, check_base_fee_bound) (rw under refl)
