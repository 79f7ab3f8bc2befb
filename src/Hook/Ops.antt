-- ===== src/Hook/Ops.antt =====
-- The operations of hook/hook.go on accounts. The state database of libevm is an interface. A Go
-- map is an association list; a run takes its entries in the order of the list.
pub mod Balances
use strevm.Base.{
  ℕ, ◌+◌, ◌-◌, ◌≤◌, ◌<◌, ◌≡◌, ◌^◌, List, [], ◌∷◌, Outcome, ok, ◌>>◌, fail_if, ltb, ◌==◌,
  if◌then◌else◌, max_u64, min_balance_below_amount, insufficient_funds,
}

-- The methods of `state.StateDB` that the source calls.
pub record StateDb : Type 1 where
  pub Accounts : Type 0
  pub get_nonce : Accounts → ℕ → ℕ
  pub get_balance : Accounts → ℕ → ℕ
  pub get_code_hash : Accounts → ℕ → ℕ
  pub set_nonce : Accounts → ℕ → ℕ → Accounts
  pub sub_balance : Accounts → ℕ → ℕ → Accounts
  pub add_balance : Accounts → ℕ → ℕ → Accounts

-- What they document: each changes one value of one account, without overflow.
pub record StateDbLaws (db : StateDb) : Type 0 where
  pub nonce-set_nonce :
      (s : db.Accounts) (a n b : ℕ)
      → db.get_nonce (db.set_nonce s a n) b ≡ (if a == b then n else db.get_nonce s b)
  pub balance-set_nonce :
      (s : db.Accounts) (a n b : ℕ) → db.get_balance (db.set_nonce s a n) b ≡ db.get_balance s b
  pub nonce-sub_balance :
      (s : db.Accounts) (a x b : ℕ) → db.get_nonce (db.sub_balance s a x) b ≡ db.get_nonce s b
  pub balance-sub_balance :
      (s : db.Accounts) (a x b : ℕ)
      → x ≤ db.get_balance s a
      → db.get_balance (db.sub_balance s a x) b
        ≡ (if a == b then db.get_balance s b - x else db.get_balance s b)
  pub nonce-add_balance :
      (s : db.Accounts) (a x b : ℕ) → db.get_nonce (db.add_balance s a x) b ≡ db.get_nonce s b
  pub balance-add_balance :
      (s : db.Accounts) (a x b : ℕ)
      → db.get_balance s a + x < 2 ^ 256
      → db.get_balance (db.add_balance s a x) b
        ≡ (if a == b then db.get_balance s b + x else db.get_balance s b)

-- `AccountDebit`
pub record AccountDebit : Type 0 where
  pub nonce : ℕ
  pub amount : ℕ
  pub min_balance : ℕ

-- `Op`
pub record Op : Type 0 where
  pub id : ℕ
  pub gas : ℕ
  pub gas_fee_cap : ℕ
  pub burn : List (ℕ × AccountDebit)
  pub mint : List (ℕ × ℕ)

module _ (db : StateDb) where
  -- The first loop of `ApplyTo`.
  unfoldable pub check_burns : db.Accounts → List (ℕ × AccountDebit) → Outcome (Unit {0})
  check_burns s [] = ok tt
  check_burns s ((from, acc) ∷ rest) = do
    fail_if (ltb acc.min_balance acc.amount) min_balance_below_amount
    fail_if (ltb (db.get_balance s from) acc.min_balance) insufficient_funds
    check_burns s rest

  -- The body of the second loop.
  unfoldable pub burn_one : db.Accounts → ℕ → AccountDebit → db.Accounts
  burn_one s from acc =
      db.sub_balance
        (if ltb (db.get_nonce s from) max_u64
          then db.set_nonce s from (db.get_nonce s from + 1)
          else s)
        from acc.amount

  unfoldable pub burn_all : db.Accounts → List (ℕ × AccountDebit) → db.Accounts
  burn_all s [] = s
  burn_all s ((from, acc) ∷ rest) = burn_all (burn_one s from acc) rest

  -- The third loop.
  unfoldable pub mint_all : db.Accounts → List (ℕ × ℕ) → db.Accounts
  mint_all s [] = s
  mint_all s ((to, amount) ∷ rest) = mint_all (db.add_balance s to amount) rest

  -- `Op.ApplyTo`
  unfoldable pub apply_to : Op → db.Accounts → Outcome db.Accounts
  apply_to o s = do check_burns s o.burn; ok (mint_all (burn_all s o.burn) o.mint)
