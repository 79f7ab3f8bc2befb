-- ===== src/WorstCase/Tests.antt =====
-- The worst case on a database of functions: a block with one transfer.
use strevm.GasTime.{price, new_config, before_block}
use strevm.Base.{
  inr, min_balance_below_amount, inl, none, Error, err, ◌^◌, Bool-cases, ◌-◌, ◌⊎◌, ◌<◌, max_u64,
  max, ◌==◌, refl, ◌+◌, ◌≤◌, [], min, ok, if◌then◌else◌, ◌≡◌, ◌∷◌, some, arith, false, ℕ,
  insufficient_funds, queue_full,
}
use strevm.GasTime
use strevm.Blocks.{WorstCaseBounds}
use strevm.Blocks.LifeCycle.{check_balance_bounds}
use strevm.WorstCase.Bounds.{check_balance_bounds-noted, burners, underfunded}
use strevm.WorstCase.Apply.{noted}
use strevm.GasTime.Excess.{IsValid}
use strevm.GasTime.Price.{PriceLaws}
use strevm.Hook.{GasPriceConfig, Header, Points, IsLawful}
use strevm.Hook.Ops.{StateDb, StateDbLaws, Op, apply_to}
use strevm.Hook.Ops.Balances.{apply_to_lem, Covered, debits, minted, burned}
use strevm.WorstCase.{
  Chain, State, Transaction, tx_to_op, apply, resized, safe_max_block_size, start_block,
  finish_block,
}
use strevm.WorstCase.Cost.{tx_to_op_lem, IsPayable, cost, debit}
use strevm.WorstCase.Apply.{apply_lem, IsUsable, IsAdmissible, IsExecuted, extended}
use strevm.WorstCase.Queue.{Fills, open_queue}
use strevm.WorstCase.Finish.{start_and_fill, finish_block_lem, IsFilled, IsFinished}

-- Nonces and balances as functions of the address.
abbrev pub db : StateDb
db = record {
  Accounts = ℕ → ℕ × ℕ;
  get_nonce = λ s a. (s a).0;
  get_balance = λ s a. (s a).1;
  get_code_hash = λ s a. 0;
  set_nonce = λ s a n b. if a == b then (n, (s b).1) else s b;
  sub_balance = λ s a x b. if a == b then ((s b).0, (s b).1 - x) else s b;
  add_balance = λ s a x b. if a == b then ((s b).0, (s b).1 + x) else s b;
}

set_nonce_lem :
    (s : ℕ → ℕ × ℕ) (a n b : ℕ)
    → ((db.set_nonce s a n b).0 ≡ (if a == b then n else (s b).0))
      × ((db.set_nonce s a n b).1 ≡ (s b).1)
set_nonce_lem s a n b = elim (Bool-cases (a == b)) [
  | inl e ↦ rw e (refl, refl)
  | inr e ↦ rw e (refl, refl)
]

sub_balance_lem :
    (s : ℕ → ℕ × ℕ) (a x b : ℕ)
    → ((db.sub_balance s a x b).0 ≡ (s b).0)
      × ((db.sub_balance s a x b).1 ≡ (if a == b then (s b).1 - x else (s b).1))
sub_balance_lem s a x b = elim (Bool-cases (a == b)) [
  | inl e ↦ rw e (refl, refl)
  | inr e ↦ rw e (refl, refl)
]

add_balance_lem :
    (s : ℕ → ℕ × ℕ) (a x b : ℕ)
    → ((db.add_balance s a x b).0 ≡ (s b).0)
      × ((db.add_balance s a x b).1 ≡ (if a == b then (s b).1 + x else (s b).1))
add_balance_lem s a x b = elim (Bool-cases (a == b)) [
  | inl e ↦ rw e (refl, refl)
  | inr e ↦ rw e (refl, refl)
]

pub db-laws : StateDbLaws db
db-laws = record {
  nonce-set_nonce = λ s a n b. (set_nonce_lem s a n b).0;
  balance-set_nonce = λ s a n b. (set_nonce_lem s a n b).1;
  nonce-sub_balance = λ s a x b. (sub_balance_lem s a x b).0;
  balance-sub_balance = λ s a x b le. (sub_balance_lem s a x b).1;
  nonce-add_balance = λ s a x b. (add_balance_lem s a x b).0;
  balance-add_balance = λ s a x b room. (add_balance_lem s a x b).1;
}

abbrev pub chain : Chain db
chain = record {
  Signer = ℕ;
  make_signer = λ number time. number;
  validate_transaction = λ tx h signer. ok tt;
  sender = λ signer tx. ok 5;
  header_hash = λ h. h.number + 100;
  can_execute_transaction = λ from to s. ok tt;
  empty_code_hash = 1;
  open_state = λ root. ok (λ a. (7, 1_000_000));
}

abbrev pub accounts : ℕ → ℕ × ℕ
accounts a = (7, 1_000_000)

abbrev clock : GasTime.Time
clock = record {
  time = record { seconds = 10; fraction = 3; hertz = 8000 };
  target = 4000;
  excess = 20;
  config = record { target_to_excess_scaling = 87; min_price = 1; static_pricing = false };
}

abbrev settings : GasPriceConfig
settings = record { target_to_excess_scaling = 87; min_price = 2; static_pricing = false }

abbrev hooks : Points
hooks = record {
  gas_config_after = λ h. (6000, settings);
  sub_second_block_time = λ h. 500_000_000;
  settled_height = λ h. 0;
}

abbrev header : Header
header = record { parent_hash = 106; number = 7; time = 12; root = 0; gas_limit = 0; base_fee = 0 }

-- A price that meets the laws.
abbrev linear_price : ℕ → ℕ → ℕ → ℕ
linear_price m x k = min (m + x) (max m max_u64)

linear_price-laws : PriceLaws linear_price
linear_price-laws = record { monotone = λ m k x y le. omega arith; starts = λ m k. omega arith }

clock-IsValid : IsValid clock
clock-IsValid = omega arith

hooks-IsLawful : IsLawful hooks
hooks-IsLawful = record { sub_second = λ h. omega arith; target_range = λ h. omega arith }

abbrev started : Header
started = record header { gas_limit = 80_000; base_fee = 21 }

-- In a block that has started, with 100 gas in it and 150,000 in the queue.
abbrev pub state : State db chain
state = record {
  accounts = accounts;
  clock = clock;
  expected_parent_hash = 106;
  q_size = 150_000;
  block_size = 100;
  max_block_size = 80_000;
  base_fee = some 21;
  curr = some started;
  signer = some 7;
  min_op_burner_balances = [];
}

-- A transfer of 1000 with a fee cap of 40 and a tip of 2.
abbrev pub transfer : Transaction
transfer = record {
  gas = 21_000;
  gas_fee_cap = 40;
  gas_tip_cap = 2;
  value = 1000;
  nonce = 7;
  to = some 6;
  payload = 0;
}

-- An operation that burns 300 of one account and mints 200 for another.
abbrev op : Op
op = record {
  id = 0;
  gas = 21_000;
  gas_fee_cap = 40;
  burn = (5, record { nonce = 7; amount = 300; min_balance = 400 }) ∷ [];
  mint = (6, 200) ∷ [];
}

abbrev bounds : WorstCaseBounds
bounds = record {
  max_base_fee = 21;
  latest_end_time = clock;
  min_op_burner_balances = noted db accounts op.burn ∷ [];
}

op-once : (a : ℕ) → debits op.burn a ≤ 1
op-once a = ground arith

op-nonces : (a : ℕ) → 7 + debits op.burn a ≤ max_u64
op-nonces a = omega (arith, op-once a)

op-credits : (a : ℕ) → 1_000_000 + minted op.mint a < 2 ^ 256
op-credits a = ground arith

op-IsUsable : IsUsable db db-laws chain state op
op-IsUsable = record {
  filled = omega arith;
  size_in = omega arith;
  once = op-once;
  nonces_in = λ a. omega arith;
  credits = op-credits;
}

state-IsFilled : IsFilled db chain state 21 started
state-IsFilled = record {
  valid = clock-IsValid;
  started = refl;
  header = refl;
  filled = omega arith;
  open_before = omega arith;
  closed_fits = omega arith;
}

apply_to_lem_example :
    (Covered db accounts op.burn
      × ((s' : db.Accounts) × (apply_to db op accounts ≡ ok s')
          × ((a : ℕ)
              → (db.get_balance s' a + burned op.burn a
                  ≡ db.get_balance accounts a + minted op.mint a)
                × (db.get_nonce s' a ≡ db.get_nonce accounts a + debits op.burn a))))
    ⊎ ((¬ Covered db accounts op.burn)
        × ((apply_to db op accounts ≡ err min_balance_below_amount)
            ⊎ (apply_to db op accounts ≡ err insufficient_funds)))
apply_to_lem_example = apply_to_lem db (db-laws) op accounts (op-once) (op-nonces) (op-credits)

tx_to_op_lem_example :
    (IsPayable transfer
      × ((o : Op) × (tx_to_op 5 transfer 21 ≡ ok o)
          × (o.burn ≡ (5, debit transfer 21) ∷ [])
          × (o.mint ≡ [])
          × (o.gas ≡ transfer.gas)
          × ((actual : ℕ) → actual ≤ 21 → cost transfer actual ≤ (debit transfer 21).amount)
          × ((debit transfer 21).amount ≤ (debit transfer 21).min_balance)))
    ⊎ ((¬ IsPayable transfer) × ((e : Error) × (tx_to_op 5 transfer 21 ≡ err e)))
tx_to_op_lem_example = tx_to_op_lem 5 transfer 21

apply_lem_example :
    (IsAdmissible db chain state 21 op
      × ((accounts : db.Accounts) × (apply db chain state op
            ≡ ok (extended db chain state op accounts))
          × IsExecuted db db-laws chain op state.accounts accounts))
    ⊎ ((¬ IsAdmissible db chain state 21 op) × ((e : Error) × (apply db chain state op ≡ err e)))
apply_lem_example = apply_lem db (db-laws) chain state 21 op (op-IsUsable) refl

start_and_fill_example :
    (clock : GasTime.Time) × (before_block state.clock hooks header ≡ ok clock)
    × (price linear_price clock ≤ price linear_price state.clock)
    × (((open_queue (safe_max_block_size clock) < state.q_size)
          × (start_block db chain linear_price hooks state header
              ≡ ok (resized db chain linear_price hooks state clock, some queue_full)))
        ⊎ ((s1 : State db chain) × (start_block db chain linear_price hooks state header
              ≡ ok (s1, none))
            × ((t : State db chain)
                → Fills db chain s1 t
                → (t.clock ≡ clock)
                  × (t.max_block_size ≡ safe_max_block_size clock)
                  × IsFilled db chain t (price linear_price clock) (record header {
                    gas_limit = safe_max_block_size clock;
                    base_fee = price linear_price clock;
                  }))))
start_and_fill_example =
    start_and_fill db chain linear_price (linear_price-laws) state header hooks (clock-IsValid)
      (hooks-IsLawful) (omega arith) refl

finish_block_lem_example :
    IsFinished db chain linear_price linear_price-laws state 21
      (new_config (hooks.gas_config_after started).1)
      (finish_block db chain linear_price hooks state)
finish_block_lem_example =
    finish_block_lem db chain linear_price (linear_price-laws) state 21 started hooks
      (state-IsFilled) (omega arith) (omega arith) (omega arith)

check_balance_bounds-noted_example :
    check_balance_bounds bounds (λ a. 5) 0 (burners (op.burn))
    ≡ underfunded db accounts (λ a. 5) (op.burn)
check_balance_bounds-noted_example =
    check_balance_bounds-noted db accounts bounds 0 op.burn (λ a. 5) refl
