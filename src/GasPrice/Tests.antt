-- ===== src/GasPrice/Tests.antt =====
-- A sort by insertion, a cache that forgets nothing, percentiles in whole numbers, and a chain of four
-- blocks, of which the last one is the head.
use strevm.GasPrice.History.Percentiles.{tip_percentiles-eq, tip_at}
use strevm.GasPrice.Suggested.{suggest_locked_lem, read, IsPrice, IsBounded}
use strevm.GasPrice.Valid.{IsValid}
use strevm.GasPrice.Cached.{block_at, recent_tips-eq, tips_of_chain, IsCoherent, Serves, LruLaws}
use strevm.GasPrice.Sorted.{AllAtLeast, IsAscending, count, IsSort}
use strevm.Base.{
  min, ==_iff, leb→le, history_depth_exhausted, Bool-cases, err, max, sym, leb, arith, Option, ◌≤ℤ◌,
  at_most, ◌<◌, ◌^◌, false, ℕ, ℤ, Bool, List, pos, ◌≡◌, ◌≤◌, refl, ap, ok, some, none, ◌∷◌, [], ◌+◌,
  ◌*◌, ◌/◌, if◌then◌else◌, ◌==◌, ◌⊎◌, inl, inr, ltb,
}
use strevm.WorstCase
use strevm.Blocks
use mathlib.Core.Option.{some-injective}
use mathlib.Core.List.{map}
use strevm.GasPrice.Calls.{suggest_gas_tip_cap_lem, Reached, WithinTips, start}
use strevm.Blocks.Access.{latest}
use strevm.GasPrice.History.{
  FeeHistory, tip_percentiles, Floats, fee_history, misordered, validate_percentiles,
  check_percentiles,
}
use strevm.GasPrice.History.Range.{Covers}
use strevm.GasPrice.History.Asked.{fee_history_lem}
use strevm.GasPrice.{
  suggest_locked, suggest_gas_tip_cap, recent_tips, validate, validate_tips, fresh, cache_size,
  Config, Transaction, Block, EthBlock, Backend, LruCache, new_block, new_estimator, Estimator,
}

insert : Transaction → List Transaction → List Transaction
insert t [] = t ∷ []
insert t (x ∷ xs) = let later = insert t xs in if at_most t.tip x.tip then t ∷ x ∷ xs else x ∷ later

abbrev sort : List Transaction → List Transaction
unfolding insert
sort [] = []
sort (t ∷ ts) = insert t (sort ts)

count-insert :
    (p : Transaction → Bool) (t : Transaction) (xs : List Transaction)
    → count p (insert t xs) ≡ (if p t then 1 else 0) + count p xs
unfolding insert
count-insert p t [] = refl
count-insert p t (x ∷ xs) = ground (arith, count-insert p t xs)

count-sort : (p : Transaction → Bool) (xs : List Transaction) → count p (sort xs) ≡ count p xs
unfolding sort
count-sort p [] = refl
count-sort p (t ∷ ts) = omega (arith, count-insert p t (sort ts), count-sort p ts)

at_least_mono : (v w : ℤ) (xs : List Transaction) → v ≤ℤ w → AllAtLeast w xs → AllAtLeast v xs
at_least_mono v w [] low every = tt
at_least_mono v w (x ∷ xs) low (here, rest) = (omega arith, at_least_mono v w xs low rest)

at_least-insert :
    (v : ℤ) (t : Transaction) (xs : List Transaction)
    → v ≤ℤ t.tip
    → AllAtLeast v xs
    → AllAtLeast v (insert t xs)
unfolding insert
at_least-insert v t [] low every = (low, tt)
at_least-insert v t (x ∷ xs) low (here, rest) = elim (Bool-cases (at_most t.tip x.tip)) [
  | inl first ↦ rw first (low, (here, rest))
  | inr later ↦ rw later (here, at_least-insert v t xs low rest)
]

insert-IsAscending :
    (t : Transaction) (xs : List Transaction) → IsAscending xs → IsAscending (insert t xs)
unfolding insert
insert-IsAscending t [] up = (tt, tt)
insert-IsAscending t (x ∷ xs) (least, up) = elim (Bool-cases (at_most t.tip x.tip)) [
  | inl first ↦
      let low : t.tip ≤ℤ x.tip = leb→le _ _ first in
      rw first ((low, at_least_mono t.tip x.tip xs low least), (least, up))
  | inr later ↦
      let high : x.tip ≤ℤ t.tip = ground arith in
      rw later (at_least-insert x.tip t xs high least, insert-IsAscending t xs up)
]

sort-IsAscending : (xs : List Transaction) → IsAscending (sort xs)
unfolding sort
sort-IsAscending [] = tt
sort-IsAscending (t ∷ ts) = insert-IsAscending t (sort ts) (sort-IsAscending ts)

sort-IsSort : IsSort sort
sort-IsSort = record { counts = count-sort; ascends = sort-IsAscending }

abbrev put_at : (ℕ → Option Block) → ℕ → Block → ℕ → Option Block
put_at c n b k = if k == n then some b else c k

abbrev lru : LruCache
lru = record {
  Carrier = ℕ → Option Block;
  new_cache = λ size n. none;
  get = λ c n. (c, c n);
  put = put_at;
}

put_at-adds :
    (c : ℕ → Option Block) (n k : ℕ) (b b' : Block)
    → put_at c n b k ≡ some b'
    → ((k ≡ n) × (b' ≡ b)) ⊎ (c k ≡ some b')
put_at-adds c n k b b' held = elim (Bool-cases (k == n)) [
  | inl same ↦ inl ((==_iff k n).0 same, sym (some-injective _ _ (rw same at held)))
  | inr other ↦ inr (rw other at held)
]

abbrev lru-LruLaws : LruLaws lru
lru-LruLaws = record {
  Holds = λ c n b. c n ≡ some b;
  new_empty = λ size n b held. absurd (ground arith);
  hit = λ c n b found. found;
  get_keeps = λ c n k b held. held;
  put_adds = put_at-adds;
}

abbrev floats : Floats
floats = record {
  Float = ℕ;
  less = ltb;
  at_most = leb;
  of_u64 = λ n. n;
  threshold = λ gas p. gas * p / 100;
  ratio = λ used limit. used * 100 / limit;
}

-- The tip of a transaction, whatever the base fee.
abbrev tip_value : WorstCase.Transaction → ℕ → ℤ
tip_value tx base_fee = pos tx.gas_tip_cap

abbrev tx : ℕ → ℕ → WorstCase.Transaction
tx gas tip = record {
  gas = gas;
  gas_fee_cap = 100;
  gas_tip_cap = tip;
  value = 0;
  nonce = 0;
  to = none;
  payload = 0;
}

abbrev block_of : ℕ → EthBlock
block_of n = record {
  number = n;
  time = 1000 + n;
  gas_used = 60_000;
  gas_limit = 1_000_000;
  base_fee = some (20 + n);
  transactions = tx 21_000 (9 + n) ∷ tx 42_000 3 ∷ [];
}

-- Blocks up to the height of three; the chain does not end for what lies above.
abbrev chain : ℕ → Option EthBlock
chain n = some (block_of n)

abbrev head : Blocks.Block
head = record {
  header = record {
    number = 3;
    parent_hash = 103;
    root = 0;
    time = 1003;
    base_fee = 23;
    gas_limit = 1_000_000;
  };
  hash = 104;
  ancestry = none;
  synchronous = false;
  bounds = none;
  execution = none;
  interim_execution_time = none;
  executed = false;
  settled = false;
}

abbrev backend : Backend
backend = record {
  resolve_block_number = λ bn. ok 2;
  block_by_number = λ n. ok (chain n);
  last_accepted_block = head;
  moment = 7;
}

backend-Serves : Serves chain backend
backend-Serves = record {
  serves = λ n. refl;
  numbered = λ n blk found. ap (λ (b : EthBlock). b.number) (sym (some-injective _ _ found));
}

abbrev config : Config
config = record {
  now = some (λ moment. record { unix = 1003 + moment; nanosecond = 0 });
  min_suggested_tip = some (pos 1);
  suggested_tip_percentile = 40;
  max_suggested_tip = some (pos 10);
  suggested_tip_max_blocks = 2;
  suggested_tip_max_duration = 60 * 10 ^ 9;
  history_max_blocks_from_head = 10;
  history_max_blocks = 5;
}

abbrev estimator : Estimator tip_value sort lru
estimator = record { config = config; number = 0; price = pos 1; cache = λ n. none }

abbrev config-IsValid : IsValid config
config-IsValid = record {
  clock = λ moment. record { unix = 1003 + moment; nanosecond = 0 };
  lowest = pos 1;
  highest = pos 10;
  has_clock = refl;
  has_lowest = refl;
  has_highest = refl;
  ordered = omega arith;
  positive = omega arith;
  percent = omega arith;
}

estimator-IsBounded : IsBounded tip_value sort lru sort-IsSort estimator
estimator-IsBounded = record {
  valid = config-IsValid;
  not_below = omega arith;
  not_above = omega arith;
}

made : new_estimator tip_value sort lru config ≡ ok estimator
unfolding new_estimator validate validate_tips fresh cache_size
made = refl

empty-IsCoherent : IsCoherent tip_value sort lru lru-LruLaws chain (λ n. none)
empty-IsCoherent n b held = absurd (ground arith)

suggest_locked_lem_example :
    (f : Estimator tip_value sort lru) × (price : ℤ) × (suggest_locked tip_value sort lru backend 3
        estimator
      ≡ ok (f, price))
    × IsBounded tip_value sort lru sort-IsSort f
    × (f.config ≡ estimator.config)
    × (f.price ≡ price)
    × (f.number ≡ max 3 estimator.number)
    × ((3 ≤ estimator.number) × (f ≡ estimator)
        ⊎ (estimator.number < 3)
          × IsPrice tip_value sort lru sort-IsSort estimator
              (estimator-IsBounded).valid
              (read tip_value sort lru sort-IsSort backend 3 estimator (estimator-IsBounded)).1
              price)
suggest_locked_lem_example =
    suggest_locked_lem tip_value sort lru (sort-IsSort) backend 3 estimator (estimator-IsBounded)

suggest_gas_tip_cap_lem_example :
    (g : Estimator tip_value sort lru) × (price : ℤ) × (suggest_gas_tip_cap tip_value sort lru
        backend
        (λ e. e)
        estimator
      ≡ ok (g, price))
    × WithinTips config price
    × Reached tip_value sort lru sort-IsSort estimator g
    × (estimator.number ≤ g.number)
    × (backend.last_accepted_block.header.number ≤ g.number)
suggest_gas_tip_cap_lem_example =
    suggest_gas_tip_cap_lem tip_value sort lru (sort-IsSort) config estimator estimator backend
      (λ e. e) made start start

recent_tips-eq_example :
    ((recent_tips tip_value sort lru backend 950 2 3 (λ n. none)).1
      ≡ tips_of_chain tip_value sort lru lru-LruLaws chain 950 2 3)
    × IsCoherent tip_value sort lru lru-LruLaws chain
        (recent_tips tip_value sort lru backend 950 2 3 (λ n. none)).0
recent_tips-eq_example =
    recent_tips-eq tip_value sort lru (lru-LruLaws) chain backend 950 2 3 (λ n. none)
      (backend-Serves) (empty-IsCoherent)

present : (n : ℕ) → n ≤ 3 → (b : Block) × (block_at tip_value sort lru lru-LruLaws chain n ≡ some b)
present n low = (new_block tip_value sort (block_of n), refl)

valid_percentiles : validate_percentiles floats (10 ∷ 90 ∷ []) ≡ ok tt
unfolding validate_percentiles check_percentiles misordered
valid_percentiles = refl

abbrev calculate_price : ℕ → ℕ → ℕ → ℕ
calculate_price low excess scaling = low

fee_history_lem_example :
    ((2 + config.history_max_blocks_from_head < backend.last_accepted_block.header.number)
      × ((fee_history floats tip_value sort lru backend calculate_price
            (λ k. none)
            config
            (λ n. none)
            3
            latest
            (10 ∷ 90 ∷ [])).1
          ≡ err history_depth_exhausted))
    ⊎ ((backend.last_accepted_block.header.number ≤ 2 + config.history_max_blocks_from_head)
        × ((h : FeeHistory floats) × ((fee_history floats tip_value sort lru backend calculate_price
                (λ k. none)
                config
                (λ n. none)
                3
                latest
                (10 ∷ 90 ∷ [])).1
              ≡ ok h)
            × (((min 3 config.history_max_blocks ≡ 0) × (h.base_fees ≡ []))
                ⊎ Covers floats tip_value sort lru
                    (lru-LruLaws)
                    chain
                    backend
                    (backend-Serves)
                    calculate_price
                    (10 ∷ 90 ∷ [])
                    2
                    (min 3 (min config.history_max_blocks (2 + 1)))
                    h)))
fee_history_lem_example =
    fee_history_lem floats tip_value sort lru (lru-LruLaws) chain backend (backend-Serves)
      calculate_price config (λ n. none) 3 latest (10 ∷ 90 ∷ []) 2 (empty-IsCoherent) (omega arith)
      (omega arith) (omega arith) (omega arith) present valid_percentiles refl

abbrev sample : Block
sample = record {
  timestamp = 1003;
  gas_used = 60_000;
  gas_limit = 1_000_000;
  base_fee = 23;
  txs = record { gas = 42_000; tip = pos 3 } ∷ record { gas = 21_000; tip = pos 12 } ∷ [];
}

tip_percentiles-eq_example :
    tip_percentiles floats sample (10 ∷ 90 ∷ [])
    ≡ map (tip_at floats sample.gas_used sample.txs) (10 ∷ 90 ∷ [])
tip_percentiles-eq_example =
    tip_percentiles-eq floats sample (10 ∷ 90 ∷ []) (omega arith, (omega arith, tt)) (omega arith)
