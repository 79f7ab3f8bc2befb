-- ===== src/TxGossip/Priority.antt =====
-- The priority of transactions of txgossip/priority.go: the tip that counts, and when the comparison is
-- an order that a sort can work with.
use mathlib.Core.List.{Memᴰ}
use strevm.Base.{
  compare, dec_lt, ◌<◌, ==_iff, ◌==◌, Bool-cases, arith, ◌↔◌, some, List, Ordering, Option, none,
  ◌≡◌, ◌≢◌, ◌<◌, ◌-◌, min, refl, ap, ◌⊎◌, inl, inr, ℕ, [], ◌∷◌,
}
use strevm.TxGossip.{
  all_pending, transactions_by_priority, PoolTransaction, effective_gas_tip, compare_txs,
  LazyTransaction,
}

-- Without a base fee the tip that counts is the tip cap; otherwise it is the tip cap or what the fee cap
-- leaves above the base fee, the lower one, and zero if the fee cap is below the base fee.
pub effective_gas_tip-eq-min :
    (ltx : LazyTransaction) (base_fee : ℕ)
    → (effective_gas_tip ltx none ≡ ltx.tx.gas_tip_cap)
      × (effective_gas_tip ltx (some base_fee)
          ≡ min ltx.tx.gas_tip_cap (ltx.tx.gas_fee_cap - base_fee))
unfolding effective_gas_tip
effective_gas_tip-eq-min ltx base_fee = (refl, ground arith)

-- `a` goes before `b`: its tip is higher, or the tips are equal and it was seen earlier.
abbrev pub Before : Option ℕ → LazyTransaction → LazyTransaction → Type 0
Before base_fee a b =
    (effective_gas_tip b base_fee < effective_gas_tip a base_fee)
    ⊎ ((effective_gas_tip b base_fee ≡ effective_gas_tip a base_fee) × (a.tx.time < b.tx.time))

module _ {ℓ} {A : Type ℓ} where
  -- What slices.SortStableFunc requires of a comparison, on the elements of a list.
  pub record IsWeakOrder (cmp : A → A → Ordering) (xs : List A) : Type ℓ where
    pub antisymmetric :
        (a b : A) → Memᴰ a xs → Memᴰ b xs → cmp a b ≡ Ordering.gt → cmp b a ≢ Ordering.gt
    pub transitive :
        (a b c : A)
        → Memᴰ a xs
        → Memᴰ b xs
        → Memᴰ c xs
        → cmp a b ≢ Ordering.gt
        → cmp b c ≢ Ordering.gt
        → cmp a c ≢ Ordering.gt

  abbrev pub NotAbove : (A → A → Ordering) → A → List A → Type 0
  NotAbove cmp x [] = Unit {0}
  NotAbove cmp x (y ∷ ys) = (cmp x y ≢ Ordering.gt) × NotAbove cmp x ys

  abbrev pub IsSorted : (A → A → Ordering) → List A → Type 0
  IsSorted cmp [] = Unit {0}
  IsSorted cmp (x ∷ xs) = NotAbove cmp x xs × IsSorted cmp xs

-- What it gives in return.
pub record SortLaws
    (sort : (LazyTransaction → LazyTransaction → Ordering)
      → List LazyTransaction
      → List LazyTransaction)
    : Type 0 where
  pub members :
      (cmp : LazyTransaction → LazyTransaction → Ordering) (a : LazyTransaction)
      (xs : List LazyTransaction)
      → (Memᴰ a (sort cmp xs) → Memᴰ a xs) × (Memᴰ a xs → Memᴰ a (sort cmp xs))
  pub sorted :
      (cmp : LazyTransaction → LazyTransaction → Ordering) (xs : List LazyTransaction)
      → IsWeakOrder cmp xs
      → IsSorted cmp (sort cmp xs)

-- No two transactions of one sender.
abbrev pub OneEach : List LazyTransaction → Type 0
OneEach xs = (a b : LazyTransaction) → Memᴰ a xs → Memᴰ b xs → a.sender ≡ b.sender → a ≡ b

-- No transaction stands behind one that it goes before.
abbrev pub NoneBefore : Option ℕ → LazyTransaction → List LazyTransaction → Type 0
NoneBefore base_fee x [] = Unit {0}
NoneBefore base_fee x (y ∷ ys) = ¬ Before base_fee y x × NoneBefore base_fee x ys

abbrev pub ByPriority : Option ℕ → List LazyTransaction → Type 0
ByPriority base_fee [] = Unit {0}
ByPriority base_fee (x ∷ xs) = NoneBefore base_fee x xs × ByPriority base_fee xs

-- The comparison of numbers in `compare_txs`: it is not greater unless the second pair goes before.
numbers_iff :
    (x y s t : ℕ)
    → (elim (compare x y) as (λ o. Ordering) [
      | Ordering.lt ↦ Ordering.gt
      | Ordering.gt ↦ Ordering.lt
      | Ordering.eq ↦ compare s t
    ]
        ≢ Ordering.gt)
      ↔ ¬ ((x < y) ⊎ ((x ≡ y) × (t < s)))
numbers_iff x y s t = (
  λ not_gt. λ before. ground arith,
  λ none_before. λ is_gt. elim (dec_lt x y) [
    | yes below ↦ none_before (inl below)
    | no not_below ↦ elim (dec_lt y x) [
      | yes above ↦ absurd (ground arith)
      | no not_above ↦ none_before (inr (omega arith, ground arith))
    ]
  ],
)

module _ (base_fee : Option ℕ) where
  -- For different senders, and for equal transactions, the comparison decides `Before`.
  compare_txs_iff :
      (a b : LazyTransaction)
      → (a.sender ≡ b.sender → a ≡ b)
      → (compare_txs base_fee a b ≢ Ordering.gt) ↔ (¬ Before base_fee b a)
  unfolding compare_txs
  compare_txs_iff a b one = elim (Bool-cases (a.sender == b.sender)) [
    | inl same ↦
        let equal = one ((==_iff a.sender b.sender).0 same) in
        let tips : effective_gas_tip a base_fee ≡ effective_gas_tip b base_fee =
          ap (λ t. effective_gas_tip t base_fee) equal in
        let times : a.tx.time ≡ b.tx.time = ap (λ (t : LazyTransaction). t.tx.time) equal in
        (λ not_gt. λ before. omega arith, λ none_before. λ is_gt. ground arith)
    | inr other ↦ rw other (
        numbers_iff (effective_gas_tip a base_fee) (effective_gas_tip b base_fee) a.tx.time
          b.tx.time)
  ]

  -- With one transaction of each sender the comparison is an order as the sort requires.
  compare_txs-IsWeakOrder :
      (xs : List LazyTransaction) → OneEach xs → IsWeakOrder (compare_txs base_fee) xs
  compare_txs-IsWeakOrder xs one = record {
    antisymmetric = λ a b at_a at_b is_gt.
        (compare_txs_iff b a (one b a at_b at_a)).1
          λ before. (compare_txs_iff a b (one a b at_a at_b)).1 (λ other. omega arith) is_gt;
    transitive = λ a b c at_a at_b at_c first second.
        let ab : ¬ Before base_fee b a = (compare_txs_iff a b (one a b at_a at_b)).0 first in
        let bc : ¬ Before base_fee c b = (compare_txs_iff b c (one b c at_b at_c)).0 second in
        (compare_txs_iff a c (one a c at_a at_c)).1 λ before. ground arith;
  }

  none_before :
      (x : LazyTransaction) (ys : List LazyTransaction)
      → ((y : LazyTransaction) → Memᴰ y ys → x.sender ≡ y.sender → x ≡ y)
      → NotAbove (compare_txs base_fee) x ys
      → NoneBefore base_fee x ys
  none_before x [] one sorted = tt
  none_before x (y ∷ ys) one (here, rest) = (
    (compare_txs_iff x y (one y (Memᴰ.head refl))).0 here,
    none_before x ys (λ z at_z. one z (Memᴰ.tail at_z)) rest,
  )

  by_priority :
      (ys : List LazyTransaction)
      → OneEach ys
      → IsSorted (compare_txs base_fee) ys
      → ByPriority base_fee ys
  by_priority [] one sorted = tt
  by_priority (y ∷ ys) one (here, rest) = (
    none_before y ys (λ z at_z. one y z (Memᴰ.head refl) (Memᴰ.tail at_z)) here,
    by_priority ys (λ a b at_a at_b. one a b (Memᴰ.tail at_a) (Memᴰ.tail at_b)) rest,
  )

  -- If no sender has more than one transaction pending, TransactionsByPriority returns the pending
  -- transactions, by decreasing effective tip and then by the time when they were first seen.
  pub transactions_by_priority-ByPriority :
      (sort : (LazyTransaction → LazyTransaction → Ordering)
        → List LazyTransaction
        → List LazyTransaction)
      (pending : List (ℕ × List PoolTransaction))
      → SortLaws sort
      → OneEach (all_pending pending)
      → ByPriority base_fee (transactions_by_priority sort pending base_fee)
        × ((a : LazyTransaction)
            → (Memᴰ a (transactions_by_priority sort pending base_fee)
                → Memᴰ a (all_pending pending))
              × (Memᴰ a (all_pending pending)
                  → Memᴰ a (transactions_by_priority sort pending base_fee)))
  unfolding transactions_by_priority
  transactions_by_priority-ByPriority sort pending laws one = (
    by_priority (sort (compare_txs base_fee) (all_pending pending))
        (λ a b at_a at_b.
          one a b ((laws.members (compare_txs base_fee) a (all_pending pending)).0 at_a)
            ((laws.members (compare_txs base_fee) b (all_pending pending)).0 at_b))
        (laws.sorted (compare_txs base_fee) (all_pending pending)
          (compare_txs-IsWeakOrder (all_pending pending) one)),
    λ a. laws.members (compare_txs base_fee) a (all_pending pending),
  )

  -- With two transactions of one sender and one of another whose tip is between theirs, the comparison is
  -- no such order.
  pub compare_txs-not_weak :
      (a b c : LazyTransaction) (rest : List LazyTransaction)
      → a.sender ≡ b.sender
      → c.sender ≢ a.sender
      → effective_gas_tip a base_fee < effective_gas_tip c base_fee
      → effective_gas_tip c base_fee < effective_gas_tip b base_fee
      → ¬ IsWeakOrder (compare_txs base_fee) (a ∷ b ∷ c ∷ rest)
  unfolding compare_txs
  compare_txs-not_weak a b c rest same other low high weak =
      weak.transitive a b c (Memᴰ.head refl) (Memᴰ.tail (Memᴰ.head refl))
        (Memᴰ.tail (Memᴰ.tail (Memᴰ.head refl))) (λ is_gt. ground arith) (λ is_gt. ground arith)
        (ground arith)
