-- ===== src/TxGossip/Tests.antt =====
-- A sort by insertion, and transactions of two senders.
use strevm.TxGossip.Priority.{
  effective_gas_tip-eq-min, compare_txs-not_weak, transactions_by_priority-ByPriority, IsSorted,
  NotAbove, IsWeakOrder, ByPriority, OneEach, SortLaws,
}
use mathlib.Core.List.{Memᴰ}
use strevm.Base.{
  ◌↔◌, ◌-◌, arith, true, ◌<◌, min, ℕ, ◌∙◌, List, Ordering, ◌≡◌, ◌≢◌, refl, [], ◌∷◌, none, some, inl,
  inr, ap, sym, if◌then◌else◌, Bool-cases,
}
use strevm.Blocks.Settlement.{is_gt}
use strevm.TxGossip.{
  LazyTransaction, PoolTransaction, effective_gas_tip, compare_txs, all_pending, of_sender,
  transactions_by_priority,
}

abbrev Cmp : Type 0
Cmp = LazyTransaction → LazyTransaction → Ordering

insert : Cmp → LazyTransaction → List LazyTransaction → List LazyTransaction
insert cmp x [] = x ∷ []
insert cmp x (y ∷ ys) =
    let later = insert cmp x ys in if is_gt (cmp x y) then y ∷ later else x ∷ y ∷ ys

insertion_sort : Cmp → List LazyTransaction → List LazyTransaction
unfolding insert
insertion_sort cmp [] = []
insertion_sort cmp (x ∷ xs) = insert cmp x (insertion_sort cmp xs)

gt_iff : (o : Ordering) → (is_gt o ≡ true) ↔ (o ≡ Ordering.gt)
gt_iff o = ground arith

-- Membership under a first element.
under :
    (a x : LazyTransaction) (ys zs : List LazyTransaction)
    → (Memᴰ a ys → Memᴰ a zs)
    → Memᴰ a (x ∷ ys)
    → Memᴰ a (x ∷ zs)
under a x ys zs rest (Memᴰ.head p) = Memᴰ.head p
under a x ys zs rest (Memᴰ.tail at) = Memᴰ.tail (rest at)

swapped :
    (a x y : LazyTransaction) (ys : List LazyTransaction) {zs : List LazyTransaction}
    → (Memᴰ a (x ∷ ys) → Memᴰ a zs)
    → Memᴰ a (x ∷ y ∷ ys)
    → Memᴰ a (y ∷ zs)
swapped a x y ys rest (Memᴰ.head p) = Memᴰ.tail (rest (Memᴰ.head p))
swapped a x y ys rest (Memᴰ.tail (Memᴰ.head p)) = Memᴰ.head p
swapped a x y ys rest (Memᴰ.tail (Memᴰ.tail at)) = Memᴰ.tail (rest (Memᴰ.tail at))

skips :
    (a x y : LazyTransaction) (ys : List LazyTransaction) → Memᴰ a (x ∷ ys) → Memᴰ a (x ∷ y ∷ ys)
skips a x y ys (Memᴰ.head p) = Memᴰ.head p
skips a x y ys (Memᴰ.tail at) = Memᴰ.tail (Memᴰ.tail at)

behind_first :
    (a x y : LazyTransaction) (ys : List LazyTransaction) {zs : List LazyTransaction}
    → (Memᴰ a zs → Memᴰ a (x ∷ ys))
    → Memᴰ a (y ∷ zs)
    → Memᴰ a (x ∷ y ∷ ys)
behind_first a x y ys rest (Memᴰ.head p) = Memᴰ.tail (Memᴰ.head p)
behind_first a x y ys rest (Memᴰ.tail at) = skips a x y ys (rest at)

apart : (a b x y : LazyTransaction) → a ≡ x → b ≡ y → a.sender ≡ b.sender → x.sender ≡ y.sender
apart a b x y p q same =
    sym (ap (λ (t : LazyTransaction). t.sender) p) ∙ same ∙ ap (λ (t : LazyTransaction). t.sender) q

module _ (cmp : Cmp) where
  insert_from :
      (a x : LazyTransaction) (ys : List LazyTransaction)
      → Memᴰ a (insert cmp x ys)
      → Memᴰ a (x ∷ ys)
  unfolding insert
  insert_from a x [] at = at
  insert_from a x (y ∷ ys) at = elim (Bool-cases (is_gt (cmp x y))) [
    | inl behind ↦ behind_first a x y ys (insert_from a x ys) (rw behind at at)
    | inr first ↦ rw first at at
  ]

  insert_into :
      (a x : LazyTransaction) (ys : List LazyTransaction)
      → Memᴰ a (x ∷ ys)
      → Memᴰ a (insert cmp x ys)
  unfolding insert
  insert_into a x [] at = at
  insert_into a x (y ∷ ys) at = elim (Bool-cases (is_gt (cmp x y))) [
    | inl behind ↦ rw behind (swapped a x y ys (insert_into a x ys) at)
    | inr first ↦ rw first at
  ]

  above_all :
      (zs : List LazyTransaction) (weak : IsWeakOrder cmp zs) (x y : LazyTransaction)
      (ys : List LazyTransaction)
      → Memᴰ x zs
      → Memᴰ y zs
      → ((a : LazyTransaction) → Memᴰ a ys → Memᴰ a zs)
      → cmp x y ≢ Ordering.gt
      → NotAbove cmp y ys
      → NotAbove cmp x ys
  above_all zs weak x y [] at_x at_y inside first rest = tt
  above_all zs weak x y (z ∷ ys) at_x at_y inside first (here, rest) = (
    weak.transitive x y z at_x at_y (inside z (Memᴰ.head refl)) first here,
    above_all zs weak x y ys at_x at_y (λ a at. inside a (Memᴰ.tail at)) first rest,
  )

  NotAbove-insert :
      (z x : LazyTransaction) (ys : List LazyTransaction)
      → cmp z x ≢ Ordering.gt
      → NotAbove cmp z ys
      → NotAbove cmp z (insert cmp x ys)
  unfolding insert
  NotAbove-insert z x [] first every = (first, tt)
  NotAbove-insert z x (y ∷ ys) first (here, rest) = elim (Bool-cases (is_gt (cmp x y))) [
    | inl behind ↦ rw behind (here, NotAbove-insert z x ys first rest)
    | inr before ↦ rw before (first, (here, rest))
  ]

  insert-IsSorted :
      (zs : List LazyTransaction) (weak : IsWeakOrder cmp zs) (x : LazyTransaction)
      (ys : List LazyTransaction)
      → ((a : LazyTransaction) → Memᴰ a (x ∷ ys) → Memᴰ a zs)
      → IsSorted cmp ys
      → IsSorted cmp (insert cmp x ys)
  unfolding insert
  insert-IsSorted zs weak x [] inside sorted = (tt, tt)
  insert-IsSorted zs weak x (y ∷ ys) inside (here, sorted) = elim (Bool-cases (is_gt (cmp x y))) [
    | inl behind ↦
        let at_x = inside x (Memᴰ.head refl) in
        let at_y = inside y (Memᴰ.tail (Memᴰ.head refl)) in
        let under : cmp y x ≢ Ordering.gt =
          weak.antisymmetric x y at_x at_y ((gt_iff (cmp x y)).0 behind) in
        rw behind (
          NotAbove-insert y x ys under here,
          insert-IsSorted zs weak x ys (λ a at. inside a (skips a x y ys at)) sorted,
        )
    | inr before ↦
        let at_x = inside x (Memᴰ.head refl) in
        let at_y = inside y (Memᴰ.tail (Memᴰ.head refl)) in
        let under : cmp x y ≢ Ordering.gt = λ above. ground arith in
        rw before (
          (
            under,
            above_all zs weak x y ys at_x at_y (λ a at. inside a (Memᴰ.tail (Memᴰ.tail at))) under
                here,
          ),
          (here, sorted),
        )
  ]

  sort_members :
      (a : LazyTransaction) (xs : List LazyTransaction)
      → (Memᴰ a (insertion_sort cmp xs) → Memᴰ a xs) × (Memᴰ a xs → Memᴰ a (insertion_sort cmp xs))
  unfolding insertion_sort
  sort_members a [] = (λ at. at, λ at. at)
  sort_members a (x ∷ xs) =
      let (from, into) = sort_members a xs in
      (
        λ at.
            under a x (insertion_sort cmp xs) xs from (insert_from a x (insertion_sort cmp xs) at),
        λ at.
            insert_into a x (insertion_sort cmp xs) (under a x xs (insertion_sort cmp xs) into at),
      )

  sort-IsSorted :
      (zs : List LazyTransaction) (weak : IsWeakOrder cmp zs) (xs : List LazyTransaction)
      → ((a : LazyTransaction) → Memᴰ a xs → Memᴰ a zs)
      → IsSorted cmp (insertion_sort cmp xs)
  unfolding insertion_sort
  sort-IsSorted zs weak [] inside = tt
  sort-IsSorted zs weak (x ∷ xs) inside =
      insert-IsSorted zs weak x (insertion_sort cmp xs)
        (λ a at. inside a (under a x (insertion_sort cmp xs) xs (λ b. (sort_members a xs).0 b) at))
        (sort-IsSorted zs weak xs (λ a at. inside a (Memᴰ.tail at)))

insertion_sort-SortLaws : SortLaws insertion_sort
insertion_sort-SortLaws = record {
  members = λ cmp a xs. sort_members cmp a xs;
  sorted = λ cmp xs weak. sort-IsSorted cmp xs weak xs (λ a at. at);
}

abbrev seen : ℕ → ℕ → ℕ → PoolTransaction
seen hash time tip = record { hash = hash; time = time; gas_fee_cap = 100; gas_tip_cap = tip }

abbrev of : ℕ → ℕ → ℕ → LazyTransaction
of from hash tip = record { tx = seen hash 5 tip; sender = from }

abbrev pending : List (ℕ × List PoolTransaction)
pending = (1, seen 11 5 2 ∷ []) ∷ (2, seen 12 4 3 ∷ []) ∷ []

different_senders : OneEach (all_pending pending)
unfolding all_pending of_sender
different_senders a b (Memᴰ.head p) (Memᴰ.head q) same = p ∙ sym q
different_senders a b (Memᴰ.head p) (Memᴰ.tail (Memᴰ.head q)) same =
    absurd (omega (arith, apart a b _ _ p q same))
different_senders a b (Memᴰ.tail (Memᴰ.head p)) (Memᴰ.head q) same =
    absurd (omega (arith, apart a b _ _ p q same))
different_senders a b (Memᴰ.tail (Memᴰ.head p)) (Memᴰ.tail (Memᴰ.head q)) same = p ∙ sym q
different_senders a b (Memᴰ.head p) (Memᴰ.tail (Memᴰ.tail at)) same = elim at [ ]
different_senders a b (Memᴰ.tail (Memᴰ.head p)) (Memᴰ.tail (Memᴰ.tail at)) same = elim at [ ]
different_senders a b (Memᴰ.tail (Memᴰ.tail at)) other same = elim at [ ]

transactions_by_priority-ByPriority_example :
    ByPriority none (transactions_by_priority insertion_sort pending none)
    × ((a : LazyTransaction)
        → (Memᴰ a (transactions_by_priority insertion_sort pending none)
            → Memᴰ a (all_pending pending))
          × (Memᴰ a (all_pending pending)
              → Memᴰ a (transactions_by_priority insertion_sort pending none)))
transactions_by_priority-ByPriority_example =
    transactions_by_priority-ByPriority none insertion_sort pending (insertion_sort-SortLaws)
      different_senders

effective_gas_tip-eq-min_example :
    (effective_gas_tip (of 1 11 3) none ≡ (of 1 11 3).tx.gas_tip_cap)
    × (effective_gas_tip (of 1 11 3) (some 98)
        ≡ min (of 1 11 3).tx.gas_tip_cap ((of 1 11 3).tx.gas_fee_cap - 98))
effective_gas_tip-eq-min_example = effective_gas_tip-eq-min (of 1 11 3) 98

tips_ascend :
    (effective_gas_tip (of 1 11 1) none < effective_gas_tip (of 2 13 2) none)
    × (effective_gas_tip (of 2 13 2) none < effective_gas_tip (of 1 12 3) none)
unfolding effective_gas_tip
tips_ascend = (omega arith, omega arith)

compare_txs-not_weak_example :
    ¬ IsWeakOrder (compare_txs none) ((of 1 11 1) ∷ (of 1 12 3) ∷ (of 2 13 2) ∷ ([]))
compare_txs-not_weak_example =
    compare_txs-not_weak none (of 1 11 1) (of 1 12 3) (of 2 13 2) ([]) refl (λ same. omega arith)
      (tips_ascend.0) (tips_ascend.1)
