-- ===== src/GasPrice/Sorted.antt =====
-- slices.SortFunc on the transactions of gasprice/block_cache.go, and the place of an element that is
-- sorted: how many tips are no higher, and how many are no lower.
use strevm.Base.{
  some, ◌≤ℤ◌, arith, [], get_elem?, at_most, length, true, ◌∷◌, ℤ, List, ◌≡◌, ◌≤◌, ◌+◌, refl, ℕ,
  suc, zero, Bool, if◌then◌else◌,
}
use mathlib.Core.Path.{subst}
use mathlib.Core.Option.{some-injective}
use strevm.GasPrice.{Transaction}

module _ {ℓ} {A : Type ℓ} where
  abbrev pub count : (A → Bool) → List A → ℕ
  count p [] = 0
  count p (x ∷ xs) = (if p x then 1 else 0) + count p xs

  count-all : (p : A → Bool) (xs : List A) → ((x : A) → p x ≡ true) → count p xs ≡ length xs
  count-all p [] every = refl
  count-all p (x ∷ xs) every = rw (every x) (omega (arith, count-all p xs every))

  -- What sorting keeps.
  pub length_of_counts :
      (sort : List A → List A)
      → ((p : A → Bool) (xs : List A) → count p (sort xs) ≡ count p xs)
      → (xs : List A) → length (sort xs) ≡ length xs
  length_of_counts sort counts xs = omega (
    arith,
    count-all (λ (x : A). true) (sort xs) (λ x. refl),
    count-all (λ (x : A). true) xs (λ x. refl),
    counts (λ (x : A). true) xs,
  )

abbrev pub AllAtLeast : ℤ → List Transaction → Type 0
AllAtLeast v [] = Unit {0}
AllAtLeast v (t ∷ ts) = (v ≤ℤ t.tip) × AllAtLeast v ts

abbrev pub IsAscending : List Transaction → Type 0
IsAscending [] = Unit {0}
IsAscending (t ∷ ts) = AllAtLeast t.tip ts × IsAscending ts

-- `slices.SortFunc` with `transaction.Compare`: a permutation, which keeps the number of elements that
-- pass a test, that ascends.
pub record IsSort (sort : List Transaction → List Transaction) : Type 0 where
  pub counts : (p : Transaction → Bool) (xs : List Transaction) → count p (sort xs) ≡ count p xs
  pub ascends : (xs : List Transaction) → IsAscending (sort xs)

abbrev pub no_higher : ℤ → Transaction → Bool
no_higher v t = at_most t.tip v

abbrev pub no_lower : ℤ → Transaction → Bool
no_lower v t = at_most v t.tip

count-no_lower :
    (v : ℤ) (ts : List Transaction) → AllAtLeast v ts → count (no_lower v) ts ≡ length ts
count-no_lower v [] every = refl
count-no_lower v (t ∷ ts) (here, rest) = ground (arith, count-no_lower v ts rest)

at_least-get :
    (ts : List Transaction) (i : ℕ) (t : Transaction) (v : ℤ)
    → AllAtLeast v ts
    → get_elem? ts i ≡ some t
    → v ≤ℤ t.tip
at_least-get [] i t v every there = absurd (ground arith)
at_least-get (x ∷ ts) zero t v (here, rest) there =
    let same : x ≡ t = some-injective _ _ there in rw (← same) here
at_least-get (x ∷ ts) (suc i) t v (here, rest) there = at_least-get ts i t v rest there

-- Of what ascends, the elements up to the i-th are no higher than that, and those from it on no lower.
pub ascending_place :
    (ts : List Transaction) (i : ℕ) (t : Transaction)
    → IsAscending ts
    → get_elem? ts i ≡ some t
    → (i + 1 ≤ count (no_higher t.tip) ts) × (length ts ≤ count (no_lower t.tip) ts + i)
ascending_place [] i t up there = absurd (ground arith)
ascending_place (x ∷ ts) zero t (least, up) there =
    let same : x ≡ t = some-injective _ _ there in
    subst
      (λ (u : Transaction).
        (0 + 1 ≤ count (no_higher u.tip) (x ∷ ts))
        × (length (x ∷ ts) ≤ count (no_lower u.tip) (x ∷ ts) + 0))
      same (ground (arith, count-no_lower x.tip ts least))
ascending_place (x ∷ ts) (suc i) t (least, up) there =
    ground (arith, ascending_place ts i t up there, at_least-get ts i t x.tip least there)
