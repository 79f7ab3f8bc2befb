-- ===== src/SaeExec/Receipts/View.antt =====
-- The map of saexec/receipts.go seen as one map from keys to values, and the locks that it takes.
use strevm.Base.{
  none, inr, sym, ==_iff, inl, Bool-cases, true, ◌+◌, false, some, Bool, Option, arith, List, ℕ,
  ◌≡◌, ◌≤◌, ◌<◌, refl, ap, ◌∙◌, [], ◌∷◌, ◌==◌, if◌then◌else◌, ◌||◌,
}
use strevm.SaeExec.Receipts.{
  write_many, store_from_func, delete, first_byte, SyncMap, assign, write_one, write_loop, load,
}

abbrev pub contains : ℕ → List ℕ → Bool
contains k [] = false
contains k (j ∷ js) = (k == j) || contains k js

abbrev pub FromByte : ℕ → List ℕ → Type 0
FromByte b [] = Unit {0}
FromByte b (k ∷ ks) = (b ≤ first_byte k) × FromByte (first_byte k) ks

-- `slices.SortFunc` by the first byte: it keeps the elements, and puts them in this order.
pub record IsSortByByte (sort : List ℕ → List ℕ) : Type 0 where
  pub keeps : (k : ℕ) (ks : List ℕ) → contains k (sort ks) ≡ contains k ks
  pub ascends : (ks : List ℕ) → FromByte 0 (sort ks)

first_byte-lt : (k : ℕ) → first_byte k < 256
unfolding first_byte
first_byte-lt k = omega arith

if_same {ℓ} : {A : Type ℓ} (b : Bool) (a : A) → (if b then a else a) ≡ a
if_same true a = refl
if_same false a = refl

module _ {ℓ} {V : Type ℓ} (value : ℕ → Option V) where
  -- A write to one key, seen through `load`.
  load-write_one :
      (m : SyncMap V) (k j : ℕ)
      → load (write_one (λ entries i. assign entries i (value i)) m k) j
        ≡ (if j == k then value k else load m j)
  unfolding load write_one assign
  load-write_one m k j = elim (Bool-cases (j == k)) [
    | inl same ↦
        let here : (first_byte j == first_byte k) ≡ true =
          (==_iff _ _).1 (ap first_byte ((==_iff j k).0 same)) in
        rw here (rw same refl)
    | inr other ↦ elim (Bool-cases (first_byte j == first_byte k)) [
      | inl here ↦ rw here (rw other refl)
      | inr apart ↦ rw apart (rw other refl)
    ]
  ]

  combined :
      (j k : ℕ) (later : Bool) (v : Option V)
      → (if later then value j else (if j == k then value k else v))
        ≡ (if (j == k) || later then value j else v)
  combined j k later v = elim (Bool-cases (j == k)) [
    | inl same ↦
        let equal : value k ≡ value j = ap value (sym ((==_iff j k).0 same)) in
        rw same (rw equal (if_same later (value j)))
    | inr other ↦ rw other refl
  ]

  load-write_loop :
      (ks : List ℕ) (m : SyncMap V) (held : Option ℕ) (j : ℕ)
      → load (write_loop (λ entries i. assign entries i (value i)) ks m held).0 j
        ≡ (if contains j ks then value j else load m j)
  unfolding write_loop
  load-write_loop [] m held j = refl
  load-write_loop (k ∷ ks) m held j =
      let after = write_one (λ entries i. assign entries i (value i)) m k in
      load-write_loop ks (write_one (λ entries i. assign entries i (value i)) m k)
        (some (first_byte k)) j
      ∙ ap (λ v. if contains j ks then value j else v) (load-write_one m k j)
      ∙ combined j k (contains j ks) (load m j)

  locks_bound :
      (ks : List ℕ) (m : SyncMap V) (b : ℕ)
      → FromByte b ks
      → b < 256
      → (write_loop (λ entries i. assign entries i (value i)) ks m (some b)).1 + b ≤ 255
  unfolding write_loop
  locks_bound [] m b up low = omega arith
  locks_bound (k ∷ ks) m b (here, up) low =
      let rest =
        locks_bound ks (write_one (λ entries i. assign entries i (value i)) m k) (first_byte k) up
          (first_byte-lt k) in
      elim (Bool-cases (b == first_byte k)) [
        | inl same ↦ rw same (omega (arith, rest, (==_iff b (first_byte k)).0 same))
        | inr other ↦ let above : b < first_byte k = ground arith in rw other (omega (arith, rest))
      ]

  locks_at_first :
      (ks : List ℕ) (m : SyncMap V)
      → FromByte 0 ks
      → (write_loop (λ entries i. assign entries i (value i)) ks m none).1 ≤ 256
  unfolding write_loop
  locks_at_first [] m up = omega arith
  locks_at_first (k ∷ ks) m (here, up) = omega (
    arith,
    locks_bound ks (write_one (λ entries i. assign entries i (value i)) m k) (first_byte k) up
        (first_byte-lt k),
  )

module _ {ℓ} {V : Type ℓ} (sort : List ℕ → List ℕ) (sorts : IsSortByByte sort) where
  -- The map of 256 buckets is one map: after StoreFromFunc a key of the list has its new value, after
  -- Delete it has none, and each other key has the value from before, whatever the order of the keys;
  -- each of the two takes at most one lock for each bucket.
  pub sync_map_lem :
      (fn : ℕ → V) (ks : List ℕ) (m : SyncMap V) (k : ℕ)
      → (load (store_from_func sort fn ks m) k ≡ (if contains k ks then some (fn k) else load m k))
        × (load (delete sort ks m) k ≡ (if contains k ks then none else load m k))
        × ((write_many sort (λ entries i. assign entries i (some (fn i))) ks m).1 ≤ 256)
        × ((write_many {V = V} sort (λ entries i. assign entries i none) ks m).1 ≤ 256)
  unfolding store_from_func delete write_many
  sync_map_lem fn ks m k = (
    load-write_loop (λ i. some (fn i)) (sort ks) m none k
        ∙ ap (λ b. if b then some (fn k) else load m k) (sorts.keeps k ks),
    load-write_loop (λ i. none) (sort ks) m none k
        ∙ ap (λ b. if b then none else load m k) (sorts.keeps k ks),
    locks_at_first (λ i. some (fn i)) (sort ks) m (sorts.ascends ks),
    locks_at_first (λ i. none) (sort ks) m (sorts.ascends ks),
  )
