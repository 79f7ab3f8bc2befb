-- ===== src/SaeExec/Receipts/Tests.antt =====
-- A sort by insertion, and the buffers of two transactions.
use strevm.SaeExec.Receipts.View.{sync_map_lem, FromByte, contains, IsSortByByte}
use strevm.Base.{
  inr, leb→le, ◌||◌, inl, ◌==◌, Bool-cases, ap, ◌∙◌, arith, leb, List, ℕ, ◌≡◌, ◌≤◌, refl, [], ◌∷◌,
  none, some, if◌then◌else◌, ◌+◌,
}
use strevm.SaeExec.Receipts.{first_byte, SyncMap, load, store_from_func, delete, write_many, assign}

insert : ℕ → List ℕ → List ℕ
insert k [] = k ∷ []
insert k (x ∷ xs) =
    let later = insert k xs in if leb (first_byte k) (first_byte x) then k ∷ x ∷ xs else x ∷ later

sort : List ℕ → List ℕ
unfolding insert
sort [] = []
sort (k ∷ ks) = insert k (sort ks)

contains-insert : (j k : ℕ) (xs : List ℕ) → contains j (insert k xs) ≡ contains j (k ∷ xs)
unfolding insert
contains-insert j k [] = refl
contains-insert j k (x ∷ xs) = ground (arith, contains-insert j k xs)

contains-sort : (j : ℕ) (ks : List ℕ) → contains j (sort ks) ≡ contains j ks
unfolding sort
contains-sort j [] = refl
contains-sort j (k ∷ ks) =
    contains-insert j k (sort ks) ∙ ap (λ b. (j == k) || b) (contains-sort j ks)

FromByte-insert :
    (b k : ℕ) (xs : List ℕ) → b ≤ first_byte k → FromByte b xs → FromByte b (insert k xs)
unfolding insert
FromByte-insert b k [] low up = (low, tt)
FromByte-insert b k (x ∷ xs) low (here, up) =
    elim (Bool-cases (leb (first_byte k) (first_byte x))) [
      | inl first ↦ rw first (low, (leb→le _ _ first, up))
      | inr later ↦
          let above : first_byte x ≤ first_byte k = ground arith in
          rw later (here, FromByte-insert (first_byte x) k xs above up)
    ]

FromByte-sort : (ks : List ℕ) → FromByte 0 (sort ks)
unfolding sort
FromByte-sort [] = tt
FromByte-sort (k ∷ ks) = FromByte-insert 0 k (sort ks) (omega arith) (FromByte-sort ks)

sort-IsSortByByte : IsSortByByte sort
sort-IsSortByByte = record { keeps = contains-sort; ascends = FromByte-sort }

abbrev buffer : ℕ → ℕ
buffer k = k + 1

abbrev empty : SyncMap ℕ
empty b k = none

sync_map_lem_example :
    (load (store_from_func sort buffer (7 ∷ 3 ∷ []) empty) 3
      ≡ (if contains 3 (7 ∷ 3 ∷ []) then some (buffer 3) else load empty 3))
    × (load (delete sort (7 ∷ 3 ∷ []) empty) 3
        ≡ (if contains 3 (7 ∷ 3 ∷ []) then none else load empty 3))
    × ((write_many sort (λ entries i. assign entries i (some (buffer i))) (7 ∷ 3 ∷ []) empty).1
        ≤ 256)
    × ((write_many {V = ℕ} sort (λ entries i. assign entries i none) (7 ∷ 3 ∷ []) empty).1 ≤ 256)
sync_map_lem_example = sync_map_lem sort (sort-IsSortByByte) buffer (7 ∷ 3 ∷ []) empty 3
