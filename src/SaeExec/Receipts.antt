-- ===== src/SaeExec/Receipts.antt =====
-- saexec/receipts.go: the receipts that have not been written to disk yet, in a map that is split into 256
-- buckets by the first byte of the key, so that one lock each is enough. A key is the number that its
-- 32 bytes stand for; slices.SortFunc is a parameter, and so is eventual.Value of libevm.
pub mod View
mod Tests
use strevm.Base.{
  Bool, ◌>>=◌, false, ok, some, ◌∷◌, Outcome, List, none, Option, ℕ, ◌/◌, ◌%◌, ◌^◌, ◌+◌, ◌==◌,
  if◌then◌else◌, [],
}

-- `k[0]`
pub first_byte : ℕ → ℕ
first_byte k = k / 2 ^ 248 % 256

-- The maps of the buckets of a `syncMap`; a key that is missing is `none`.
abbrev pub SyncMap {ℓ} : Type ℓ → Type ℓ
SyncMap V = ℕ → ℕ → Option V

-- The bucket that is locked, if any, is the given one.
holds : Option ℕ → ℕ → Bool
holds none b = false
holds (some held) b = held == b

module _ {ℓ} {V : Type ℓ} where
  -- `newSyncMap`
  pub new_sync_map : SyncMap V
  new_sync_map b k = none

  -- `m[k] = v` and `delete(m, k)`
  pub assign : (ℕ → Option V) → ℕ → Option V → ℕ → Option V
  assign entries k v j = if j == k then v else entries j

  -- A write to the bucket of a key.
  write_one : ((ℕ → Option V) → ℕ → ℕ → Option V) → SyncMap V → ℕ → SyncMap V
  write_one fn m k b = if b == first_byte k then fn (m b) k else m b

  -- The loop of `writeMany`, from the bucket that is locked, if any: the map that it leaves, and how many
  -- locks it takes.
  pub write_loop :
      ((ℕ → Option V) → ℕ → ℕ → Option V) → List ℕ → SyncMap V → Option ℕ → SyncMap V × ℕ
  unfolding write_one holds
  write_loop fn [] m held = (m, 0)
  write_loop fn (k ∷ ks) m held =
      let (left, locks) = write_loop fn ks (write_one fn m k) (some (first_byte k)) in
      (left, if holds held (first_byte k) then locks else locks + 1)

  -- `Load`
  pub load : SyncMap V → ℕ → Option V
  load m k = m (first_byte k) k

  module _ (sort : List ℕ → List ℕ) where
    -- `writeMany`, with the locks that it takes.
    pub write_many : ((ℕ → Option V) → ℕ → ℕ → Option V) → List ℕ → SyncMap V → SyncMap V × ℕ
    unfolding write_loop
    write_many fn ks m = write_loop fn (sort ks) m none

    -- `StoreFromFunc`
    pub store_from_func : (ℕ → V) → List ℕ → SyncMap V → SyncMap V
    unfolding assign write_many
    store_from_func fn ks m = (write_many (λ entries k. assign entries k (some (fn k))) ks m).0

    -- `Delete`
    pub delete : List ℕ → SyncMap V → SyncMap V
    unfolding assign write_many
    delete ks m = (write_many (λ entries k. assign entries k none) ks m).0

    -- `createReceiptBuffers` for the hashes of the transactions, and the cleanup that it adds.
    pub create_receipt_buffers : (ℕ → V) → List ℕ → SyncMap V → SyncMap V
    unfolding store_from_func
    create_receipt_buffers fresh_buffer txs m = store_from_func fresh_buffer txs m

    pub clean_up : List ℕ → SyncMap V → SyncMap V
    unfolding delete
    clean_up txs m = delete txs m

-- `RecentReceipt`; `peek` waits until the receipt is there or the context is cancelled.
pub recent_receipt {ℓ κ} :
    {V : Type ℓ} {R : Type κ} → (V → Outcome R) → SyncMap V → ℕ → Outcome (Option R)
unfolding load
recent_receipt peek m tx = elim (load m tx) [
  | none ↦ ok none
  | some v ↦ peek v >>= λ r. ok (some r)
]
