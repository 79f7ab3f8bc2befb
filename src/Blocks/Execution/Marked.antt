-- ===== src/Blocks/Execution/Marked.antt =====
-- `MarkExecuted` of blocks/execution.go: what is on disk when the indicators in memory are set.
use strevm.Base.{
  refl, [], arith, leb-eq-false, ◌^◌, ◌<◌, Outcome, ◌∙◌, Option, inr, inl, Option-cases,
  mark_block_executed_again, err, if◌then◌else◌, ◌∷◌, ◌⊎◌, true, Error, ok, some, false, Bool, none,
  List, ℕ, ◌≡◌,
}
use strevm.GasTime
use strevm.Blocks.{Memory, Block, ExecutionResults, store}
use strevm.Blocks.Execution.{
  Database, DatabaseLaws, write_receipts, World, mark_executed, mark_executed_with,
  mark_executed_on_disk, mark_executed_after_disk, in_memory, set_base_fee, set_as_head_block,
}

-- The invariant of the channel: it is open as long as the block has no execution results.
abbrev pub IsOpen : Block → Type 0
IsOpen b = b.execution ≡ none → b.executed ≡ false

-- The memory after the block is marked as executed with the results.
abbrev pub executed_at : Memory → ℕ → ExecutionResults → Bool → Memory
executed_at m p e to_pointer =
    record (store m p (record (m.block p) { execution = some e; executed = true })) {
      last_executed = if to_pointer then some p else m.last_executed;
    }

after_disk_lem :
    (m : Memory) (p : ℕ) (e : ExecutionResults) (to_pointer : Bool)
    → IsOpen (m.block p)
    → (((m.block p).execution ≡ none)
        × (mark_executed_after_disk m p e to_pointer ≡ ok (executed_at m p e to_pointer)))
      ⊎ (mark_executed_after_disk m p e to_pointer ≡ err mark_block_executed_again)
unfolding mark_executed_after_disk
after_disk_lem m p e to_pointer open_p = elim (Option-cases (m.block p).execution) [
  | inl fresh ↦ inl (fresh, rw (fresh, mark_executed_after_disk) (rw (open_p fresh) refl))
  | inr (old, again) ↦ inr (rw (again, mark_executed_after_disk) refl)
]

module _ (db : Database) (laws : DatabaseLaws db) where
  -- The results and the receipts of a block are on disk.
  abbrev pub IsStored : db.Disk → Block → ExecutionResults → Type 0
  IsStored d b e =
      (db.get d b.header.number ≡ ok (db.marshal e))
      × (db.read_raw_receipts d b.hash b.header.number ≡ e.receipts)

  -- What a write leaves: an error, or the results and the receipts.
  abbrev Stores : Block → ExecutionResults → db.Disk × Option Error → Type 0
  Stores b e left = ((x : Error) × (left.1 ≡ some x)) ⊎ ((left.1 ≡ none) × IsStored left.0 b e)

  write-Stores :
      (d : db.Disk) (b : Block) (e : ExecutionResults)
      → db.get d b.header.number ≡ ok (db.marshal e)
      → Stores b e
          (db.write d (write_receipts b.hash b.header.number e.receipts ∷ set_as_head_block b))
  write-Stores d b e kept =
      let all = write_receipts b.hash b.header.number e.receipts ∷ set_as_head_block b in
      elim (Option-cases (db.write d all).1) [
        | inr failed ↦ inl failed
        | inl done ↦ inr (
          done,
          (
            laws.get-write d all b.header.number ∙ kept,
            laws.receipts-write d b.hash b.header.number e.receipts b done,
          ),
        )
      ]

  on_disk-Stores :
      (d : db.Disk) (b : Block) (e : ExecutionResults)
      → Stores b e (
          mark_executed_on_disk db d b
            (write_receipts b.hash b.header.number e.receipts ∷ [])
            e
            true)
  unfolding mark_executed_on_disk
  on_disk-Stores d b e =
      let n = b.header.number in
      let stored = db.put d n (db.marshal e) in
      elim (Option-cases stored.1) [
        | inr (x, failed) ↦ rw (failed, mark_executed_on_disk) (inl (x, refl))
        | inl put_ok ↦
            rw (put_ok, mark_executed_on_disk)
              (elim (Option-cases (db.sync stored.0 n n).1) [
                | inr (x, failed) ↦ rw failed (inl (x, refl))
                | inl sync_ok ↦
                    let kept =
                      laws.get-sync stored.0 n n n ∙ laws.get-put d n (db.marshal e) put_ok in
                    rw sync_ok (write-Stores (db.sync stored.0 n n).0 b e kept)
              ])
      ]

  -- What `MarkExecuted` returns: an error, with the memory as it was, or no error, with the memory
  -- updated and the results stored.
  abbrev Marks : Memory → ℕ → ExecutionResults → Bool → Outcome (World db) → Type 0
  Marks m p e to_pointer run =
      ((d' : db.Disk) × (x : Error) × (run ≡ ok (d', m, some x)))
      ⊎ ((d' : db.Disk) × (run ≡ ok (d', executed_at m p e to_pointer, none))
          × ((m.block p).execution ≡ none)
          × IsStored d' (m.block p) e)

  with-Marks :
      (d : db.Disk) (m : Memory) (p : ℕ) (e : ExecutionResults) (to_pointer : Bool)
      → IsOpen (m.block p)
      → Marks m p e to_pointer (
          mark_executed_with db d m p
            (write_receipts (m.block p).hash (m.block p).header.number e.receipts ∷ [])
            e
            true
            to_pointer)
  unfolding mark_executed_with in_memory
  with-Marks d m p e to_pointer open_p = elim (on_disk-Stores d (m.block p) e) [
    | inl (x, failed) ↦ rw (failed, mark_executed_with) (inl (_, x, refl))
    | inr (done, stored) ↦
        rw (done, mark_executed_with)
          (elim (after_disk_lem m p e to_pointer open_p) [
            | inl (fresh, run) ↦ rw run (inr (_, refl, fresh, stored))
            | inr again ↦ rw again (inl (_, _, refl))
          ])
  ]

  -- The results that `MarkExecuted` stores.
  abbrev pub results : GasTime.Time → ℕ → List ℕ → ℕ → ExecutionResults
  results by_gas base_fee receipts state_root_post = record {
    by_gas = by_gas;
    base_fee = base_fee;
    receipt_root = db.derive_sha receipts;
    state_root_post = state_root_post;
    receipts = receipts;
  }

  -- `MarkExecuted` of a block whose channel is open while it is not executed never panics. It returns
  -- an error and leaves the memory as it was, or it was the first to mark the block and returns
  -- none: the block, the channel and the pointer are set in memory, and the results and the
  -- receipts are on disk.
  pub mark_executed_lem :
      (d : db.Disk) (m : Memory) (p : ℕ) (by_gas : GasTime.Time) (base_fee : ℕ) (receipts : List ℕ)
      (state_root_post : ℕ) (to_pointer : Bool)
      → IsOpen (m.block p)
      → base_fee < 2 ^ 256
      → ((d' : db.Disk) × (x : Error) × (mark_executed db d m p by_gas
              (some base_fee)
              receipts
              state_root_post
              to_pointer
            ≡ ok (d', m, some x)))
        ⊎ ((d' : db.Disk) × (mark_executed db d m p by_gas
                (some base_fee)
                receipts
                state_root_post
                to_pointer
              ≡ ok (
                d',
                executed_at m p (results by_gas base_fee receipts state_root_post) to_pointer,
                none,
              ))
            × ((m.block p).execution ≡ none)
            × IsStored d' (m.block p) (results by_gas base_fee receipts state_root_post))
  unfolding mark_executed set_base_fee
  mark_executed_lem d m p by_gas base_fee receipts state_root_post to_pointer open_p fits =
      rw (leb-eq-false (2 ^ 256) base_fee (omega (arith, fits)), mark_executed, set_base_fee)
        (with-Marks d m p (results by_gas base_fee receipts state_root_post) to_pointer open_p)
