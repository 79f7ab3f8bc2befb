-- ===== src/Blocks/Execution/Restored.antt =====
-- `RestoreExecutionArtefacts` of blocks/execution.go, after `MarkExecuted`.
use strevm.Hook.{Header}
use mathlib.Core.Path.{subst}
use strevm.GasTime
use strevm.Base.{
  inr, Option, inl, arith, ==_iff, ◌^◌, ◌≢◌, true, ◌<◌, some, List, Error, Bool, [], false, ok,
  none, ℕ, ◌≡◌, ok-injective, sym, ap, ◌∙◌, refl,
}
use strevm.Blocks.{Memory, Block, ExecutionResults}
use strevm.Blocks.Execution.{
  Database, DatabaseLaws, mark_executed, restore_execution_artefacts, load_execution_results,
  mark_executed_after_disk,
}
use strevm.Blocks.Execution.Marked.{IsOpen, IsStored, executed_at, mark_executed_lem, results}

module _ (db : Database) (laws : DatabaseLaws db) where
  -- A block as it is when it is read back: as the one that was executed, and not yet executed. The
  -- fields that the receipts carry besides are derived anew.
  pub record IsReread (b b' : Block) (e : ExecutionResults) : Type 0 where
    pub header : b'.header ≡ b.header
    pub hash : b'.hash ≡ b.hash
    pub execution : b'.execution ≡ none
    pub executed : b'.executed ≡ false
    pub derived : db.derive_fields b' (record e { receipts = [] }) e.receipts ≡ ok e.receipts

  load-IsStored :
      (d : db.Disk) (b : Block) (e : ExecutionResults)
      → IsStored db laws d b e
      → load_execution_results db d b.header.number ≡ ok (record e { receipts = [] })
  unfolding load_execution_results
  load-IsStored d b e stored = rw (stored.0) (laws.unmarshal-marshal e)

  fresh_block :
      (m : Memory) (q : ℕ) (e : ExecutionResults)
      → (m.block q).execution ≡ none
      → (m.block q).executed ≡ false
      → mark_executed_after_disk m q e false ≡ ok (executed_at m q e false)
  unfolding mark_executed_after_disk
  fresh_block m q e fresh open_q = rw (fresh, mark_executed_after_disk) (rw open_q refl)

  stored_block :
      (m : Memory) (p : ℕ) (e : ExecutionResults) (to_pointer : Bool)
      → (((executed_at m p e to_pointer).block p).execution ≡ some e)
        × (((executed_at m p e to_pointer).block p).executed ≡ true)
  stored_block m p e to_pointer = rw ((==_iff p p).1 refl) (refl, refl)

  some≢none : (x : Error) → some x ≢ none
  some≢none x e = ground arith

  restore-IsStored :
      (d : db.Disk) (b : Block) (m : Memory) (q : ℕ) (e : ExecutionResults)
      → IsStored db laws d b e
      → IsReread b (m.block q) e
      → restore_execution_artefacts db d m q ≡ ok (executed_at m q e false)
  unfolding restore_execution_artefacts
  restore-IsStored d b m q e stored reread =
      let n_same : b.header.number ≡ (m.block q).header.number =
        ap (λ (h : Header). h.number) (sym reread.header) in
      let loaded : load_execution_results db d (m.block q).header.number
          ≡ ok (record e { receipts = [] }) =
        ap (load_execution_results db d) (sym n_same) ∙ load-IsStored d b e stored in
      let raw : db.read_raw_receipts d (m.block q).hash (m.block q).header.number ≡ e.receipts =
        ap (λ (h : ℕ). db.read_raw_receipts d h (m.block q).header.number) reread.hash
        ∙ (ap (db.read_raw_receipts d b.hash) (sym n_same) ∙ stored.1) in
      rw (loaded, restore_execution_artefacts)
        (rw (raw, reread.derived) (fresh_block m q e reread.execution reread.executed))

  -- A block that `MarkExecuted` marked without an error, and that is read back as a block that is
  -- not executed, gets from `RestoreExecutionArtefacts` the same execution results, and its channel
  -- is closed.
  pub restore-mark_executed :
      (d d' : db.Disk) (m m' m2 : Memory) (p q : ℕ) (by_gas : GasTime.Time) (base_fee : ℕ)
      (receipts : List ℕ) (state_root_post : ℕ) (to_pointer : Bool)
      → IsOpen (m.block p)
      → base_fee < 2 ^ 256
      → mark_executed db d m p by_gas (some base_fee) receipts state_root_post to_pointer
        ≡ ok (d', m', none)
      → IsReread (m.block p) (m2.block q) (results db laws by_gas base_fee receipts state_root_post)
      → (m2' : Memory) × (restore_execution_artefacts db d' m2 q ≡ ok m2')
        × ((m2'.block q).execution ≡ (m'.block p).execution)
        × ((m2'.block q).executed ≡ true)
  restore-mark_executed d d' m m' m2 p q by_gas base_fee receipts state_root_post to_pointer open_p
        fits marked reread =
      let e = results db laws by_gas base_fee receipts state_root_post in
      elim (mark_executed_lem db laws d m p by_gas base_fee receipts state_root_post to_pointer
        open_p fits) [
          | inl (d1, x, run) ↦
              elim (some≢none x (
                ap (λ (w : db.Disk × Memory × Option Error). w.2)
                  (ok-injective (sym run ∙ marked)))) [ ]
          | inr (d1, run, fresh, stored) ↦
              let same = ok-injective (sym run ∙ marked) in
              let stored' : IsStored db laws d' (m.block p) e =
                subst (λ k. IsStored db laws k (m.block p) e)
                  (ap (λ (w : db.Disk × Memory × Option Error). w.0) same) stored in
              let memory : executed_at m p e to_pointer ≡ m' =
                ap (λ (w : db.Disk × Memory × Option Error). w.1) same in
              (
                _,
                restore-IsStored d' (m.block p) m2 q e stored' reread,
                (stored_block m2 q e false).0
                    ∙ (sym (stored_block m p e to_pointer).0
                        ∙ ap (λ (k : Memory). (k.block p).execution) memory),
                (stored_block m2 q e false).1,
              )
        ]
