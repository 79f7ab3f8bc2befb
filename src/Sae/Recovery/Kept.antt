-- ===== src/Sae/Recovery/Kept.antt =====
-- What the steps of sae/recovery.go leave of the blocks that are in memory.
use strevm.Hook.{Header, Points}
use strevm.Base.{
  ==_iff, arith, ◌==◌, Bool-cases, Option-cases, bind_inverts, ok-injective, Option, ℕ, ◌≡◌, ◌<◌,
  refl, sym, ap, ◌∙◌, ok, some, none, inl, inr, true, false,
}
use mathlib.Core.Path.{subst}
use strevm.Blocks.Execution.{
  Database, restore_execution_artefacts, load_execution_results, mark_executed_after_disk,
}
use strevm.Blocks.Settlement.{mark_settled}
use strevm.Blocks.{
  Ancestry, store, Memory, Block, new, set_ancestors, check_parent, height, ExecutionResults,
}
use strevm.Sae.Access.{EthBlock}
use strevm.Sae.Recovery.{mark_blackhole, restored_block, new_canonical_block, canonical_block}

-- What recovery leaves of a block that was there.
abbrev pub Same : Block → Block → Type 0
Same a b = (b.header ≡ a.header) × (b.execution ≡ a.execution) × (b.synchronous ≡ a.synchronous)

abbrev pub Keeps : ℕ → Memory → Memory → Type 0
Keeps n m m' = (q : ℕ) → q < n → Same (m.block q) (m'.block q)

pub store-Keeps : (n p : ℕ) (m : Memory) (b : Block) → Same (m.block p) b → Keeps n m (store m p b)
store-Keeps n p m b same q below = elim (Bool-cases (q == p)) [
  | inl here ↦
      let eq : q ≡ p = (==_iff q p).0 here in
      rw here (subst (λ k. Same (m.block k) b) (sym eq) same)
  | inr other ↦ rw other (refl, refl, refl)
]

marked :
    (p : ℕ) (m : Memory) (a : Ancestry) {m' : Memory}
    → (m.block p).ancestry ≡ some a
    → (m.block p).settled ≡ false
    → mark_blackhole m p ≡ ok m'
    → ok (record (store m p (record (m.block p) { ancestry = none; settled = true })) {
      last_settled = m.last_settled;
    })
      ≡ ok m'
unfolding mark_blackhole mark_settled
marked p m a ancestry open_yet run =
    sym (rw (ancestry, mark_blackhole, mark_settled) (rw open_yet refl)) ∙ run

pub mark_blackhole-Keeps : (n p : ℕ) (m m' : Memory) → mark_blackhole m p ≡ ok m' → Keeps n m m'
unfolding mark_blackhole mark_settled
mark_blackhole-Keeps n p m m' run = elim (Option-cases (m.block p).ancestry) [
  | inl settled ↦ absurd (ground arith)
  | inr (a, ancestry) ↦ elim (Bool-cases (m.block p).settled) [
    | inl closed ↦ absurd (ground arith)
    | inr open_yet ↦ subst (Keeps n m) (ok-injective (marked p m a ancestry open_yet run)) (
        store-Keeps n p m (record (m.block p) { ancestry = none; settled = true })
          (refl, refl, refl))
  ]
]

pub Keeps-trans : (n : ℕ) (a b c : Memory) → Keeps n a b → Keeps n b c → Keeps n a c
Keeps-trans n a b c first second q below =
    let (h1, e1, s1) = first q below in
    let (h2, e2, s2) = second q below in (h2 ∙ h1, e2 ∙ e1, s2 ∙ s1)

-- A write at the fresh pointer.
write-Keeps : (n : ℕ) (m : Memory) (b : Block) → Keeps n m (store m n b)
write-Keeps n m b q below =
    let other : (q == n) ≡ false = ground arith in rw other (refl, refl, refl)

written : (n : ℕ) (m : Memory) (b : Block) → (store m n b).block n ≡ b
written n m b = let same : (n == n) ≡ true = ground arith in rw same refl

new-Keeps :
    (m m' : Memory) (fresh : ℕ) (header : Header) (hash : ℕ)
    → new m fresh header hash none none ≡ ok m'
    → Keeps fresh m m' × (height m' fresh ≡ header.number)
unfolding new set_ancestors check_parent
new-Keeps m m' fresh header hash run =
    subst (λ k. Keeps fresh m k × (height k fresh ≡ header.number)) (ok-injective run)
      (
        λ q below. let other : (q == fresh) ≡ false = ground arith in rw other (refl, refl, refl),
        ground arith,
      )

executes :
    (m : Memory) (fresh : ℕ) (e : ExecutionResults) {m' : Memory}
    → (m.block fresh).execution ≡ none
    → (m.block fresh).executed ≡ false
    → mark_executed_after_disk m fresh e false ≡ ok m'
    → ok (record (store m fresh (record (m.block fresh) { execution = some e; executed = true })) {
      last_executed = m.last_executed;
    })
      ≡ ok m'
unfolding mark_executed_after_disk
executes m fresh e first open_yet run =
    sym (rw (first, mark_executed_after_disk) (rw open_yet refl)) ∙ run

marks-Keeps :
    (m m' : Memory) (fresh : ℕ) (e : ExecutionResults)
    → mark_executed_after_disk m fresh e false ≡ ok m'
    → Keeps fresh m m' × (height m' fresh ≡ height m fresh)
unfolding mark_executed_after_disk
marks-Keeps m m' fresh e run = elim (Option-cases (m.block fresh).execution) [
  | inr (old, again) ↦ absurd (ground arith)
  | inl first ↦ elim (Bool-cases (m.block fresh).executed) [
    | inl closed ↦ absurd (ground arith)
    | inr open_yet ↦
        subst (λ k. Keeps fresh m k × (height k fresh ≡ height m fresh))
          (ok-injective (executes m fresh e first open_yet run))
          (
            write-Keeps fresh m (record (m.block fresh) { execution = some e; executed = true }),
            ap (λ (b : Block). b.header.number)
                (written fresh m (record (m.block fresh) { execution = some e; executed = true })),
          )
  ]
]

restores-Keeps :
    (db : Database) (d : db.Disk) (m m' : Memory) (fresh : ℕ)
    → restore_execution_artefacts db d m fresh ≡ ok m'
    → Keeps fresh m m' × (height m' fresh ≡ height m fresh)
unfolding restore_execution_artefacts
restores-Keeps db d m m' fresh run =
    let (e, loads, derives) =
      bind_inverts (load_execution_results db d (height m fresh)) _ m' run in
    let (receipts, derived, marks) =
      bind_inverts
        (db.derive_fields (m.block fresh) e
          (db.read_raw_receipts d (m.block fresh).hash (height m fresh)))
        _ m' derives in
    marks-Keeps m m' fresh (record e { receipts = receipts }) marks

module _ (db : Database) (hooks : Points) (read_block : db.Disk → ℕ → ℕ → Option EthBlock)
    (read_canonical_hash : db.Disk → ℕ → ℕ) (last_synchronous : ℕ) where
  canonical_block-reads :
      (d : db.Disk) (num : ℕ) (b : EthBlock)
      → canonical_block db hooks read_block read_canonical_hash last_synchronous d num ≡ ok b
      → read_block d (read_canonical_hash d num) num ≡ some b
  unfolding canonical_block
  canonical_block-reads d num b run =
      elim (Option-cases (read_block d (read_canonical_hash d num) num)) [
        | inl missing ↦ absurd (ground arith)
        | inr (c, found) ↦
            found ∙ ap some (ok-injective (sym (rw (found, canonical_block) refl) ∙ run))
      ]

  new_canonical_block-Keeps :
      (d : db.Disk) (m m' : Memory) (fresh num : ℕ)
      → ((b : EthBlock)
          → read_block d (read_canonical_hash d num) num ≡ some b
          → b.header.number ≡ num)
      → new_canonical_block db hooks read_block read_canonical_hash last_synchronous d m fresh num
          none
        ≡ ok m'
      → Keeps fresh m m' × (height m' fresh ≡ num)
  unfolding new_canonical_block
  new_canonical_block-Keeps d m m' fresh num numbered run =
      let (b, reads, news) =
        bind_inverts
          (canonical_block db hooks read_block read_canonical_hash last_synchronous d num) _ m'
          run in
      let (kept, number) = new-Keeps m m' fresh b.header b.hash news in
      (kept, number ∙ numbered b (canonical_block-reads d num b reads))

  pub restored_block-Keeps :
      (d : db.Disk) (m m' : Memory) (fresh num : ℕ)
      → ((b : EthBlock)
          → read_block d (read_canonical_hash d num) num ≡ some b
          → b.header.number ≡ num)
      → restored_block db hooks read_block read_canonical_hash last_synchronous d m fresh num
        ≡ ok m'
      → Keeps fresh m m' × (height m' fresh ≡ num)
  unfolding restored_block
  restored_block-Keeps d m m' fresh num numbered run =
      let (m1, made, restores) =
        bind_inverts
          (new_canonical_block db hooks read_block read_canonical_hash last_synchronous d m fresh
            num none)
          _ m' run in
      let (kept, number) = new_canonical_block-Keeps d m m1 fresh num numbered made in
      let (then_kept, same_number) = restores-Keeps db d m1 m' fresh restores in
      (Keeps-trans fresh m m1 m' kept then_kept, same_number ∙ number)
