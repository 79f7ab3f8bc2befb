-- ===== src/Blocks/Chain.antt =====
-- The chain of ancestors that blocks in memory form.
use strevm.Base.{ℕ, zero, suc, ◌+◌, ◌≡◌, Option, none, some, false, List, [], ◌∷◌}
use strevm.Blocks.{Memory, Ancestry, height}
use strevm.Blocks.Settlement.{is_settled, parent_block}

-- The invariant of `Block`: a block that is not settled has a parent, one lower.
pub record IsChain (m : Memory) : Type 0 where
  pub linked :
      (p : ℕ) (a : Ancestry)
      → (m.block p).ancestry ≡ some a
      → (q : ℕ) × (a.parent ≡ some q) × (height m q + 1 ≡ height m p)

-- The block `n` steps up the chain.
abbrev pub ancestor : Memory → ℕ → ℕ → Option ℕ
ancestor m zero p = some p
ancestor m (suc n) p = elim (parent_block m p) [ none ↦ none | some q ↦ ancestor m n q ]

-- The `n` blocks from a pointer up the chain exist, and are not settled.
abbrev pub Unsettled : Memory → ℕ → Option ℕ → Type 0
Unsettled m zero o = Unit
Unsettled m (suc n) none = ⊥
Unsettled m (suc n) (some p) = (is_settled m p ≡ false) × Unsettled m n (parent_block m p)

-- A list of blocks from a pointer up the chain, each the parent of the one before it.
abbrev pub Linked : Memory → Option ℕ → List ℕ → Type 0
Linked m o [] = Unit
Linked m o (p ∷ ps) = (o ≡ some p) × Linked m (parent_block m p) ps
